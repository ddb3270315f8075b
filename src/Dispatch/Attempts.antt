-- ===== src/Dispatch/Attempts.antt =====
-- internal/dispatch/dispatcher.go: which sends a dispatch makes, by the preferences alone.
use csar_notify.Base.{
  GoError, List, Option, Option-cases, Result, Result-cases, Text, [], append-nil, append_assoc,
  codes, err, inl, inr, join_failure, map, none, ok, refl, some, sym, wrapped, ◌++◌, ◌∙◌, ◌∷◌, ◌≡◌,
}
use mathlib.Core.List.{map-append}
use csar_notify.Domain.{Notification, Preference, ResolvedPreference}
use csar_notify.Provider.{Provider}
use csar_notify.Provider.Registry.{get}
use csar_notify.Dispatch.{
  Dispatcher, State, targets_for, resolve_channels, attempt, send_targets, send_recipients,
}

-- A send that is to be made.
pub record Planned (W : Type 0) : Type 0 where
  pub provider : Provider W
  pub recipient : Text
  pub target : ResolvedPreference

-- The counter's label for it.
abbrev pub label_of : {W : Type 0} → Planned W → Text
label_of s = s.target.channel

module _ {W : Type 0} (d : Dispatcher W) where
  -- The sends to a recipient on the channels, in order, that have a provider.
  abbrev pub served : Text → List ResolvedPreference → List (Planned W)
  served r [] = []
  served r (t ∷ ts) = elim (get d.providers t.channel) [
    | none ↦ served r ts
    | some p ↦ record { provider = p; recipient = r; target = t } ∷ served r ts
  ]

  -- The world after the sends of a notification, one after the other.
  abbrev pub after_sends : Notification → List (Planned W) → W → W
  after_sends n [] w = w
  after_sends n (s ∷ rest) w =
      after_sends n rest (s.provider.send n s.recipient s.target.config w).1

  after_sends-append :
      (n : Notification) (xs ys : List (Planned W)) (w : W)
      → after_sends n (xs ++ ys) w ≡ after_sends n ys (after_sends n xs w)
  after_sends-append n [] ys w = refl
  after_sends-append n (s ∷ xs) ys w =
      after_sends-append n xs ys (s.provider.send n s.recipient s.target.config w).1

  abbrev Made : Notification → List (Planned W) → State W → State W → Type 0
  Made n sends s t =
      (t.world ≡ after_sends n sends s.world)
      × (t.provider_sends ≡ s.provider_sends ++ map label_of sends)

  send_targets-Made :
      (n : Notification) (r : Text) (ts : List ResolvedPreference) (acc : Option GoError)
      (s : State W)
      → Made n (served r ts) s (send_targets d n r ts acc s).1
  unfolding send_targets attempt
  send_targets-Made n r [] acc s = (refl, sym (append-nil s.provider_sends))
  send_targets-Made n r (t ∷ ts) acc s = elim (Option-cases (get d.providers t.channel)) [
    | inl e ↦ rw (e, send_targets) (rw (e, served) (send_targets-Made n r ts acc s))
    | inr (p, e) ↦
        let s' = (attempt d n r t p s).1 in
        let acc' = join_failure acc (attempt d n r t p s).0 in
        let (world, labels) = send_targets-Made n r ts acc' s' in
        rw (e, send_targets)
          (rw (e, served)
            (
              world,
              labels ∙ append_assoc s.provider_sends (t.channel ∷ []) (map label_of (served r ts)),
            ))
  ]

module _ {W : Type 0} (d : Dispatcher W) (n : Notification)
    (prefs : Text → Result (List Preference)) where
  -- The sends that one recipient's preferences lead to.
  abbrev pub planned : Text → List (Planned W)
  planned r = elim (prefs r) [ err e ↦ [] | ok ps ↦ served d r (targets_for ps n) ]

  abbrev pub all_planned : List Text → List (Planned W)
  all_planned [] = []
  all_planned (r ∷ rs) = planned r ++ all_planned rs

  Made-append :
      (xs ys : List (Planned W)) (s t u : State W)
      → Made d n xs s t
      → Made d n ys t u
      → Made d n (xs ++ ys) s u
  Made-append xs ys s t u (w, l) (v, m) = (
    v ∙ rw w (sym (after_sends-append d n xs ys s.world)),
    m ∙ rw (l, map-append) (append_assoc s.provider_sends (map label_of xs) (map label_of ys)),
  )

  resolve_channels-ok :
      ((r : Text) (w : W) → d.store.get_preferences r w ≡ (prefs r, w))
      → (r : Text) (ps : List Preference) (s : State W) → prefs r ≡ ok ps
      → resolve_channels d r n s ≡ (ok (targets_for ps n), s)
  unfolding resolve_channels
  resolve_channels-ok reads r ps s e = rw (reads r s.world) (rw e refl)

  resolve_channels-err :
      ((r : Text) (w : W) → d.store.get_preferences r w ≡ (prefs r, w))
      → (r : Text) (e : GoError) (s : State W) → prefs r ≡ err e
      → resolve_channels d r n s ≡ (err e, s)
  unfolding resolve_channels
  resolve_channels-err reads r f s e = rw (reads r s.world) (rw e refl)

  -- Every recipient is sent the notification on every channel that their preferences lead to and
  -- that has a provider, by that provider, under their own name and with the preference's
  -- configuration, once each and in order, whichever sends and reads of preferences fail: the world
  -- afterwards is the one that these sends lead to and no others, and the counter of sends has a
  -- label for each. The preferences are taken not to change while the loop runs, and their reads not
  -- to change the world.
  pub send_recipients_attempts :
      ((r : Text) (w : W) → d.store.get_preferences r w ≡ (prefs r, w))
      → (rs : List Text) (acc : Option GoError) (s : State W)
      → ((send_recipients d n rs acc s).1.world ≡ after_sends d n (all_planned rs) s.world)
        × ((send_recipients d n rs acc s).1.provider_sends
            ≡ s.provider_sends ++ map label_of (all_planned rs))
  unfolding send_recipients
  send_recipients_attempts reads [] acc s = (refl, sym (append-nil s.provider_sends))
  send_recipients_attempts reads (r ∷ rs) acc s = elim (Result-cases (prefs r)) [
    | inl (e, bad) ↦
        let failure = wrapped (codes "resolve channels for " ++ r) e in
        let rest = send_recipients_attempts reads rs (join_failure acc (some failure)) s in
        let found = resolve_channels-err reads r e s bad in
        rw (found, send_recipients) (rw (found, send_recipients) (rw (bad, planned) rest))
    | inr (ps, good) ↦
        let ts = targets_for ps n in
        let (acc', s'') = send_targets d n r ts acc s in
        let here = send_targets-Made d n r ts acc s in
        let rest = send_recipients_attempts reads rs acc' s'' in
        let found = resolve_channels-ok reads r ps s good in
        rw (found, send_recipients)
          (rw (found, send_recipients)
            (rw (good, planned)
              (Made-append (served d r ts) (all_planned rs) s s''
                (send_recipients d n rs acc' s'').1 here rest)))
  ]
