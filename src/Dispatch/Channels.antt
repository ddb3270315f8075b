-- ===== src/Dispatch/Channels.antt =====
-- The channels that `resolveChannels` picks for a recipient.
use csar_notify.Base.{
  All, Any, Bool, Bool-cases, Dict, Distinct, In, List, Option, Text, [], arith, false,
  if◌then◌else◌, inl, inr, insert, lookup, lookup-insert, map, none, not, refl, some, subst,
  text_eq, text_eq_iff, true, ◌↔◌, ◌∷◌, ◌≡◌, ◌≢◌, ◌⊎◌,
}
use csar_notify.Domain.{Notification, Preference, ResolvedPreference, topic_matches, channel_site}
use csar_notify.Dispatch.{
  index_by_channel, explicit_target, explicit_targets, preferred_targets, targets_by_mode,
  targets_for,
}

-- The recipient has switched the channel off: there is a preference for it, and none is enabled.
abbrev pub OptedOut : Text → List Preference → Type 0
OptedOut c prefs =
    Any (λ (p : Preference). p.channel ≡ c) prefs
    × All (λ (p : Preference). p.channel ≡ c → p.enabled ≡ false) prefs

abbrev pub channels_of : List ResolvedPreference → List Text
channels_of = map (λ t. t.channel)

-- `ok && !pref.Enabled`
abbrev is_off : Option Preference → Bool
is_off none = false
is_off (some p) = not p.enabled

-- The last preference for the channel, which is what the map keeps.
abbrev last_preference : Text → Option Preference → List Preference → Option Preference
last_preference c found [] = found
last_preference c found (p ∷ ps) =
    last_preference c (if text_eq p.channel c then some p else found) ps

lookup-index_by_channel :
    (c : Text) (m : Dict Preference) (ps : List Preference)
    → lookup c (index_by_channel m ps) ≡ last_preference c (lookup c m) ps
unfolding index_by_channel
lookup-index_by_channel c m [] = refl
lookup-index_by_channel c m (p ∷ ps) =
    rw (lookup-index_by_channel c (insert p.channel p m) ps, lookup-insert p.channel c p m)

last_preference-is_off :
    (c : Text) (found : Option Preference) (ps : List Preference)
    → (is_off found ≡ true) ⊎ ((found ≡ none) × Any (λ (p : Preference). p.channel ≡ c) ps)
    → All (λ (p : Preference). p.channel ≡ c → p.enabled ≡ false) ps
    → is_off (last_preference c found ps) ≡ true
last_preference-is_off c found [] h a = ground arith
last_preference-is_off c found (p ∷ ps) h a = ground (
  arith,
  a.0,
  text_eq_iff p.channel c,
  last_preference-is_off c (some p) ps,
  last_preference-is_off c found ps,
)

explicit_targets_iff :
    (c : Text) (m : Dict Preference) (cs : List Text)
    → In c (channels_of (explicit_targets m cs)) ↔ (In c cs × (is_off (lookup c m) ≡ false))
unfolding explicit_targets explicit_target
explicit_targets_iff c m [] = ground arith
explicit_targets_iff c m (x ∷ cs) = ground (arith, text_eq_iff x c, explicit_targets_iff c m cs)

preferred_targets_iff :
    (c topic : Text) (ps : List Preference)
    → In c (channels_of (preferred_targets topic ps))
      ↔ Any
          (λ (p : Preference).
            (p.channel ≡ c) × (p.enabled ≡ true) × (topic_matches p.topics topic ≡ true))
          ps
unfolding preferred_targets
preferred_targets_iff c topic [] = ground arith
preferred_targets_iff c topic (p ∷ ps) = ground (arith, preferred_targets_iff c topic ps)

no_target_of_opt_out :
    (c topic : Text) (ps : List Preference)
    → All (λ (p : Preference). p.channel ≡ c → p.enabled ≡ false) ps
    → ¬ Any
        (λ (p : Preference).
          (p.channel ≡ c) × (p.enabled ≡ true) × (topic_matches p.topics topic ≡ true))
        ps
no_target_of_opt_out c topic [] a h = h
no_target_of_opt_out c topic (p ∷ ps) a (inl h) = cc (a.0 h.0, h.1)
no_target_of_opt_out c topic (p ∷ ps) a (inr h) = no_target_of_opt_out c topic ps a.1 h

by_mode-OptedOut :
    (c : Text) (cs : List Text) (prefs : List Preference) (topic : Text)
    → OptedOut c prefs
    → ¬ In c (channels_of (targets_by_mode cs prefs topic))
unfolding targets_by_mode lookup
by_mode-OptedOut c [] [] topic h = λ i. absurd h.0
by_mode-OptedOut c [] (p ∷ ps) topic h =
    λ i. no_target_of_opt_out c topic (p ∷ ps) h.1 ((preferred_targets_iff c topic (p ∷ ps)).0 i)
by_mode-OptedOut c (x ∷ cs) ps topic h = λ i. ground (
  arith,
  (explicit_targets_iff c (index_by_channel [] ps) (x ∷ cs)).0 i,
  lookup-index_by_channel c [] ps,
  last_preference-is_off c none ps (inr (refl, h.0)) h.1,
)

-- A recipient who has switched a channel off is sent nothing on it, whether the notification names
-- its channels or leaves them to the preferences.
pub targets_for-OptedOut :
    (c : Text) (prefs : List Preference) (n : Notification)
    → OptedOut c prefs
    → ¬ In c (channels_of (targets_for prefs n))
unfolding targets_for
targets_for-OptedOut c prefs n h = by_mode-OptedOut c n.channels prefs n.topic h

-- For a notification that names no channel, a recipient with preferences is sent it on exactly the
-- channels with an enabled preference whose filters take the topic, and a recipient without any on
-- the site alone.
pub targets_for_preferences :
    (c : Text) (prefs : List Preference) (n : Notification)
    → n.channels ≡ []
    → (prefs ≢ []
        → In c (channels_of (targets_for prefs n))
          ↔ Any
              (λ (p : Preference).
                (p.channel ≡ c) × (p.enabled ≡ true) × (topic_matches p.topics n.topic ≡ true))
              prefs)
      × (prefs ≡ [] → channels_of (targets_for prefs n) ≡ channel_site ∷ [])
unfolding targets_for targets_by_mode
targets_for_preferences c [] n e = rw e (λ h. absurd (h refl), λ h. refl)
targets_for_preferences c (p ∷ ps) n e =
    rw e (λ h. preferred_targets_iff c n.topic (p ∷ ps), λ h. cc)

abbrev pub channel_of : Preference → Text
channel_of p = p.channel

last_preference_absent :
    (c : Text) (found : Option Preference) (ps : List Preference)
    → ¬ In c (map channel_of ps)
    → last_preference c found ps ≡ found
last_preference_absent c found [] h = refl
last_preference_absent c found (p ∷ ps) h =
    ground (arith, text_eq_iff p.channel c, last_preference_absent c found ps (λ i. h (inr i)))

abbrev pub Disables : Text → Preference → Type 0
Disables c p = (p.channel ≡ c) × (p.enabled ≡ false)

In-of_Disables : (c : Text) (ps : List Preference) → Any (Disables c) ps → In c (map channel_of ps)
In-of_Disables c [] h = h
In-of_Disables c (p ∷ ps) h = ground (arith, In-of_Disables c ps)

last_of_Distinct :
    (c : Text) (ps : List Preference)
    → Distinct (map channel_of ps)
    → (is_off (last_preference c none ps) ≡ true) ↔ Any (Disables c) ps
last_of_Distinct c [] d = ground arith
last_of_Distinct c (p ∷ ps) d = elim (Bool-cases (text_eq p.channel c)) [
  | inl e ↦
      let same : p.channel ≡ c = (text_eq_iff p.channel c).0 e in
      let absent : ¬ In c (map channel_of ps) = subst (λ k. ¬ In k (map channel_of ps)) same d.0 in
      rw (e, last_preference_absent c (some p) ps absent) (ground (arith, In-of_Disables c ps))
  | inr e ↦ rw e (ground (arith, text_eq_iff p.channel c, last_of_Distinct c ps d.1))
]

by_mode_explicit :
    (c x : Text) (cs : List Text) (ps : List Preference) (topic : Text)
    → Distinct (map channel_of ps)
    → In c (channels_of (targets_by_mode (x ∷ cs) ps topic))
      ↔ (In c (x ∷ cs) × ¬ Any (Disables c) ps)
unfolding targets_by_mode lookup
by_mode_explicit c x cs ps topic d = ground (
  arith,
  explicit_targets_iff c (index_by_channel [] ps) (x ∷ cs),
  lookup-index_by_channel c [] ps,
  last_of_Distinct c ps d,
)

by_mode-In :
    (c : Text) (cs : List Text) (ps : List Preference) (topic : Text)
    → cs ≢ []
    → Distinct (map channel_of ps)
    → In c (channels_of (targets_by_mode cs ps topic)) ↔ (In c cs × ¬ Any (Disables c) ps)
by_mode-In c [] ps topic h d = absurd (h refl)
by_mode-In c (x ∷ cs) ps topic h d = by_mode_explicit c x cs ps topic d

-- For a notification that names its channels, a recipient with at most one preference for each
-- channel is sent it on exactly those of them that no disabled preference of theirs is for; a channel
-- without a preference counts as enabled.
pub targets_for_explicit :
    (c : Text) (prefs : List Preference) (n : Notification)
    → n.channels ≢ []
    → Distinct (map channel_of prefs)
    → In c (channels_of (targets_for prefs n)) ↔ (In c n.channels × ¬ Any (Disables c) prefs)
unfolding targets_for
targets_for_explicit c prefs n h d = by_mode-In c n.channels prefs n.topic h d
