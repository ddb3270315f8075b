-- ===== src/Dispatch/Trace.antt =====
-- internal/dispatch/dispatcher.go: a dispatch as a run, that is, which sends were made in which state
-- and with which failures, as a relation beside the loops of `Dispatch`.
use csar_notify.Base.{
  Bool, GoError, List, Option, Option-cases, Result-cases, Text, [], arith, codes, err, errors_join,
  inl, inr, join_all, join_all-append, join_failure, none, ok, refl, some, wrapped, ◌++◌, ◌∙◌, ◌∷◌,
  ◌≡◌,
}
use csar_notify.Domain.{Notification, ResolvedPreference}
use csar_notify.Domain.Validation.{IsValid, validate_notification_iff}
use csar_notify.Domain.{normalize}
use csar_notify.Provider.{Provider}
use csar_notify.Provider.Registry.{get}
use csar_notify.Dispatch.{
  Dispatcher, State, resolve_channels, attempt, send_targets, send_recipients, dispatch,
  persist_and_deliver, deliver, resolve_recipients,
}

module _ {W : Type 0} (d : Dispatcher W) (n : Notification) where
  -- The sends to one recipient, in order. A channel without a provider is passed over.
  pub data Sends (recipient : Text)
      : List ResolvedPreference → State W → List GoError → State W → Type 0 where
    done : (s : State W) → Sends recipient [] s [] s
    missing :
        (t : ResolvedPreference) {ts : List ResolvedPreference} {s s' : State W} {fs : List GoError}
        → get d.providers t.channel ≡ none
        → Sends recipient ts s fs s'
        → Sends recipient (t ∷ ts) s fs s'
    sent :
        (t : ResolvedPreference) {ts : List ResolvedPreference} (p : Provider W) (s s' t' : State W)
        {fs : List GoError}
        → get d.providers t.channel ≡ some p
        → attempt d n recipient t p s ≡ (none, s')
        → Sends recipient ts s' fs t'
        → Sends recipient (t ∷ ts) s fs t'
    failed :
        (t : ResolvedPreference) {ts : List ResolvedPreference} (p : Provider W) (s s' t' : State W)
        (e : GoError) {fs : List GoError}
        → get d.providers t.channel ≡ some p
        → attempt d n recipient t p s ≡ (some e, s')
        → Sends recipient ts s' fs t'
        → Sends recipient (t ∷ ts) s (e ∷ fs) t'

  -- The recipients in order. One whose channels cannot be resolved counts as one failure.
  pub data Deliveries : List Text → State W → List GoError → State W → Type 0 where
    all_done : (s : State W) → Deliveries [] s [] s
    unresolved :
        (r : Text) {rs : List Text} (s s' t : State W) (e : GoError) {fs : List GoError}
        → resolve_channels d r n s ≡ (err e, s')
        → Deliveries rs s' fs t
        → Deliveries (r ∷ rs) s (wrapped (codes "resolve channels for " ++ r) e ∷ fs) t
    resolved :
        (r : Text) {rs : List Text} (s s' s'' t : State W) (ts : List ResolvedPreference)
        {fs gs : List GoError}
        → resolve_channels d r n s ≡ (ok ts, s')
        → Sends r ts s' fs s''
        → Deliveries rs s'' gs t
        → Deliveries (r ∷ rs) s (fs ++ gs) t

  send_targets_run :
      (r : Text) (ts : List ResolvedPreference) (acc : Option GoError) (s : State W)
      → (fs : List GoError) × (s' : State W) × Sends r ts s fs s'
        × (send_targets d n r ts acc s ≡ (join_all acc fs, s'))
  unfolding send_targets join_failure
  send_targets_run r [] acc s = ([], s, done s, refl)
  send_targets_run r (t ∷ ts) acc s = elim (Option-cases (get d.providers t.channel)) [
    | inl e ↦
        let (fs, s', run, same) = send_targets_run r ts acc s in
        (fs, s', missing t e run, rw (e, send_targets) same)
    | inr (p, e) ↦
        let after = (attempt d n r t p s).1 in
        elim (Option-cases (attempt d n r t p s).0) [
          | inl fine ↦
              let (fs, s', run, same) = send_targets_run r ts acc after in
              (
                fs,
                s',
                sent t p s after s' e (λ i. (fine i, after)) run,
                rw (e, send_targets) (rw fine same),
              )
          | inr (f, bad) ↦
              let (fs, s', run, same) = send_targets_run r ts (errors_join acc (some f)) after in
              (
                f ∷ fs,
                s',
                failed t p s after s' f e (λ i. (bad i, after)) run,
                rw (e, send_targets) (rw bad same),
              )
        ]
  ]

  send_recipients_run :
      (rs : List Text) (acc : Option GoError) (s : State W)
      → (fs : List GoError) × (s' : State W) × Deliveries rs s fs s'
        × (send_recipients d n rs acc s ≡ (join_all acc fs, s'))
  unfolding send_recipients join_failure
  send_recipients_run [] acc s = ([], s, all_done s, refl)
  send_recipients_run (r ∷ rs) acc s =
      let after = (resolve_channels d r n s).1 in
      elim (Result-cases (resolve_channels d r n s).0) [
        | inl (e, bad) ↦
            let failure = wrapped (codes "resolve channels for " ++ r) e in
            let (fs, s', run, same) =
              send_recipients_run rs (errors_join acc (some failure)) after in
            (
              failure ∷ fs,
              s',
              unresolved r s after s' e (λ i. (bad i, after)) run,
              rw (bad, send_recipients) same,
            )
        | inr (ts, good) ↦
            let (fs, mid, sends, same) = send_targets_run r ts acc after in
            let (gs, s', run, same') = send_recipients_run rs (join_all acc fs) mid in
            (
              fs ++ gs,
              s',
              resolved r s after mid s' ts (λ i. (good i, after)) sends run,
              rw (good, send_recipients) (rw (same, ← join_all-append acc fs gs) same'),
            )
      ]

module _ {W : Type 0} (d : Dispatcher W) where
  deliver_of_recipients :
      (n : Notification) (s s' : State W) (rs : List Text)
      → resolve_recipients d n s ≡ (ok rs, s')
      → deliver d n s ≡ send_recipients d n rs none s'
  unfolding deliver
  deliver_of_recipients n s s' rs e = ground (arith, e)

  persist_of_stored :
      (n stored : Notification) (s : State W) (w : W)
      → d.store.upsert_notification n s.world ≡ (ok stored, w)
      → persist_and_deliver d n s ≡ deliver d stored (record s { world = w })
  unfolding persist_and_deliver
  persist_of_stored n stored s w e = ground (arith, e)

  dispatch_of_IsValid :
      (uuid_valid : Text → Bool) (n : Notification) (s : State W)
      → IsValid uuid_valid (normalize n)
      → dispatch d uuid_valid n s ≡ persist_and_deliver d (normalize n) s
  unfolding dispatch
  dispatch_of_IsValid uuid_valid n s valid =
      let (checked, normal) = validate_notification_iff uuid_valid n in
      ground (arith, checked.1 valid, normal)

-- What `Dispatch` returns when the notification is valid, is persisted and has its recipients read:
-- it goes through all recipients and all their channels whatever fails on the way, the state is the
-- one that these sends lead to, and the error joins their failures, in order.
pub dispatch_run :
    {W : Type 0} (d : Dispatcher W) (uuid_valid : Text → Bool) (n stored : Notification)
    (s s' : State W) (w : W) (rs : List Text)
    → IsValid uuid_valid (normalize n)
    → d.store.upsert_notification (normalize n) s.world ≡ (ok stored, w)
    → resolve_recipients d stored (record s { world = w }) ≡ (ok rs, s')
    → (fs : List GoError) × (t : State W) × Deliveries d stored rs s' fs t
      × (dispatch d uuid_valid n s ≡ (join_all none fs, t))
dispatch_run d uuid_valid n stored s s' w rs valid up rec =
    let (fs, t, run, same) = send_recipients_run d stored rs none s' in
    (
      fs,
      t,
      run,
      dispatch_of_IsValid d uuid_valid n s valid
          ∙ persist_of_stored d (normalize n) stored s w up
          ∙ deliver_of_recipients d stored (record s { world = w }) s' rs rec
          ∙ same,
    )
