-- ===== src/Consumer/Redelivery.antt =====
-- Messages that are put back on the queue. The broker is outside: `requeue` is what a delivery looks
-- like when it comes again after Nack(false, true), with the same body and the same headers.
use csar_notify.Base.{
  Bool, In, List, Option, Text, [], append-nil, append_assoc, arith, codes, false, inl, inr, length,
  plain, pos, refl, some, subst, suc, sym, wrapped, zero, ℕ, ℤ, ◌++◌, ◌+◌, ◌∙◌, ◌∷◌, ◌≡◌, ◌≤◌, ◌⊎◌,
}
use csar_notify.Domain.{Notification, channel_web_push, normalize}
use csar_notify.Domain.Validation.{IsValid, validate_not_IsValid}
use csar_notify.Provider.Errors.{is_permanent_channel_only_iff, IsPermanentOn}
use csar_notify.Dispatch.{Dispatcher, State, dispatch}
use csar_notify.Rmq.{Delivery, absent}
use csar_notify.Consumer.{
  Progress, requeued, count_in, death_count, decode_one, is_exhausted, decode_batch,
  should_ack_after_dispatch_error, verdict_of, settle, settle_all, handle_batch, Verdict,
  dead_letter,
}

abbrev pub repeat {ℓ} : {A : Type ℓ} → (A → A) → ℕ → A → A
repeat f zero a = a
repeat f (suc k) a = f (repeat f k a)

module _ (requeue : Delivery → Delivery)
    (keeps_headers : (d : Delivery) → (requeue d).x_death ≡ d.x_death)
    (keeps_body : (d : Delivery) → (requeue d).body ≡ d.body) where
  x_death-repeat : (k : ℕ) (d : Delivery) → (repeat requeue k d).x_death ≡ d.x_death
  x_death-repeat zero d = refl
  x_death-repeat (suc k) d = keeps_headers (repeat requeue k d) ∙ x_death-repeat k d

  body-repeat : (k : ℕ) (d : Delivery) → (repeat requeue k d).body ≡ d.body
  body-repeat zero d = refl
  body-repeat (suc k) d = keeps_body (repeat requeue k d) ∙ body-repeat k d

  -- The cap on redeliveries never stops a message that is only put back on the queue: without an
  -- x-death header it counts at most one death, however often it has come, so a limit of two or more
  -- is never reached.
  pub requeued_not_exhausted :
      (max_redeliver k : ℕ) (d : Delivery)
      → 2 ≤ max_redeliver
      → d.x_death ≡ absent
      → is_exhausted (pos max_redeliver) (repeat requeue k d) ≡ false
  unfolding is_exhausted death_count count_in
  requeued_not_exhausted max_redeliver k d h e = rw (x_death-repeat k d, e) (ground arith)

module _ {W : Type 0} (uuid_valid : Text → Bool) (dispatcher : Dispatcher W) where
  In-append-right :
      (x : Delivery × Verdict) (xs ys : List (Delivery × Verdict)) → In x ys → In x (xs ++ ys)
  In-append-right x [] ys i = i
  In-append-right x (y ∷ xs) ys i = inr (In-append-right x xs ys i)

  verdict_of_wrapped_plain : (t u : Text) → (verdict_of (some (wrapped t (plain u)))).0 ≡ requeued
  unfolding verdict_of should_ack_after_dispatch_error IsPermanentOn
  verdict_of_wrapped_plain t u =
      ground (arith, (is_permanent_channel_only_iff channel_web_push (wrapped t (plain u))).0)

  dispatch_invalid :
      (n : Notification) (s : State W)
      → ¬ IsValid uuid_valid (normalize n)
      → (u : Text) × (dispatch dispatcher uuid_valid n s
          ≡ (some (wrapped (codes "dispatch validate notification") (plain u)), s))
  unfolding dispatch
  dispatch_invalid n s h =
      let (u, e) = validate_not_IsValid uuid_valid n h in (u, ground (arith, e))

  -- The notification and the delivery stand at the same place.
  abbrev Paired : Notification → Delivery → List Notification → List Delivery → Type 0
  Paired n d [] ds = ⊥
  Paired n d (m ∷ ms) [] = ⊥
  Paired n d (m ∷ ms) (e ∷ es) = ((m ≡ n) × (e ≡ d)) ⊎ Paired n d ms es

  decode_batch-Paired :
      (unmarshal : Text → Option Notification) (max_redeliver : ℤ) (d : Delivery) (n : Notification)
      (ds : List Delivery)
      → is_exhausted max_redeliver d ≡ false
      → unmarshal d.body ≡ some n
      → In d ds
      → let r = decode_batch unmarshal max_redeliver ds in Paired n d r.notifications r.good
  unfolding decode_batch decode_one
  decode_batch-Paired unmarshal max_redeliver d n [] h e i = absurd i
  decode_batch-Paired unmarshal max_redeliver d n (x ∷ ds) h e (inl same) =
      rw (same, decode_batch) (rw (h, decode_batch) (rw (e, decode_one) (inl (refl, refl))))
  decode_batch-Paired unmarshal max_redeliver d n (x ∷ ds) h e (inr i) =
      ground (arith, decode_batch-Paired unmarshal max_redeliver d n ds h e i)

  settle-verdicts :
      (n : Notification) (d : Delivery) (p : Progress W)
      → (v : Verdict) × ((settle uuid_valid dispatcher n d p).verdicts ≡ p.verdicts ++ (d, v) ∷ [])
        × (¬ IsValid uuid_valid (normalize n) → v ≡ requeued)
  unfolding settle
  settle-verdicts n d p = (
    (verdict_of (dispatch dispatcher uuid_valid n p.state).0).0,
    refl,
    λ h.
        let (u, e) = dispatch_invalid n p.state h in
        rw e (verdict_of_wrapped_plain (codes "dispatch validate notification") u),
  )

  -- The loop adds verdicts, and a notification that is not valid is put back.
  settle_all-requeued :
      (n : Notification) (d : Delivery) (ns : List Notification) (ds : List Delivery)
      (p : Progress W)
      → ¬ IsValid uuid_valid (normalize n)
      → (new : List (Delivery × Verdict)) × ((settle_all uuid_valid dispatcher ns ds p).verdicts
          ≡ p.verdicts ++ new)
        × (Paired n d ns ds → In (d, requeued) new)
  unfolding settle_all settle settle-verdicts verdict_of
  settle_all-requeued n d [] ds p h = ([], sym (append-nil p.verdicts), λ x. absurd x)
  settle_all-requeued n d (m ∷ ns) [] p h = ([], sym (append-nil p.verdicts), λ x. absurd x)
  settle_all-requeued n d (m ∷ ns) (e ∷ ds) p h =
      let (v, one, invalid) = settle-verdicts m e p in
      let (new, rest, later) =
        settle_all-requeued n d ns ds (settle uuid_valid dispatcher m e p) h in
      (
        (e, v) ∷ new,
        rest ∙ rw one (append_assoc p.verdicts ((e, v) ∷ []) new),
        λ x. elim x [
          | inl (a, b) ↦ inl (
              rw
                (
                  b,
                  invalid
                      (subst (λ (t : Notification). ¬ IsValid uuid_valid (normalize t)) (sym a) h),
                )
                refl)
          | inr y ↦ inr (later y)
        ],
      )

  -- A message that decodes to a notification which is not valid comes back for ever: at every
  -- redelivery, in whatever batch it comes, it is put back on the queue again, with the limit on
  -- redeliveries at two or more and no x-death header.
  pub invalid_requeued_forever :
      (requeue : Delivery → Delivery)
      → ((d : Delivery) → (requeue d).x_death ≡ d.x_death)
      → ((d : Delivery) → (requeue d).body ≡ d.body)
      → (unmarshal : Text → Option Notification) (max_redeliver k : ℕ) (d : Delivery)
        (n : Notification) (batch : List Delivery) (p : Progress W)
      → 2 ≤ max_redeliver
      → d.x_death ≡ absent
      → unmarshal d.body ≡ some n
      → ¬ IsValid uuid_valid (normalize n)
      → In (repeat requeue k d) batch
      → (new : List (Delivery × Verdict)) × ((handle_batch uuid_valid dispatcher unmarshal
            (pos max_redeliver)
            batch
            p).verdicts
          ≡ p.verdicts ++ new)
        × In (repeat requeue k d, requeued) new
  unfolding handle_batch
  invalid_requeued_forever requeue headers body unmarshal max_redeliver k d n batch p m a u h i =
      let again = repeat requeue k d in
      let room = requeued_not_exhausted requeue headers body max_redeliver k d m a in
      let same : unmarshal again.body ≡ some n = rw (body-repeat requeue headers body k d) u in
      let r = decode_batch unmarshal (pos max_redeliver) batch in
      let (new, all, found) =
        settle_all-requeued n again r.notifications r.good
          (record p {
            verdicts = p.verdicts ++ dead_letter r.poison;
            consumer_errors = p.consumer_errors ++ r.labels;
            notifications_seen = p.notifications_seen + length r.notifications;
          })
          h in
      (
        dead_letter r.poison ++ new,
        all ∙ append_assoc p.verdicts (dead_letter r.poison) new,
        In-append-right (again, requeued) (dead_letter r.poison) new
            (found (decode_batch-Paired unmarshal (pos max_redeliver) again n batch room same i)),
      )
