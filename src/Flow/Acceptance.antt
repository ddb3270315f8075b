-- ===== src/Flow/Acceptance.antt =====
-- internal/ingest/http.go and internal/consumer/runner.go: what becomes of notifications that ingest
-- accepts, once the broker delivers them.
use csar_notify.Base.{
  Bool, GoError, List, Option, Text, [], ap, append-nil, arith, false, length, map, none, refl,
  some, subst, ℤ, ◌++◌, ◌+◌, ◌∙◌, ◌∷◌, ◌≡◌,
}
use csar_notify.Domain.{Notification, normalize, validate_notification}
use csar_notify.Domain.Validation.{IsValid, validate_notification_iff, validate_notification_idem}
use csar_notify.Rmq.{Delivery}
use csar_notify.Dispatch.{Dispatcher, State, dispatch, persist_and_deliver}
use csar_notify.Consumer.{
  decode_one, is_exhausted, decode_batch, verdict_of, Progress, settle, settle_all, handle_batch,
}

-- Deliveries whose bodies are read back as these notifications, normalized, and which are not at the
-- limit of redeliveries; the notifications are valid once normalized.
abbrev pub Carried :
    (Text → Bool) → (Text → Option Notification) → ℤ → List Notification → List Delivery → Type 0
Carried uuid_valid unmarshal max_redeliver [] [] = Unit
Carried uuid_valid unmarshal max_redeliver [] (d ∷ ds) = ⊥
Carried uuid_valid unmarshal max_redeliver (n ∷ ns) [] = ⊥
Carried uuid_valid unmarshal max_redeliver (n ∷ ns) (d ∷ ds) =
    (IsValid uuid_valid (normalize n)
      × (unmarshal d.body ≡ some (normalize n))
      × (is_exhausted max_redeliver d ≡ false))
    × Carried uuid_valid unmarshal max_redeliver ns ds

validate-normalize :
    (uuid_valid : Text → Bool) (n : Notification)
    → IsValid uuid_valid (normalize n)
    → validate_notification uuid_valid (normalize n) ≡ (none, normalize n)
validate-normalize uuid_valid n v =
    let (checked, same) = validate_notification_iff uuid_valid n in
    let again = validate_notification_idem uuid_valid n in
    subst (λ (m : Notification). validate_notification uuid_valid m ≡ (none, m)) same
      (again
        ∙ ap (λ (e : Option GoError). (e, (validate_notification uuid_valid n).1)) (checked.1 v))

module _ {W : Type 0} (dispatcher : Dispatcher W) where
  -- A notification is persisted and delivered as it is, and its delivery settled by the outcome.
  abbrev pub persist_one : Notification → Delivery → Progress W → Progress W
  persist_one m d p =
      let (e, s) = persist_and_deliver dispatcher m p.state in
      record {
        state = s;
        verdicts = p.verdicts ++ (d, (verdict_of e).0) ∷ [];
        consumer_errors = p.consumer_errors ++ (verdict_of e).1;
        notifications_seen = p.notifications_seen;
      }

  abbrev pub persist_all : List Notification → List Delivery → Progress W → Progress W
  persist_all [] ds p = p
  persist_all (n ∷ ns) [] p = p
  persist_all (n ∷ ns) (d ∷ ds) p = persist_all ns ds (persist_one (normalize n) d p)

  dispatch-normalize :
      (uuid_valid : Text → Bool) (n : Notification) (s : State W)
      → IsValid uuid_valid (normalize n)
      → dispatch dispatcher uuid_valid (normalize n) s
        ≡ persist_and_deliver dispatcher (normalize n) s
  unfolding dispatch
  dispatch-normalize uuid_valid n s v =
      let fine = validate-normalize uuid_valid n v in
      rw (fine, dispatch)
        (ap (λ (r : Option GoError × Notification). persist_and_deliver dispatcher r.1 s) fine)

  settle-persists :
      (uuid_valid : Text → Bool) (n : Notification) (d : Delivery) (p : Progress W)
      → IsValid uuid_valid (normalize n)
      → settle uuid_valid dispatcher (normalize n) d p ≡ persist_one (normalize n) d p
  unfolding settle
  settle-persists uuid_valid n d p v =
      ap
        (λ (r : Option GoError × State W). record p {
          state = r.1;
          verdicts = p.verdicts ++ (d, (verdict_of r.0).0) ∷ [];
          consumer_errors = p.consumer_errors ++ (verdict_of r.0).1;
        })
        (dispatch-normalize uuid_valid n p.state v)

  settle_all-persists :
      (uuid_valid : Text → Bool) (unmarshal : Text → Option Notification) (max_redeliver : ℤ)
      (ns : List Notification) (ds : List Delivery) (p : Progress W)
      → Carried uuid_valid unmarshal max_redeliver ns ds
      → settle_all uuid_valid dispatcher (map normalize ns) ds p ≡ persist_all ns ds p
  unfolding settle_all
  settle_all-persists uuid_valid unmarshal max_redeliver [] [] p c = refl
  settle_all-persists uuid_valid unmarshal max_redeliver [] (d ∷ ds) p c = absurd c
  settle_all-persists uuid_valid unmarshal max_redeliver (n ∷ ns) [] p c = absurd c
  settle_all-persists uuid_valid unmarshal max_redeliver (n ∷ ns) (d ∷ ds) p (here, rest) =
      ap (settle_all uuid_valid dispatcher (map normalize ns) ds)
        (settle-persists uuid_valid n d p here.0)
      ∙ settle_all-persists uuid_valid unmarshal max_redeliver ns ds (persist_one (normalize n) d p)
          rest

length-normalize : (ns : List Notification) → length (map normalize ns) ≡ length ns
length-normalize [] = refl
length-normalize (n ∷ ns) = omega (arith, length-normalize ns)

decode_batch-Carried :
    (uuid_valid : Text → Bool) (unmarshal : Text → Option Notification) (max_redeliver : ℤ)
    (ns : List Notification) (ds : List Delivery)
    → Carried uuid_valid unmarshal max_redeliver ns ds
    → decode_batch unmarshal max_redeliver ds
      ≡ record { notifications = map normalize ns; good = ds; poison = []; labels = [] }
unfolding decode_batch decode_one
decode_batch-Carried uuid_valid unmarshal max_redeliver [] [] c = refl
decode_batch-Carried uuid_valid unmarshal max_redeliver [] (d ∷ ds) c = absurd c
decode_batch-Carried uuid_valid unmarshal max_redeliver (n ∷ ns) [] c = absurd c
decode_batch-Carried uuid_valid unmarshal max_redeliver (n ∷ ns) (d ∷ ds) (here, rest) =
    rw
      (
        here.1,
        here.2,
        decode_batch,
        decode_batch-Carried uuid_valid unmarshal max_redeliver ns ds rest,
      )
      refl

-- A batch of deliveries that carry notifications as ingest submits them, valid and normalized, is
-- processed to the end with nothing dead-lettered and nothing refused by the dispatcher's own
-- validation: each notification is persisted and delivered exactly as it was accepted, in order, and
-- its delivery is settled by the outcome of that. The body of each is read back as it was written,
-- and no delivery is at the limit of redeliveries.
pub handle_batch-persists :
    {W : Type 0} (dispatcher : Dispatcher W) (uuid_valid : Text → Bool)
    (unmarshal : Text → Option Notification) (max_redeliver : ℤ) (ns : List Notification)
    (ds : List Delivery) (p : Progress W)
    → Carried uuid_valid unmarshal max_redeliver ns ds
    → handle_batch uuid_valid dispatcher unmarshal max_redeliver ds p
      ≡ persist_all dispatcher ns ds
          (record p { notifications_seen = p.notifications_seen + length ns })
unfolding handle_batch
handle_batch-persists dispatcher uuid_valid unmarshal max_redeliver ns ds p c =
    rw (decode_batch-Carried uuid_valid unmarshal max_redeliver ns ds c, handle_batch)
      (rw (append-nil p.verdicts, append-nil p.consumer_errors, length-normalize ns)
        (settle_all-persists dispatcher uuid_valid unmarshal max_redeliver ns ds
          (record p { notifications_seen = p.notifications_seen + length ns }) c))
