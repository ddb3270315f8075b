-- ===== src/Consumer/Verdicts.antt =====
-- internal/consumer/runner.go: the verdicts on the deliveries of a batch.
use csar_notify.Base.{
  All, Bool, GoError, List, Option, Text, [], ap, append-nil, append_assoc, arith, inl, join_all,
  length, map, none, ok, refl, some, sym, true, ℤ, ◌++◌, ◌+◌, ◌↔◌, ◌∙◌, ◌∷◌, ◌≡◌, ◌⊎◌,
}
use mathlib.Core.List.Perm
use mathlib.Core.List.{Perm, perm_middle}
use csar_notify.Domain.{Notification, channel_web_push}
use csar_notify.Dispatch.{Dispatcher, State}
use csar_notify.Domain.{normalize}
use csar_notify.Domain.Validation.{IsValid}
use csar_notify.Provider.Errors.{IsPermanentOn, is_permanent_channel_only}
use csar_notify.Provider.Joins.{join_all_permanent_iff, join_all-none_iff}
use csar_notify.Dispatch.{resolve_recipients}
use csar_notify.Dispatch.Trace.{Deliveries, dispatch_run}
use mathlib.Core.List.{map-append}
use csar_notify.Rmq.{Delivery}
use csar_notify.Consumer.{
  Progress, Verdict, acked, requeued, decode_one, decode_batch, should_ack_after_dispatch_error,
  verdict_of, dead_letter, settle, settle_all, handle_batch,
}

module _ (unmarshal : Text → Option Notification) (max_redeliver : ℤ) where
  decode_batch-perm :
      (ds : List Delivery)
      → let r = decode_batch unmarshal max_redeliver ds in Perm (r.poison ++ r.good) ds
  unfolding decode_batch decode_one
  decode_batch-perm [] = Perm.refl []
  decode_batch-perm (d ∷ ds) =
      let r = decode_batch unmarshal max_redeliver ds in
      let rest = Perm.cons d (decode_batch-perm ds) in
      ground (arith, rest, Perm.trans (perm_middle r.poison r.good) rest)

  decode_batch-length :
      (ds : List Delivery)
      → let r = decode_batch unmarshal max_redeliver ds in length r.notifications ≡ length r.good
  unfolding decode_batch decode_one
  decode_batch-length [] = refl
  decode_batch-length (d ∷ ds) = ground (arith, decode_batch-length ds)

verdict_of-acked :
    (o : Option GoError)
    → ((verdict_of o).0 ≡ acked)
      ↔ ((o ≡ none) ⊎ (is_permanent_channel_only o channel_web_push ≡ true))
unfolding verdict_of should_ack_after_dispatch_error
verdict_of-acked none = ground arith
verdict_of-acked (some e) = ground arith

verdict_of_join :
    (fs : List GoError)
    → ((verdict_of (join_all none fs)).0 ≡ acked) ↔ All (IsPermanentOn channel_web_push) fs
unfolding verdict_of
verdict_of_join [] = (λ h. tt, λ h. refl)
verdict_of_join (f ∷ fs) = ground (
  arith,
  verdict_of-acked (join_all none (f ∷ fs)),
  join_all-none_iff (f ∷ fs),
  join_all_permanent_iff channel_web_push (f ∷ fs),
)

verdict_of_cases : (o : Option GoError) → ((verdict_of o).0 ≡ acked) ⊎ ((verdict_of o).0 ≡ requeued)
unfolding verdict_of
verdict_of_cases none = inl refl
verdict_of_cases (some e) = ground arith

abbrev pub deliveries_of : List (Delivery × Verdict) → List Delivery
deliveries_of = map (λ v. v.0)

module _ {W : Type 0} (uuid_valid : Text → Bool) (dispatcher : Dispatcher W) where
  settle_all-deliveries :
      (ns : List Notification) (ds : List Delivery) (p : Progress W)
      → length ns ≡ length ds
      → deliveries_of (settle_all uuid_valid dispatcher ns ds p).verdicts
        ≡ deliveries_of p.verdicts ++ ds
  unfolding settle_all settle
  settle_all-deliveries [] [] p h = sym (append-nil (deliveries_of p.verdicts))
  settle_all-deliveries [] (d ∷ ds) p h = absurd (omega arith)
  settle_all-deliveries (n ∷ ns) [] p h = absurd (omega arith)
  settle_all-deliveries (n ∷ ns) (d ∷ ds) p h =
      settle_all-deliveries ns ds (settle uuid_valid dispatcher n d p) (omega arith)
      ∙ rw (map-append, append_assoc)

  deliveries-dead_letter : (ds : List Delivery) → deliveries_of (dead_letter ds) ≡ ds
  deliveries-dead_letter [] = refl
  deliveries-dead_letter (d ∷ ds) = ap (◌∷◌ d) (deliveries-dead_letter ds)

  -- A batch adds exactly one verdict for each of its deliveries to those given before: none is left
  -- unsettled and none is settled twice.
  pub handle_batch_verdicts :
      (unmarshal : Text → Option Notification) (max_redeliver : ℤ) (ds : List Delivery)
      (p : Progress W)
      → Perm
          (deliveries_of (handle_batch uuid_valid dispatcher unmarshal max_redeliver ds p).verdicts)
          (deliveries_of p.verdicts ++ ds)
  unfolding handle_batch
  handle_batch_verdicts unmarshal max_redeliver ds p =
      let r = decode_batch unmarshal max_redeliver ds in
      rw
        (settle_all-deliveries r.notifications r.good
          (record p {
            verdicts = p.verdicts ++ dead_letter r.poison;
            consumer_errors = p.consumer_errors ++ r.labels;
            notifications_seen = p.notifications_seen + length r.notifications;
          })
          (decode_batch-length unmarshal max_redeliver ds))
        (rw (map-append, deliveries-dead_letter r.poison, append_assoc)
          (Perm.append (Perm.refl (deliveries_of p.verdicts))
            (decode_batch-perm unmarshal max_redeliver ds)))

  -- A valid notification that is persisted and has its recipients read is acknowledged exactly if
  -- every failure of its run is permanent and of web push, which covers a run without failures, and
  -- is put back on the queue otherwise.
  pub settle_verdict :
      (n stored : Notification) (delivery : Delivery) (p : Progress W) (s' : State W) (w : W)
      (rs : List Text)
      → IsValid uuid_valid (normalize n)
      → dispatcher.store.upsert_notification (normalize n) p.state.world ≡ (ok stored, w)
      → resolve_recipients dispatcher stored (record p.state { world = w }) ≡ (ok rs, s')
      → (fs : List GoError) × (v : Verdict) × Deliveries dispatcher stored rs s' fs
          (settle uuid_valid dispatcher n delivery p).state
        × ((settle uuid_valid dispatcher n delivery p).verdicts ≡ p.verdicts ++ (delivery, v) ∷ [])
        × ((v ≡ acked) ↔ All (IsPermanentOn channel_web_push) fs)
        × ((v ≡ acked) ⊎ (v ≡ requeued))
  unfolding settle
  settle_verdict n stored delivery p s' w rs valid up rec =
      let (fs, t, run, same) =
        dispatch_run dispatcher uuid_valid n stored p.state s' w rs valid up rec in
      (
        fs,
        (verdict_of (join_all none fs)).0,
        rw same run,
        rw same refl,
        verdict_of_join fs,
        verdict_of_cases (join_all none fs),
      )
