-- ===== src/Tests/Broker.antt =====
-- Ingest, the buffer, batches and verdicts.
use mathlib.Core.List.{Perm}
use csar_notify.Base.{
  All, GoError, In, List, Option, Text, [], arith, codes, false, inl, inr, length, none, ok, plain,
  pos, refl, some, suc, take, text_eq, trim_space, true, zero, ℕ, ◌++◌, ◌+◌, ◌<◌, ◌↔◌, ◌∷◌, ◌≡◌,
  ◌≢◌, ◌≤◌, ◌⊎◌,
}
use csar_notify.Domain.{Notification, normalize, channel_web_push}
use csar_notify.Domain.Validation.{IsValid}
use csar_notify.Provider.Errors.{IsPermanentOn}
use csar_notify.Dispatch.{resolve_recipients}
use csar_notify.Dispatch.Trace.{Deliveries}
use csar_notify.Rmq.{Delivery}
use csar_notify.Rmq.Batch.{Event, arrived, timer_fired, arrivals, collect_batch_prefix}
use csar_notify.Consumer.{Verdict, acked, requeued, is_exhausted, settle, handle_batch}
use csar_notify.Consumer.Verdicts.{deliveries_of, handle_batch_verdicts, settle_verdict}
use csar_notify.Consumer.Redelivery.{repeat, requeued_not_exhausted, invalid_requeued_forever}
use csar_notify.Consumer.Sessions.{Ended, run, delays, run-delays}
use csar_notify.Pipeline.{Buffer, Ending, published, new_buffer, worker_count, publish_with_retry}
use csar_notify.Pipeline.Steps.{
  System, start, submits, takes, finishes, Reach, here, next, Inv, Reach-Inv,
}
use csar_notify.Ingest.{Ingest, invalid, unavailable, accepted, serve_http}
use csar_notify.Ingest.Batches.{
  normalized, room, filled, invalid_batch_unchanged, valid_batch_submitted,
}
use csar_notify.Tests.Data.{
  ann, bob, known, order, untitled, service, quiet, message, unreadable, decode_to, idle,
}
use csar_notify.Tests.Sends.{order-IsValid}

abbrev no_context : GoError
no_context = plain (codes "context canceled")

abbrev no_error : Option GoError
no_error = none

abbrev events : List Event
events = arrived message ∷ arrived unreadable ∷ timer_fired ∷ []

collect_batch_prefix_example :
    (rest : List Delivery) × (arrivals events ≡ (message ∷ unreadable ∷ []) ++ rest)
    × (length (message ∷ unreadable ∷ []) ≤ 5)
    × (no_error ≡ none → (message ∷ unreadable ∷ []) ≢ [])
unfolding csar_notify.Rmq.Batch.collect_batch csar_notify.Rmq.Batch.collect_first
    csar_notify.Rmq.Batch.fill
collect_batch_prefix_example =
    collect_batch_prefix no_context 5 (pos 2) events (message ∷ unreadable ∷ []) no_error refl

handle_batch_verdicts_example :
    Perm
      (deliveries_of
        (handle_batch known service
          (decode_to order)
          (pos 3)
          (unreadable ∷ message ∷ [])
          idle).verdicts)
      ([] ++ (unreadable ∷ message ∷ []))
handle_batch_verdicts_example =
    handle_batch_verdicts known service (decode_to order) (pos 3) (unreadable ∷ message ∷ []) idle

settle_verdict_example :
    (fs : List GoError) × (v : Verdict) × Deliveries service
      (normalize order)
      (ann ∷ bob ∷ [])
      quiet
      fs
      (settle known service order message idle).state
    × ((settle known service order message idle).verdicts ≡ [] ++ (message, v) ∷ [])
    × ((v ≡ acked) ↔ All (IsPermanentOn channel_web_push) fs)
    × ((v ≡ acked) ⊎ (v ≡ requeued))
unfolding resolve_recipients normalize csar_notify.Domain.unique_strings
    csar_notify.Domain.unique_loop csar_notify.Base.trim_space csar_notify.Domain.is_seen
    csar_notify.Base.text_eq
settle_verdict_example =
    settle_verdict known service order (normalize order) message idle quiet 0 (ann ∷ bob ∷ [])
      order-IsValid refl refl

-- The broker marks a message that comes again.
abbrev mark : Delivery → Delivery
mark d = record d { redelivered = true }

requeued_not_exhausted_example : is_exhausted (pos 3) (repeat mark 10 message) ≡ false
requeued_not_exhausted_example =
    requeued_not_exhausted mark (λ d. refl) (λ d. refl) 3 10 message (omega arith) refl

untitled_invalid : ¬ IsValid known (normalize untitled)
unfolding normalize csar_notify.Base.trim_space
untitled_invalid v = v.has_title refl

invalid_requeued_forever_example :
    (new : List (Delivery × Verdict)) × ((handle_batch known service
        (decode_to untitled)
        (pos 3)
        (unreadable ∷ repeat mark 10 message ∷ [])
        idle).verdicts
      ≡ [] ++ new)
    × In (repeat mark 10 message, requeued) new
invalid_requeued_forever_example =
    invalid_requeued_forever known service mark (λ d. refl) (λ d. refl) (decode_to untitled) 3 10
      message untitled (unreadable ∷ repeat mark 10 message ∷ []) idle (omega arith) refl refl
      untitled_invalid (inr (inl refl))

abbrev lost : Ended
lost = record { result = some no_context; cancelled = false; cancelled_waiting = false }

run-delays_example : run (lost ∷ lost ∷ []) ≡ delays 0 (length (lost ∷ lost ∷ []))
run-delays_example =
    run-delays (lost ∷ lost ∷ []) (((λ e. cc e), refl, refl), (((λ e. cc e), refl, refl), tt))

abbrev encode : Notification → Option Text
encode n = some n.title

-- The second attempt succeeds.
abbrev second_time : ℕ → Text → Option GoError
second_time zero body = some no_context
second_time (suc k) body = none

-- A notification is submitted, taken and published.
abbrev submitted : System
submitted = record (start (pos 2) (pos 1)) {
  buffer = filled (new_buffer (pos 2)) (order ∷ []);
  accepted = order ∷ [];
}

abbrev taken : System
taken = record submitted { buffer = new_buffer (pos 2); idle = 0; busy = order ∷ [] }

abbrev finished : System
finished = record taken {
  buffer = record (new_buffer (pos 2)) { events_published = 1 };
  idle = 1;
  busy = [];
  settled = (order, published) ∷ [];
}

finished_reached : Reach encode (start (pos 2) (pos 1)) finished
unfolding csar_notify.Pipeline.submit new_buffer worker_count csar_notify.Pipeline.count_ending
    publish_with_retry csar_notify.Pipeline.attempt_loop
finished_reached =
    next
      (next (next here (submits order none (filled (new_buffer (pos 2)) (order ∷ [])) refl refl))
        (takes order [] 0 refl refl refl))
      (finishes order [] [] second_time refl refl)

Reach-Inv_example : Inv (worker_count (pos 1)) finished
Reach-Inv_example = Reach-Inv encode (pos 2) (pos 1) finished_reached

abbrev small : Ingest
small = record { buffer = new_buffer (pos 1); ingest_total = 0 }

invalid_batch_unchanged_example :
    (e : GoError) × (serve_http known (ok (some order ∷ some untitled ∷ [])) small
      ≡ (invalid e, small))
invalid_batch_unchanged_example =
    invalid_batch_unchanged known (some order ∷ some untitled ∷ []) small
      (λ a. untitled_invalid a.1.0)

abbrev pair : List (Option Notification)
pair = some order ∷ some order ∷ []

valid_batch_submitted_example :
    (length pair ≤ room small.buffer
      → serve_http known (ok pair) small ≡ (
        accepted (length pair),
        record {
          buffer = filled small.buffer (normalized pair);
          ingest_total = small.ingest_total + length pair;
        },
      ))
    × (room small.buffer < length pair
        → serve_http known (ok pair) small ≡ (
          unavailable (room small.buffer) (length pair),
          record small {
            buffer = record small.buffer {
              ch = small.buffer.ch ++ take (room small.buffer) (normalized pair);
              events_dropped = small.buffer.events_dropped ++ codes "buffer_full" ∷ [];
            };
          },
        ))
unfolding new_buffer
valid_batch_submitted_example =
    valid_batch_submitted known (some order) (some order ∷ []) small
      (order-IsValid, (order-IsValid, tt)) refl
