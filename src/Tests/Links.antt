-- ===== src/Tests/Links.antt =====
-- The links to the broker and to the push services.
use csar_notify.Base.{
  GoError, In, Option, Text, [], arith, codes, false, if◌then◌else◌, none, ok, plain, pos, refl,
  some, true, ℕ, ◌+◌, ◌<◌, ◌==◌, ◌↔◌, ◌∷◌, ◌≡◌, ◌≢◌, ◌≤◌, ◌⊎◌,
}
use mathlib.Core.List.{Perm}
use csar_notify.Domain.{Notification}
use csar_notify.Pipeline.{new_buffer, published, publish_with_retry}
use csar_notify.Pipeline.Retry.{copies}
use csar_notify.Pipeline.Steps.{
  notes, takes, System, start, Step, submits, Reach, here, next, closes,
}
use csar_notify.Pipeline.Drain.{IsWork, work_left, close_drains}
use csar_notify.Ingest.Batches.{filled}
use csar_notify.Rmq.Connection.{
  Manager, watching, new_connection_manager, connect, open_channel, on_lost, rounds,
}
use csar_notify.Rmq.Connection.Waits.{waits, dials, reconnect_waits}
use csar_notify.Rmq.Connection.Lifetime
use csar_notify.Rmq.Connection.Lifetime.{connects, close_leaves_none}
use csar_notify.Rmq.Channels.{
  PublishAnswers, SessionAnswers, QueueConfig, confirm_mode, publish, close_channel, confirmation,
  publish_raw, open_consumer_session, declare_dlq, queue_declare, qos, consume, effective_prefetch,
}
use csar_notify.Rmq.Channels.Calls.{Acked, LeavesNone, channels_closed}
use csar_notify.Flow.Publication.{published-Acked}
use csar_notify.Vapid.{Crypto, Client, PrivateKey}
use csar_notify.Vapid.Cache
use csar_notify.Tests.Data.{order}

abbrev connected_manager : Manager
connected_manager = (connect none none (new_connection_manager (pos 0))).1

abbrev lost : GoError
lost = plain (codes "connection refused")

reconnect_waits_example :
    ((rounds (some lost ∷ some lost ∷ none ∷ []) (on_lost connected_manager)).0
      ≡ waits 5000 0 (dials (some lost ∷ some lost ∷ none ∷ [])))
    × (In none (some lost ∷ some lost ∷ none ∷ [])
        → (rounds (some lost ∷ some lost ∷ none ∷ []) (on_lost connected_manager)).1.loop
          ≡ watching)
unfolding connect csar_notify.Rmq.Connection.connected csar_notify.Rmq.Connection.dial
    csar_notify.Rmq.Connection.dialled new_connection_manager
reconnect_waits_example =
    reconnect_waits 5000 (some lost ∷ some lost ∷ none ∷ []) connected_manager (omega arith) refl

close_leaves_none_example :
    ((c : ℕ) → connected_manager.alive c ≡ true → connected_manager.conn ≡ some c)
    × (connected_manager.closed ≡ true
        → ((c : ℕ) → connected_manager.alive c ≡ false)
          × ((m' : Manager) → Lifetime.Step connected_manager m' → (c : ℕ) → m'.alive c ≡ false))
unfolding new_connection_manager
close_leaves_none_example =
    close_leaves_none (pos 0) (Lifetime.next Lifetime.here (connects none none refl refl))

abbrev good_answers : PublishAnswers
good_answers = record {
  channel = none;
  confirm = none;
  published = none;
  outcome = confirmation true;
}

abbrev nacked : PublishAnswers
nacked = record good_answers { outcome = confirmation false }

abbrev answers : ℕ → PublishAnswers
answers k = if k == 0 then nacked else good_answers

abbrev body_of : Notification → Option Text
body_of n = some n.title

published-Acked_example :
    let r =
      publish_with_retry body_of order
        (λ k b. (publish_raw connected_manager (answers k) (codes "q") b).0) in
    (r.sent ≡ copies r.attempts order.title)
    × ((r.ending ≡ published) ↔ (
        (k : ℕ) × (k < 4)
        × Acked connected_manager (answers k)
        × ((publish_raw connected_manager (answers k) (codes "q") order.title).1
            ≡ confirm_mode ∷ publish (codes "q") order.title ∷ close_channel ∷ [])))
published-Acked_example =
    published-Acked body_of order (codes "q") order.title (λ k. connected_manager) answers refl

abbrev session_answers : SessionAnswers
session_answers = record { channel = none; declared = none; qos_set = some lost; consumed = none }

abbrev queue : QueueConfig
queue = record { name = codes "q"; durable = true; prefetch = pos 0 }

channels_closed_example :
    LeavesNone
      (open_channel none connected_manager)
      (publish_raw connected_manager nacked (codes "q") (codes "b")).1
    × LeavesNone
        (open_channel none connected_manager)
        (declare_dlq connected_manager none (some lost) (codes "q") true).1
    × ((open_consumer_session connected_manager session_answers queue).0 ≢ none
        → LeavesNone
            (open_channel none connected_manager)
            (open_consumer_session connected_manager session_answers queue).1)
    × ((open_consumer_session connected_manager session_answers queue).0 ≡ none
        → ((open_consumer_session connected_manager session_answers queue).1
            ≡ queue_declare (codes "q") true
              ∷ qos (effective_prefetch (pos 0))
              ∷ consume (codes "q")
              ∷ [])
          × (1 ≤ effective_prefetch (pos 0)))
channels_closed_example =
    channels_closed connected_manager nacked session_answers (some lost) (codes "q") (codes "b")
      true queue

abbrev closing : System
closing = record (start (pos 2) (pos 1)) {
  buffer = record (filled (new_buffer (pos 2)) (order ∷ [])) { is_closed = true };
  accepted = order ∷ [];
}

closing_reached : Reach body_of (start (pos 2) (pos 1)) closing
unfolding csar_notify.Pipeline.submit new_buffer
closing_reached =
    next (next here (submits order none (filled (new_buffer (pos 2)) (order ∷ [])) refl refl))
      (closes refl)

abbrev working : System
working = record closing {
  buffer = record (new_buffer (pos 2)) { is_closed = true };
  idle = 0;
  busy = order ∷ [];
}

close_drains_example :
    (work_left working + 1 ≡ work_left closing)
    × (((working.buffer.ch ≡ [])
          × (working.busy ≡ [])
          × Perm working.accepted (notes working.settled))
        ⊎ ((u : System) × (st : Step body_of working u) × IsWork body_of st))
    × ((u : System) (st : Step body_of working u) → IsWork body_of st ⊎ (u ≡ working))
unfolding new_buffer csar_notify.Pipeline.worker_count
close_drains_example =
    close_drains body_of (pos 2) (pos 1) closing working 1 closing_reached refl
      (working, takes order [] 0 refl refl refl, tt, refl)

abbrev toy_key : Text
toy_key =
    4 ∷ 1 ∷ 1 ∷ 1 ∷ 1 ∷ 1 ∷ 1 ∷ 1 ∷ 1 ∷ 1 ∷ 1 ∷ 1 ∷ 1 ∷ 1 ∷ 1 ∷ 1 ∷ 1 ∷ 1 ∷ 1 ∷ 1 ∷ 1 ∷ 1 ∷ 1 ∷ 1
    ∷ 1 ∷ 1 ∷ 1 ∷ 1 ∷ 1 ∷ 1 ∷ 1 ∷ 1 ∷ 1 ∷ 1 ∷ 1 ∷ 1 ∷ 1 ∷ 1 ∷ 1 ∷ 1 ∷ 1 ∷ 1 ∷ 1 ∷ 1 ∷ 1 ∷ 1 ∷ 1 ∷ 1
    ∷ 1 ∷ 1 ∷ 1 ∷ 1 ∷ 1 ∷ 1 ∷ 1 ∷ 1 ∷ 1 ∷ 1 ∷ 1 ∷ 1 ∷ 1 ∷ 1 ∷ 1 ∷ 1 ∷ 1 ∷ []

abbrev toy_crypto : Crypto
toy_crypto = record {
  parse_url = λ url. ok (record { scheme = codes "https"; host = url });
  raw_url_decode = λ key. ok key;
  url_decode = λ key. ok key;
  raw_url_encode = λ key. key;
  public_key_of = λ key. ok toy_key;
  sign = λ claims key. ok claims.aud;
}

abbrev client : Client
client = record { subscriber = codes "ops"; public_key = codes "p"; private_key = codes "s" }
