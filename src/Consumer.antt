-- ===== src/Consumer.antt =====
-- internal/consumer/runner.go. `json.Unmarshal` of a body into a notification is the parameter
-- `unmarshal`, `none` where it returns an error. Logging and the histograms are left out; the
-- errors of Ack and Nack are only logged or dropped, so a verdict is what the program asks for.
pub mod Verdicts
pub mod Redelivery
pub mod Sessions
use csar_notify.Base.{
  Bool, GoError, List, Option, Text, [], codes, if◌then◌else◌, int_le, length, map, none, pos, some,
  ℕ, ℤ, ◌&&◌, ◌++◌, ◌+◌, ◌∷◌,
}
use csar_notify.Domain.{Notification, channel_web_push}
use csar_notify.Provider.Errors.{is_permanent_channel_only}
use csar_notify.Dispatch.{Dispatcher, State, dispatch}
use csar_notify.Rmq.{Delivery, XDeath, absent, other_type, deaths, Death, table, other_entry}

-- deathCount
unfoldable pub count_of : Death → ℤ
count_of (table none) = pos 0
count_of (table (some n)) = n
count_of other_entry = pos 0

unfoldable pub count_in : Bool → XDeath → ℤ
unfolding count_of
count_in redelivered absent = if redelivered then pos 1 else pos 0
count_in redelivered other_type = pos 0
count_in redelivered (deaths []) = pos 0
count_in redelivered (deaths (first ∷ rest)) = count_of first

unfoldable pub death_count : Delivery → ℤ
unfolding count_in
death_count d = count_in d.redelivered d.x_death

-- Ack(false), Nack(false, true), Nack(false, false)
pub data Verdict : Type 0 where
  acked requeued dead_lettered : Verdict

pub record Decoded : Type 0 where
  pub notifications : List Notification
  pub good : List Delivery
  pub poison : List Delivery
  -- the labels of the error counter
  pub labels : List Text

abbrev pub nothing_decoded : Decoded
nothing_decoded = record { notifications = []; good = []; poison = []; labels = [] }

-- One round of the loop, on what the later rounds give.
abbrev pub rejected : Delivery → Text → Decoded → Decoded
rejected d label r = record r { poison = d ∷ r.poison; labels = label ∷ r.labels }

unfoldable pub decode_one : Delivery → Option Notification → Decoded → Decoded
decode_one d none r = rejected d (codes "decode_error") r
decode_one d (some n) r = record r { notifications = n ∷ r.notifications; good = d ∷ r.good }

-- maxRedeliver > 0 && deathCount(&batch[i]) >= maxRedeliver
unfoldable pub is_exhausted : ℤ → Delivery → Bool
is_exhausted max_redeliver d = int_le (pos 1) max_redeliver && int_le max_redeliver (death_count d)

module _ (unmarshal : Text → Option Notification) where
  unfoldable pub decode_batch : ℤ → List Delivery → Decoded
  decode_batch max_redeliver [] = nothing_decoded
  decode_batch max_redeliver (d ∷ rest) =
      let later = decode_batch max_redeliver rest in
      if is_exhausted max_redeliver d
      then rejected d (codes "dlq") later
      else decode_one d (unmarshal d.body) later

unfoldable pub should_ack_after_dispatch_error : GoError → Bool
should_ack_after_dispatch_error e = is_permanent_channel_only (some e) channel_web_push

-- What a session has done: the dispatcher's state, and the consumer's own counters and verdicts,
-- oldest first.
pub record Progress (W : Type 0) : Type 0 where
  pub state : State W
  pub verdicts : List (Delivery × Verdict)
  pub consumer_errors : List Text
  pub notifications_seen : ℕ

-- The verdict on a dispatched notification, and the label that it counts.
unfoldable pub verdict_of : Option GoError → Verdict × List Text
verdict_of none = (acked, [])
verdict_of (some e) =
    if should_ack_after_dispatch_error e
    then (acked, codes "web_push_permanent" ∷ [])
    else (requeued, codes "dispatch_error" ∷ [])

abbrev pub dead_letter : List Delivery → List (Delivery × Verdict)
dead_letter = map (λ d. (d, dead_lettered))

module _ {W : Type 0} (uuid_valid : Text → Bool) (dispatcher : Dispatcher W) where
  unfoldable pub settle : Notification → Delivery → Progress W → Progress W
  settle n d p =
      let (e, s) = dispatch dispatcher uuid_valid n p.state in
      record {
        state = s;
        verdicts = p.verdicts ++ (d, (verdict_of e).0) ∷ [];
        consumer_errors = p.consumer_errors ++ (verdict_of e).1;
        notifications_seen = p.notifications_seen;
      }

  -- The loop over the notifications; `good` has one delivery for each.
  unfoldable pub settle_all : List Notification → List Delivery → Progress W → Progress W
  settle_all [] good p = p
  settle_all (n ∷ ns) [] p = p
  settle_all (n ∷ ns) (d ∷ good) p = settle_all ns good (settle n d p)

  -- The body of the session's loop on a batch that is not empty.
  unfoldable pub handle_batch :
      (Text → Option Notification) → ℤ → List Delivery → Progress W → Progress W
  handle_batch unmarshal max_redeliver deliveries p =
      let decoded = decode_batch unmarshal max_redeliver deliveries in
      settle_all decoded.notifications decoded.good (record p {
        verdicts = p.verdicts ++ dead_letter decoded.poison;
        consumer_errors = p.consumer_errors ++ decoded.labels;
        notifications_seen = p.notifications_seen + length decoded.notifications;
      })
