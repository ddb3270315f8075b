-- ===== src/Rmq/Channels.antt =====
-- internal/rmq/publisher.go, the consumer sessions of internal/rmq/consumer.go, and declareDLQ of
-- cmd/csar-notify/main.go. The answers of the AMQP client are inputs, a nil error being `none`; a
-- function returns its result and the calls that it made on the channel it opened. The arguments
-- that the source writes as constants and the headers for tracing are left out.
pub mod Calls
use csar_notify.Base.{
  Bool, GoError, List, Option, Text, [], codes, false, negsuc, none, plain, pos, some, suc, true,
  wrapped, zero, ℕ, ℤ, ◌++◌, ◌∷◌,
}
use csar_notify.Rmq.Batch.{Collected, Event, collect_batch, returned}
use csar_notify.Rmq.Connection.{Manager, open_channel}

pub data Call : Type 0 where
  -- Confirm(false)
  confirm_mode : Call
  -- PublishWithContext with the queue as routing key
  publish : Text → Text → Call
  queue_declare : Text → Bool → Call
  qos : ℕ → Call
  consume : Text → Call
  close_channel : Call

-- What the last `select` of PublishRaw takes: a confirmation, with its Ack (false also where the
-- channel was closed), or ctx.Done with the context's error.
pub data Outcome : Type 0 where
  confirmation : Bool → Outcome
  ctx_done : GoError → Outcome

pub record PublishAnswers : Type 0 where
  pub channel : Option GoError
  pub confirm : Option GoError
  pub published : Option GoError
  pub outcome : Outcome

unfoldable pub outcome_error : Text → Outcome → Option GoError
outcome_error queue (confirmation true) = none
outcome_error queue (confirmation false) =
    some (plain (codes "publish to " ++ queue ++ codes ": message nacked by broker"))
outcome_error queue (ctx_done e) = some e

-- After Confirm.
unfoldable pub publish_and_wait : PublishAnswers → Text → Text → Option GoError × List Call
publish_and_wait a queue body = elim a.published [
  | some e ↦ (
    some (wrapped (codes "publish to " ++ queue) e),
    confirm_mode ∷ publish queue body ∷ close_channel ∷ [],
  )
  | none ↦ (outcome_error queue a.outcome, confirm_mode ∷ publish queue body ∷ close_channel ∷ [])
]

-- With the channel open, which a `defer` closes.
unfoldable pub publish_on : PublishAnswers → Text → Text → Option GoError × List Call
publish_on a queue body = elim a.confirm [
  | some e ↦ (some (wrapped (codes "enable confirms") e), confirm_mode ∷ close_channel ∷ [])
  | none ↦ publish_and_wait a queue body
]

-- By the error of opening the channel.
unfoldable pub publish_opened :
    Option GoError → PublishAnswers → Text → Text → Option GoError × List Call
publish_opened (some e) a queue body = (some (wrapped (codes "open channel") e), [])
publish_opened none a queue body = publish_on a queue body

unfoldable pub publish_raw : Manager → PublishAnswers → Text → Text → Option GoError × List Call
publish_raw m a queue body = publish_opened (open_channel a.channel m) a queue body

-- Args is left out.
pub record QueueConfig : Type 0 where
  pub name : Text
  pub durable : Bool
  pub prefetch : ℤ

pub record SessionAnswers : Type 0 where
  pub channel : Option GoError
  pub declared : Option GoError
  pub qos_set : Option GoError
  pub consumed : Option GoError

-- if prefetch <= 0 { prefetch = 1 }
unfoldable pub effective_prefetch : ℤ → ℕ
effective_prefetch (pos zero) = 1
effective_prefetch (pos (suc n)) = suc n
effective_prefetch (negsuc n) = 1

-- After Qos; the session is the one on the channel that was opened.
unfoldable pub start_consume : SessionAnswers → QueueConfig → Option GoError × List Call
start_consume a cfg = elim a.consumed [
  | some e ↦
      (some (wrapped (codes "consume queue " ++ cfg.name) e), consume cfg.name ∷ close_channel ∷ [])
  | none ↦ (none, consume cfg.name ∷ [])
]

-- After QueueDeclare.
unfoldable pub set_qos : SessionAnswers → QueueConfig → Option GoError × List Call
set_qos a cfg = elim a.qos_set [
  | some e ↦ (
    some (wrapped (codes "set qos") e),
    qos (effective_prefetch cfg.prefetch) ∷ close_channel ∷ [],
  )
  | none ↦
      let (e, calls) = start_consume a cfg in (e, qos (effective_prefetch cfg.prefetch) ∷ calls)
]

unfoldable pub declare_queue : SessionAnswers → QueueConfig → Option GoError × List Call
declare_queue a cfg = elim a.declared [
  | some e ↦ (
    some (wrapped (codes "declare queue " ++ cfg.name) e),
    queue_declare cfg.name cfg.durable ∷ close_channel ∷ [],
  )
  | none ↦ let (e, calls) = set_qos a cfg in (e, queue_declare cfg.name cfg.durable ∷ calls)
]

-- By the error of opening the channel.
unfoldable pub session_opened :
    Option GoError → SessionAnswers → QueueConfig → Option GoError × List Call
session_opened (some e) a cfg = (some (wrapped (codes "open channel") e), [])
session_opened none a cfg = declare_queue a cfg

-- The error, `none` where a session is returned.
unfoldable pub open_consumer_session :
    Manager → SessionAnswers → QueueConfig → Option GoError × List Call
open_consumer_session m a cfg = session_opened (open_channel a.channel m) a cfg

-- What the deliveries channel of a session gives; a nil session is `none`.
abbrev pub Session : Type 0
Session = Option (List Event)

-- Close, with the channel's answer
unfoldable pub close_session : Option GoError → Session → Option GoError × List Call
close_session answer none = (none, [])
close_session answer (some events) = (answer, close_channel ∷ [])

unfoldable pub batch_consume : GoError → Session → ℤ → ℤ → Collected
batch_consume ctx_error none max_n max_wait =
    returned [] (some (plain (codes "rmq: nil consumer session")))
batch_consume ctx_error (some events) max_n max_wait = collect_batch ctx_error max_n max_wait events

-- With the channel open, which a `defer` closes.
unfoldable pub declare_dlq_on : Option GoError → Text → Bool → Option GoError × List Call
declare_dlq_on (some e) dlq durable =
    (some (wrapped (codes "declare dlq") e), queue_declare dlq durable ∷ close_channel ∷ [])
declare_dlq_on none dlq durable = (none, queue_declare dlq durable ∷ close_channel ∷ [])

-- By the error of opening the channel.
unfoldable pub dlq_opened :
    Option GoError → Option GoError → Text → Bool → Option GoError × List Call
dlq_opened (some e) declared dlq durable = (some e, [])
dlq_opened none declared dlq durable = declare_dlq_on declared dlq durable

unfoldable pub declare_dlq :
    Manager → Option GoError → Option GoError → Text → Bool → Option GoError × List Call
declare_dlq m channel declared dlq durable =
    dlq_opened (open_channel channel m) declared dlq durable
