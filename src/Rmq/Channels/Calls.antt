-- ===== src/Rmq/Channels/Calls.antt =====
-- internal/rmq/publisher.go, internal/rmq/consumer.go and cmd/csar-notify/main.go: when a message
-- counts as published, and which channels stay open.
use csar_notify.Base.{
  Bool, GoError, List, Option, Text, [], ap, arith, false, negsuc, none, pos, refl, some, suc, true,
  zero, ℤ, ◌↔◌, ◌∷◌, ◌≡◌, ◌≢◌, ◌≤◌,
}
use csar_notify.Rmq.Connection.{Manager, open_channel}
use csar_notify.Rmq.Channels.{
  Call, publish, PublishAnswers, Outcome, queue_declare, confirmation, outcome_error, publish_raw,
  SessionAnswers, qos, ctx_done, confirm_mode, QueueConfig, consume, close_channel, declare_dlq,
  open_consumer_session, effective_prefetch, publish_on, declare_dlq_on, declare_queue,
  publish_and_wait, set_qos, start_consume, publish_opened, dlq_opened, session_opened,
}

-- The calls end by closing the channel, and close it only there.
abbrev pub ClosedOnce : List Call → Type 0
ClosedOnce [] = ⊥
ClosedOnce (close_channel ∷ calls) = calls ≡ []
ClosedOnce (confirm_mode ∷ calls) = ClosedOnce calls
ClosedOnce (publish queue body ∷ calls) = ClosedOnce calls
ClosedOnce (queue_declare name durable ∷ calls) = ClosedOnce calls
ClosedOnce (qos n ∷ calls) = ClosedOnce calls
ClosedOnce (consume name ∷ calls) = ClosedOnce calls

-- No channel was opened, or the one that was opened is closed again.
abbrev pub LeavesNone : Option GoError → List Call → Type 0
LeavesNone (some e) calls = calls ≡ []
LeavesNone none calls = ClosedOnce calls

-- The broker's answers with which a message is published.
abbrev pub Acked : Manager → PublishAnswers → Type 0
Acked m a =
    (open_channel a.channel m ≡ none)
    × (a.confirm ≡ none)
    × (a.published ≡ none)
    × (a.outcome ≡ confirmation true)

outcome_acked : (queue : Text) (o : Outcome) → outcome_error queue o ≡ none → o ≡ confirmation true
unfolding outcome_error
outcome_acked queue (confirmation true) h = refl
outcome_acked queue (confirmation false) h = cc h
outcome_acked queue (ctx_done e) h = cc h

outcome_of_ack : (queue : Text) → outcome_error queue (confirmation true) ≡ none
unfolding outcome_error
outcome_of_ack queue = refl

-- Publishing returns no error exactly where a channel could be opened, confirms were enabled, the
-- message was sent and the broker confirmed it with an ack: not where the wait for the confirmation
-- ended with the context or the channel. Then the calls were these three, with this queue and body.
pub publish_raw-Acked :
    (m : Manager) (a : PublishAnswers) (queue body : Text)
    → ((publish_raw m a queue body).0 ≡ none ↔ Acked m a)
      × (Acked m a
          → (publish_raw m a queue body).1 ≡ confirm_mode ∷ publish queue body ∷ close_channel ∷ [])
unfolding publish_raw publish_opened publish_on publish_and_wait
publish_raw-Acked m a queue body = (
  (
    λ h. ground (arith, outcome_acked queue a.outcome),
    λ (o, c, p, t). ground (arith, ap (outcome_error queue) t, outcome_of_ack queue),
  ),
  λ (o, c, p, t). ground arith,
)

publish_on-ClosedOnce :
    (a : PublishAnswers) (queue body : Text) → ClosedOnce (publish_on a queue body).1
unfolding publish_on publish_and_wait
publish_on-ClosedOnce a queue body = ground arith

publish_opened-LeavesNone :
    (opened : Option GoError) (a : PublishAnswers) (queue body : Text)
    → LeavesNone opened (publish_opened opened a queue body).1
unfolding publish_opened
publish_opened-LeavesNone (some e) a queue body = refl
publish_opened-LeavesNone none a queue body = publish_on-ClosedOnce a queue body

declare_dlq_on-ClosedOnce :
    (declared : Option GoError) (dlq : Text) (durable : Bool)
    → ClosedOnce (declare_dlq_on declared dlq durable).1
unfolding declare_dlq_on
declare_dlq_on-ClosedOnce none dlq durable = refl
declare_dlq_on-ClosedOnce (some e) dlq durable = refl

dlq_opened-LeavesNone :
    (opened declared : Option GoError) (dlq : Text) (durable : Bool)
    → LeavesNone opened (dlq_opened opened declared dlq durable).1
unfolding dlq_opened
dlq_opened-LeavesNone (some e) declared dlq durable = refl
dlq_opened-LeavesNone none declared dlq durable = declare_dlq_on-ClosedOnce declared dlq durable

declare_queue-ClosedOnce :
    (s : SessionAnswers) (cfg : QueueConfig)
    → (declare_queue s cfg).0 ≢ none
    → ClosedOnce (declare_queue s cfg).1
unfolding declare_queue set_qos start_consume
declare_queue-ClosedOnce s cfg h = ground (arith, h)

session_opened-LeavesNone :
    (opened : Option GoError) (s : SessionAnswers) (cfg : QueueConfig)
    → (session_opened opened s cfg).0 ≢ none
    → LeavesNone opened (session_opened opened s cfg).1
unfolding session_opened
session_opened-LeavesNone (some e) s cfg h = refl
session_opened-LeavesNone none s cfg h = declare_queue-ClosedOnce s cfg h

session_opened-calls :
    (opened : Option GoError) (s : SessionAnswers) (cfg : QueueConfig)
    → (session_opened opened s cfg).0 ≡ none
    → (session_opened opened s cfg).1
      ≡ queue_declare cfg.name cfg.durable
        ∷ qos (effective_prefetch cfg.prefetch)
        ∷ consume cfg.name
        ∷ []
unfolding session_opened declare_queue set_qos start_consume
session_opened-calls opened s cfg h = ground arith

effective_prefetch-bound : (prefetch : ℤ) → 1 ≤ effective_prefetch prefetch
unfolding effective_prefetch
effective_prefetch-bound (pos zero) = omega arith
effective_prefetch-bound (pos (suc n)) = omega arith
effective_prefetch-bound (negsuc n) = omega arith

-- A channel that PublishRaw, declareDLQ or a failing OpenConsumerSession opens is closed once, at the
-- end, on every path; OpenConsumerSession keeps it open only where it returns a session, and then the
-- queue was declared, at least one delivery may be outstanding, and consuming has started, in this
-- order.
pub channels_closed :
    (m : Manager) (a : PublishAnswers) (s : SessionAnswers) (declared : Option GoError)
    (queue body : Text) (durable : Bool) (cfg : QueueConfig)
    → LeavesNone (open_channel a.channel m) (publish_raw m a queue body).1
      × LeavesNone (open_channel s.channel m) (declare_dlq m s.channel declared queue durable).1
      × ((open_consumer_session m s cfg).0 ≢ none
          → LeavesNone (open_channel s.channel m) (open_consumer_session m s cfg).1)
      × ((open_consumer_session m s cfg).0 ≡ none
          → ((open_consumer_session m s cfg).1
              ≡ queue_declare cfg.name cfg.durable
                ∷ qos (effective_prefetch cfg.prefetch)
                ∷ consume cfg.name
                ∷ [])
            × (1 ≤ effective_prefetch cfg.prefetch))
unfolding publish_raw declare_dlq open_consumer_session
channels_closed m a s declared queue body durable cfg = (
  publish_opened-LeavesNone (open_channel a.channel m) a queue body,
  dlq_opened-LeavesNone (open_channel s.channel m) declared queue durable,
  session_opened-LeavesNone (open_channel s.channel m) s cfg,
  λ h. (
    session_opened-calls (open_channel s.channel m) s cfg h,
    effective_prefetch-bound cfg.prefetch,
  ),
)
