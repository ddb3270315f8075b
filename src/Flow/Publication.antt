-- ===== src/Flow/Publication.antt =====
-- internal/pipeline/buffer.go over internal/rmq/publisher.go: when a notification counts as published.
use csar_notify.Base.{
  GoError, List, Option, Option-cases, Text, [], arith, if◌then◌else◌, inl, inr, min, none, some,
  suc, zero, ℕ, ◌*◌, ◌++◌, ◌+◌, ◌<◌, ◌==◌, ◌↔◌, ◌∷◌, ◌≡◌, ◌≢◌, ◌≤◌,
}
use csar_notify.Domain.{Notification}
use csar_notify.Pipeline.{attempt_loop, publish_with_retry, published, max_attempts}
use csar_notify.Pipeline.Retry.{copies, publish_with_retry-sent}
use csar_notify.Rmq.Connection.{Manager}
use csar_notify.Rmq.Channels.{PublishAnswers, publish_raw, confirm_mode, close_channel, publish}
use csar_notify.Rmq.Channels.Calls.{Acked, publish_raw-Acked}

-- Some attempt from `attempt` on, among those left, has no error.
abbrev Succeeds : (ℕ → Option GoError) → ℕ → ℕ → Type 0
Succeeds outcomes attempt left =
    (k : ℕ) × (attempt ≤ k) × (k < attempt + left) × (outcomes k ≡ none)

attempt_loop-published :
    (outcomes : ℕ → Text → Option GoError) (body : Text) (attempt backoff left : ℕ)
    (sent : List Text) (slept : List ℕ)
    → ((attempt_loop outcomes body attempt backoff left sent slept).ending ≡ published)
      ↔ Succeeds (λ k. outcomes k body) attempt left
unfolding attempt_loop
attempt_loop-published outcomes body attempt backoff zero sent slept =
    (λ h. cc h, λ (k, a, b, c). absurd (omega (arith, a, b)))
attempt_loop-published outcomes body attempt backoff (suc left) sent slept =
    let slept' = if attempt == 0 then slept else slept ++ backoff ∷ [] in
    let backoff' = if attempt == 0 then backoff else min (backoff * 2) 5000 in
    let ih =
      attempt_loop-published outcomes body (attempt + 1) backoff' left (sent ++ body ∷ []) slept' in
    elim (Option-cases (outcomes attempt body)) [
      | inl e ↦ (λ h. (attempt, omega arith, omega arith, e), λ s. ground (arith, e))
      | inr (f, e) ↦ (
        λ h.
            let (k, a, b, c) = ih.0 (ground (arith, e, h)) in
            (k, omega (arith, a), omega (arith, b), c),
        λ (k, a, b, c).
            let later : attempt ≢ k = λ (x : attempt ≡ k). cc (x, c, e) in
            let done = ih.1 (k, omega (arith, a, later), omega (arith, b), c) in
            ground (arith, e, done),
      )
    ]

publish_with_retry-published :
    (encode : Notification → Option Text) (n : Notification) (body : Text)
    (outcomes : ℕ → Text → Option GoError)
    → encode n ≡ some body
    → ((publish_with_retry encode n outcomes).ending ≡ published)
      ↔ Succeeds (λ k. outcomes k body) 0 max_attempts
unfolding publish_with_retry
publish_with_retry-published encode n body outcomes e =
    rw (e, publish_with_retry) (attempt_loop-published outcomes body 0 100 max_attempts [] [])

-- The publication of a notification that can be encoded, over attempts with whatever connection and
-- answers each finds, hands the encoded notification to the publisher in every attempt. It counts as
-- published exactly where in one of the first four attempts the channel opened, confirms were enabled,
-- the message was sent and the broker acknowledged it; the message that is sent then is the encoded
-- notification, to the queue of the publisher.
pub published-Acked :
    (encode : Notification → Option Text) (n : Notification) (queue body : Text) (m : ℕ → Manager)
    (a : ℕ → PublishAnswers)
    → encode n ≡ some body
    → let r = publish_with_retry encode n (λ k b. (publish_raw (m k) (a k) queue b).0) in
      (r.sent ≡ copies r.attempts body)
      × ((r.ending ≡ published) ↔ (
          (k : ℕ) × (k < 4)
          × Acked (m k) (a k)
          × ((publish_raw (m k) (a k) queue body).1
              ≡ confirm_mode ∷ publish queue body ∷ close_channel ∷ [])))
published-Acked encode n queue body m a e =
    let outcomes : ℕ → Text → Option GoError = λ k b. (publish_raw (m k) (a k) queue b).0 in
    let counted = publish_with_retry-published encode n body outcomes e in
    (
      publish_with_retry-sent encode n body outcomes e,
      (
        λ h.
            let (k, l, b, c) = counted.0 h in
            let (iff, calls) = publish_raw-Acked (m k) (a k) queue body in
            (k, omega (arith, b), iff.0 c, calls (iff.0 c)),
        λ (k, b, acked, calls). counted.1 (
          k,
          omega arith,
          omega (arith, b),
          (publish_raw-Acked (m k) (a k) queue body).0.1 acked,
        ),
      ),
    )
