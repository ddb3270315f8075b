-- ===== src/Pipeline/Retry.antt =====
-- internal/pipeline/buffer.go: the attempts of publishWithRetry and the sleeps between them.
use csar_notify.Base.{
  GoError, List, Option, Text, [], arith, none, some, suc, take, zero, ℕ, ◌-◌, ◌∷◌, ◌≡◌, ◌≢◌, ◌≤◌,
}
use csar_notify.Domain.{Notification}
use csar_notify.Pipeline.{
  published, encode_failed, exhausted, attempt_loop, publish_with_retry, max_attempts,
}

-- The attempts before the k-th failed.
abbrev pub FailedBefore : (ℕ → Option GoError) → ℕ → Type 0
FailedBefore outcomes zero = Unit
FailedBefore outcomes (suc k) = (outcomes k ≢ none) × FailedBefore outcomes k

abbrev pub copies : ℕ → Text → List Text
copies zero body = []
copies (suc k) body = body ∷ copies k body

module _ (encode : Notification → Option Text) (n : Notification) (body : Text)
    (outcomes : ℕ → Text → Option GoError) where
  -- The attempts on a notification that can be encoded.
  encoded_attempts :
      encode n ≡ some body
      → let r = publish_with_retry encode n outcomes in
        (r.attempts ≤ max_attempts)
        × (r.slept ≡ take (r.attempts - 1) (100 ∷ 200 ∷ 400 ∷ []))
        × (r.sent ≡ copies r.attempts body)
        × (r.ending ≡ published
            → FailedBefore (λ k. outcomes k body) (r.attempts - 1)
              × (outcomes (r.attempts - 1) body ≡ none))
        × (r.ending ≡ exhausted
            → (r.sent ≡ copies max_attempts body)
              × FailedBefore (λ k. outcomes k body) max_attempts)
        × (r.ending ≢ encode_failed)
  unfolding publish_with_retry attempt_loop
  encoded_attempts e = ground (arith, e)

  pub publish_with_retry-sent :
      encode n ≡ some body
      → let r = publish_with_retry encode n outcomes in r.sent ≡ copies r.attempts body
  publish_with_retry-sent e = let (a, s, sent, g, b, f) = encoded_attempts e in sent
