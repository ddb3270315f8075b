-- ===== src/Pipeline.antt =====
-- internal/pipeline/buffer.go: the bounded buffer between the ingest handler and the broker, and the
-- workers that publish from it. `json.Marshal` of a notification is the parameter `encode`, `none`
-- where it returns an error. Publisher.PublishRaw is an input, the error that it returns for a body at
-- an attempt, and a report holds the bodies that it was called with. Logging is left out; a counter with labels is the list of its increments.
pub mod Retry
pub mod Steps
pub mod Drain
use csar_notify.Base.{
  Bool, GoError, List, Option, Text, [], codes, false, if◌then◌else◌, int_le, length, ltb, min,
  none, plain, pos, some, suc, to_ℕ, zero, ℕ, ℤ, ◌*◌, ◌++◌, ◌+◌, ◌==◌, ◌∷◌,
}
use csar_notify.Domain.{Notification}

abbrev pub err_full : GoError
err_full = plain (codes "notify pipeline buffer full")

-- The channel, its capacity, and the counters.
pub record Buffer : Type 0 where
  pub ch : List Notification
  pub capacity : ℕ
  pub is_closed : Bool
  pub events_published : ℕ
  pub events_dropped : List Text

-- NewBuffer, on the depth asked for
unfoldable pub new_buffer : ℤ → Buffer
new_buffer depth = record {
  ch = [];
  capacity = if int_le depth (pos 0) then 1 else to_ℕ depth;
  is_closed = false;
  events_published = 0;
  events_dropped = [];
}

-- and the number of workers started
unfoldable pub worker_count : ℤ → ℕ
worker_count workers = if int_le workers (pos 0) then 1 else to_ℕ workers

unfoldable pub depth : Buffer → ℕ
depth b = length b.ch

-- Submit: the error, and the buffer afterwards. A send on a closed channel panics: `none`.
pub data Submitted : Type 0 where
  panics : Submitted
  returns : Option GoError → Buffer → Submitted

unfoldable pub submit : Option Notification → Buffer → Submitted
submit none b = returns (some (plain (codes "nil notification"))) b
submit (some n) b =
    if b.is_closed
    then panics
    else if ltb (length b.ch) b.capacity
    then returns none (record b { ch = b.ch ++ n ∷ [] })
    else returns (some err_full)
        (record b { events_dropped = b.events_dropped ++ codes "buffer_full" ∷ [] })

-- How publishing ended, the bodies that PublishRaw was called with, one for each attempt, and the
-- milliseconds slept before each further attempt.
pub data Ending : Type 0 where
  published : Ending
  encode_failed : Ending
  exhausted : Ending

pub record Report : Type 0 where
  pub ending : Ending
  pub attempts : ℕ
  pub sent : List Text
  pub slept : List ℕ

abbrev pub max_attempts : ℕ
max_attempts = 4

-- The loop over the attempts left; `publish_raw k body` is the error of attempt k.
unfoldable pub attempt_loop :
    (ℕ → Text → Option GoError) → Text → ℕ → ℕ → ℕ → List Text → List ℕ → Report
attempt_loop publish_raw body attempt backoff zero sent slept = record {
  ending = exhausted;
  attempts = attempt;
  sent = sent;
  slept = slept;
}
attempt_loop publish_raw body attempt backoff (suc left) sent slept =
    let sent' = sent ++ body ∷ [] in
    let slept' = if attempt == 0 then slept else slept ++ backoff ∷ [] in
    let backoff' = if attempt == 0 then backoff else min (backoff * 2) 5000 in
    let again = attempt_loop publish_raw body (attempt + 1) backoff' left sent' slept' in
    elim (publish_raw attempt body) [
      | none ↦ record { ending = published; attempts = attempt + 1; sent = sent'; slept = slept' }
      | some e ↦ again
    ]

module _ (encode : Notification → Option Text) where
  unfoldable pub publish_with_retry : Notification → (ℕ → Text → Option GoError) → Report
  publish_with_retry n publish_raw = elim (encode n) [
    | none ↦ record { ending = encode_failed; attempts = 0; sent = []; slept = [] }
    | some body ↦ attempt_loop publish_raw body 0 100 max_attempts [] []
  ]

-- What the end of a publication does to the counters.
unfoldable pub count_ending : Ending → Buffer → Buffer
count_ending published b = record b { events_published = b.events_published + 1 }
count_ending encode_failed b = record b {
  events_dropped = b.events_dropped ++ codes "encode_error" ∷ [];
}
count_ending exhausted b = record b {
  events_dropped = b.events_dropped ++ codes "publish_error" ∷ [];
}
