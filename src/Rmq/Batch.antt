-- ===== src/Rmq/Batch.antt =====
-- `CollectBatch` of internal/rmq/consumer.go. What the `select` statements receive is a list of
-- events, in the order in which they are taken.
use csar_notify.Base.{
  Bool-cases, GoError, List, Option, [], ap, append_assoc, arith, codes, if◌then◌else◌, inl, inr,
  int_le, leb, length, length-append, negsuc, none, plain, pos, some, suc, sym, zero, ℕ, ℤ, ◌++◌,
  ◌==◌, ◌||◌, ◌∙◌, ◌∷◌, ◌≡◌, ◌≢◌, ◌≤◌,
}
use csar_notify.Rmq.{Delivery}

pub data Event : Type 0 where
  arrived : Delivery → Event
  closed : Event
  timer_fired : Event
  ctx_done : Event

-- `waiting`: the events are used up and the call still blocks.
pub data Collected : Type 0 where
  waiting : Collected
  returned : List Delivery → Option GoError → Collected

abbrev pub channel_closed : GoError
channel_closed = plain (codes "rmq: deliveries channel closed")

module _ (ctx_err : GoError) where
  -- The loop once the timer runs: `batch` grows at its end up to `max_n`.
  unfoldable pub fill : ℕ → List Delivery → List Event → Collected
  fill max_n batch [] = if leb max_n (length batch) then returned batch none else waiting
  fill max_n batch (arrived d ∷ rest) =
      let more = fill max_n (batch ++ d ∷ []) rest in
      if leb max_n (length batch) then returned batch none else more
  fill max_n batch (closed ∷ rest) =
      if leb max_n (length batch) then returned batch none else returned batch (some channel_closed)
  fill max_n batch (timer_fired ∷ rest) = returned batch none
  fill max_n batch (ctx_done ∷ rest) =
      if leb max_n (length batch) then returned batch none else returned batch (some ctx_err)

  -- The first `select`, before there is a timer.
  unfoldable pub collect_first : ℕ → ℤ → List Event → Collected
  collect_first max_n max_wait [] = waiting
  collect_first max_n max_wait (arrived d ∷ rest) =
      let more = fill max_n (d ∷ []) rest in
      if max_n == 1 || int_le max_wait (pos 0) then returned (d ∷ []) none else more
  collect_first max_n max_wait (closed ∷ rest) = returned [] (some channel_closed)
  collect_first max_n max_wait (timer_fired ∷ rest) = collect_first max_n max_wait rest
  collect_first max_n max_wait (ctx_done ∷ rest) = returned [] (some ctx_err)

  unfoldable pub collect_batch : ℤ → ℤ → List Event → Collected
  collect_batch (pos zero) max_wait events =
      returned [] (some (plain (codes "rmq: maxN must be >= 1")))
  collect_batch (negsuc n) max_wait events =
      returned [] (some (plain (codes "rmq: maxN must be >= 1")))
  collect_batch (pos (suc n)) max_wait events = collect_first (suc n) max_wait events

-- The deliveries among the events.
abbrev pub arrivals : List Event → List Delivery
arrivals [] = []
arrivals (arrived d ∷ rest) = d ∷ arrivals rest
arrivals (_ ∷ rest) = arrivals rest

module _ (ctx_err : GoError) where
  fill_prefix :
      (max_n : ℕ) (batch : List Delivery) (events : List Event) (out : List Delivery)
      (e : Option GoError)
      → length batch ≤ max_n
      → fill ctx_err max_n batch events ≡ returned out e
      → (rest : List Delivery) × (batch ++ arrivals events ≡ out ++ rest)
        × (length out ≤ max_n)
        × (length batch ≤ length out)
  unfolding fill
  fill_prefix max_n batch [] out e h r = ([], ground arith, ground arith, ground arith)
  fill_prefix max_n batch (arrived d ∷ events) out e h r =
      elim (Bool-cases (leb max_n (length batch))) [
        | inl full ↦ (d ∷ arrivals events, ground arith, ground arith, ground arith)
        | inr room ↦
            let grown = length-append batch (d ∷ []) in
            let (rest, same, fits, more) =
              fill_prefix max_n (batch ++ d ∷ []) events out e (ground arith) (ground arith) in
            (rest, sym (append_assoc batch (d ∷ []) (arrivals events)) ∙ same, fits, omega arith)
      ]
  fill_prefix max_n batch (closed ∷ events) out e h r =
      (arrivals events, ground arith, ground arith, ground arith)
  fill_prefix max_n batch (timer_fired ∷ events) out e h r =
      (arrivals events, ground arith, ground arith, ground arith)
  fill_prefix max_n batch (ctx_done ∷ events) out e h r =
      (arrivals events, ground arith, ground arith, ground arith)

  first_prefix :
      (max_n : ℕ) (max_wait : ℤ) (events : List Event) (out : List Delivery) (e : Option GoError)
      → 1 ≤ max_n
      → collect_first ctx_err max_n max_wait events ≡ returned out e
      → (rest : List Delivery) × (arrivals events ≡ out ++ rest)
        × (length out ≤ max_n)
        × (e ≡ none → out ≢ [])
  unfolding collect_first
  first_prefix max_n max_wait [] out e h r = absurd (ground arith)
  first_prefix max_n max_wait (arrived d ∷ events) out e h r =
      elim (Bool-cases (max_n == 1 || int_le max_wait (pos 0))) [
        | inl single ↦ (arrivals events, ground arith, ground arith, λ x. ground arith)
        | inr more ↦
            let (rest, same, fits, some_out) =
              fill_prefix max_n (d ∷ []) events out e (omega arith) (ground arith) in
            (rest, same, fits, λ x y. omega (arith, ap length y))
      ]
  first_prefix max_n max_wait (closed ∷ events) out e h r =
      (arrivals events, ground arith, ground arith, λ x. ground arith)
  first_prefix max_n max_wait (timer_fired ∷ events) out e h r =
      first_prefix max_n max_wait events out e h r
  first_prefix max_n max_wait (ctx_done ∷ events) out e h r =
      (arrivals events, ground arith, ground arith, λ x. ground arith)

-- Whatever a call returns is the first deliveries that arrived, in order and with none left out; it
-- is at most `max_n` of them, and at least one if the error is nil.
pub collect_batch_prefix :
    (ctx_err : GoError) (max_n : ℕ) (max_wait : ℤ) (events : List Event) (out : List Delivery)
    (e : Option GoError)
    → collect_batch ctx_err (pos max_n) max_wait events ≡ returned out e
    → (rest : List Delivery) × (arrivals events ≡ out ++ rest)
      × (length out ≤ max_n)
      × (e ≡ none → out ≢ [])
unfolding collect_batch
collect_batch_prefix ctx_err zero max_wait events out e r =
    (arrivals events, ground arith, ground arith, λ x. ground arith)
collect_batch_prefix ctx_err (suc n) max_wait events out e r =
    first_prefix ctx_err (suc n) max_wait events out e (omega arith) r
