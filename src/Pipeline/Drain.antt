-- ===== src/Pipeline/Drain.antt =====
-- internal/pipeline/buffer.go: Close, which waits until the workers have drained the channel.
use csar_notify.Base.{
  Bool, GoError, List, Option, Text, [], ap, arith, inl, inr, length, length-append, negsuc, none,
  pos, refl, some, subst, suc, sym, true, zero, ℕ, ℤ, ◌+◌, ◌-◌, ◌∙◌, ◌∷◌, ◌≡◌, ◌≢◌, ◌≤◌, ◌⊎◌,
}
use mathlib.Core.List.{Perm}
use csar_notify.Domain.{Notification}
use csar_notify.Pipeline.{
  Buffer, Ending, published, encode_failed, exhausted, worker_count, count_ending, submit, returns,
  publish_with_retry, Ending, Buffer,
}
use csar_notify.Pipeline.Steps.{
  System, start, Step, submits, takes, finishes, closes, Reach, next, Reach-Inv, notes,
  drained_settles_all, ch-count_ending,
}

-- What the workers have left to do: to take and to finish each notification.
abbrev pub work_left : System → ℕ
work_left s = length s.buffer.ch + length s.buffer.ch + length s.busy

abbrev Drained : System → Type 0
Drained s = (s.buffer.ch ≡ []) × (s.busy ≡ []) × Perm s.accepted (notes s.settled)

is_closed-count_ending : (e : Ending) (b : Buffer) → (count_ending e b).is_closed ≡ b.is_closed
unfolding count_ending
is_closed-count_ending published b = refl
is_closed-count_ending encode_failed b = refl
is_closed-count_ending exhausted b = refl

worker_count-bound : (workers : ℤ) → 1 ≤ worker_count workers
unfolding worker_count
worker_count-bound (pos n) = ground arith
worker_count-bound (negsuc n) = ground arith

list_cases :
    (ns : List Notification)
    → (ns ≡ []) ⊎ ((n : Notification) × (rest : List Notification) × (ns ≡ n ∷ rest))
list_cases [] = inl refl
list_cases (n ∷ rest) = inr (n, rest, refl)

submit_closed :
    (n : Notification) (e : Option GoError) (b b' : Buffer)
    → b.is_closed ≡ true
    → submit (some n) b ≢ returns e b'
unfolding submit
submit_closed n e b b' c h = ground (arith, h)

module _ (encode : Notification → Option Text) where
  -- A step of a worker.
  abbrev pub IsWork : {s t : System} → Step encode s t → Type 0
  IsWork (submits n e b h same) = ⊥
  IsWork (takes n rest left e i same) = Unit
  IsWork (finishes n before after outcomes e same) = Unit
  IsWork (closes same) = ⊥

  -- k steps of workers, one after the other.
  abbrev pub Works : ℕ → System → System → Type 0
  Works zero s t = s ≡ t
  Works (suc k) s t = (u : System) × (st : Step encode s u) × IsWork st × Works k u t

  -- A step of a worker takes one piece of work off, and leaves a closed channel closed.
  work-less :
      {s t : System} (st : Step encode s t)
      → IsWork st
      → (work_left t + 1 ≡ work_left s) × (t.buffer.is_closed ≡ s.buffer.is_closed)
  work-less (submits n e b h same) w = absurd w
  work-less {s} {t} (takes n rest left e i same) w =
      (rw same (omega (arith, ap length e)), rw same refl)
  work-less {s} {t} (finishes n before after outcomes e same) w =
      let ending = (publish_with_retry encode n outcomes).ending in
      (
        rw (same, ch-count_ending ending s.buffer)
            (omega
              (arith, ap length e, length-append before (n ∷ after), length-append before after)),
        rw same (is_closed-count_ending ending s.buffer),
      )
  work-less (closes same) w = absurd w

  Works-less :
      (k : ℕ) (s t : System)
      → Works k s t
      → (work_left t + k ≡ work_left s) × (t.buffer.is_closed ≡ s.buffer.is_closed)
  Works-less zero s t same = rw same (omega arith, refl)
  Works-less (suc k) s t (u, st, w, rest) =
      let (one, c) = work-less st w in
      let (more, d) = Works-less k u t rest in (omega (arith, one, more), d ∙ c)

  Works-Reach :
      (depth workers : ℤ) (k : ℕ) (s t : System)
      → Reach encode (start depth workers) s
      → Works k s t
      → Reach encode (start depth workers) t
  Works-Reach depth workers zero s t r same = subst (Reach encode (start depth workers)) same r
  Works-Reach depth workers (suc k) s t r (u, st, w, rest) =
      Works-Reach depth workers k u t (next r st) rest

  -- Where there is work, a worker can take a step.
  progress :
      (depth workers : ℤ) (s : System)
      → Reach encode (start depth workers) s
      → Drained s ⊎ ((t : System) × (st : Step encode s t) × IsWork st)
  progress depth workers s r = elim (list_cases s.busy) [
    | inr (n, rest, e) ↦ inr (_, finishes n [] rest (λ k body. none) e refl, tt)
    | inl b ↦ elim (list_cases s.buffer.ch) [
      | inl c ↦ inl (c, b, drained_settles_all encode depth workers r c b)
      | inr (n, rest, e) ↦
          let v = Reach-Inv encode depth workers r in
          let staff : s.idle ≡ suc (s.idle - 1) =
            omega (arith, v.staffed, ap length b, worker_count-bound workers) in
          inr (_, takes n rest (s.idle - 1) e staff refl, tt)
    ]
  ]

  closed-only :
      (t : System)
      → t.buffer.is_closed ≡ true
      → (u : System) (st : Step encode t u) → IsWork st ⊎ (u ≡ t)
  closed-only t c u (submits n e b h same) = absurd (submit_closed n e t.buffer b c h)
  closed-only t c u (takes n rest left e i same) = inl tt
  closed-only t c u (finishes n before after outcomes e same) = inl tt
  closed-only t c u (closes same) =
      inr
        (same ∙ ap (λ (x : Bool). record t { buffer = record t.buffer { is_closed = x } }) (sym c))

  -- Once the channel is closed, every step is one of a worker or changes nothing: nothing more is
  -- accepted. Each step of a worker is one of the work that was left, two for a notification in the
  -- channel and one for one with a worker, so that no more steps than that are possible. And after
  -- any number of them, unless the channel is empty, the workers are idle and every accepted
  -- notification has been settled, once each, a worker can take a further step. So Close returns,
  -- provided that each publication ends.
  pub close_drains :
      (depth workers : ℤ) (s t : System) (k : ℕ)
      → Reach encode (start depth workers) s
      → s.buffer.is_closed ≡ true
      → Works k s t
      → (work_left t + k ≡ work_left s)
        × (Drained t ⊎ ((u : System) × (st : Step encode t u) × IsWork st))
        × ((u : System) (st : Step encode t u) → IsWork st ⊎ (u ≡ t))
  close_drains depth workers s t k r c run =
      let (less, same) = Works-less k s t run in
      (
        less,
        progress depth workers t (Works-Reach depth workers k s t r run),
        closed-only t (same ∙ c),
      )
