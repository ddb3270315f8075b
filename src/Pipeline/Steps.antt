-- ===== src/Pipeline/Steps.antt =====
-- The buffer and its workers as a step relation: submissions, workers that take a notification or
-- finish with one, and the closing of the channel, in any order.
use csar_notify.Base.{
  GoError, List, Option, Text, [], ap, append_assoc, arith, length, length-append, map, none, refl,
  some, subst, suc, sym, true, ℕ, ℤ, ◌++◌, ◌+◌, ◌∷◌, ◌≡◌, ◌≤◌,
}
use mathlib.Core.List.Perm
use mathlib.Core.List.{Perm, perm_middle, perm_append_singleton}
use csar_notify.Domain.{Notification}
use csar_notify.Pipeline.{
  Buffer, returns, Ending, published, encode_failed, exhausted, new_buffer, worker_count, submit,
  publish_with_retry, count_ending,
}

-- `busy` are the notifications that workers hold. What was accepted and how each publication ended
-- is recorded beside it.
pub record System : Type 0 where
  pub buffer : Buffer
  pub idle : ℕ
  pub busy : List Notification
  pub accepted : List Notification
  pub settled : List (Notification × Ending)

abbrev pub start : ℤ → ℤ → System
start depth workers = record {
  buffer = new_buffer depth;
  idle = worker_count workers;
  busy = [];
  accepted = [];
  settled = [];
}

abbrev pub note_accepted : Notification → Option GoError → List Notification → List Notification
note_accepted n none accepted = accepted ++ n ∷ []
note_accepted n (some e) accepted = accepted

module _ (encode : Notification → Option Text) where
  pub data Step (s t : System) : Type 0 where
    submits :
        (n : Notification) (e : Option GoError) (b : Buffer)
        → submit (some n) s.buffer ≡ returns e b
        → t ≡ record s { buffer = b; accepted = note_accepted n e s.accepted }
        → Step s t
    takes :
        (n : Notification) (rest : List Notification) (left : ℕ)
        → s.buffer.ch ≡ n ∷ rest
        → s.idle ≡ suc left
        → t ≡ record s { buffer = record s.buffer { ch = rest }; idle = left; busy = n ∷ s.busy }
        → Step s t
    finishes :
        (n : Notification) (before after : List Notification) (outcomes : ℕ → Text → Option GoError)
        → s.busy ≡ before ++ n ∷ after
        → (let ending = (publish_with_retry encode n outcomes).ending in
            t ≡ record s {
              buffer = count_ending ending s.buffer;
              idle = s.idle + 1;
              busy = before ++ after;
              settled = (n, ending) ∷ s.settled;
            })
        → Step s t
    closes : t ≡ record s { buffer = record s.buffer { is_closed = true } } → Step s t

  pub data Reach (s : System) : System → Type 0 where
    here : Reach s s
    next : {t u : System} → Reach s t → Step t u → Reach s u

abbrev pub count_published : List (Notification × Ending) → ℕ
count_published [] = 0
count_published ((n, published) ∷ rest) = suc (count_published rest)
count_published ((n, encode_failed) ∷ rest) = count_published rest
count_published ((n, exhausted) ∷ rest) = count_published rest

abbrev pub notes : List (Notification × Ending) → List Notification
notes = map (λ x. x.0)

-- The workers are all accounted for, the channel keeps within its capacity, every accepted
-- notification is in the channel, with a worker or settled, and the counter counts the published.
pub record Inv (workers : ℕ) (s : System) : Type 0 where
  pub staffed : s.idle + length s.busy ≡ workers
  pub bounded : length s.buffer.ch ≤ s.buffer.capacity
  pub conserved : Perm s.accepted (s.buffer.ch ++ (s.busy ++ notes s.settled))
  pub counted : s.buffer.events_published ≡ count_published s.settled

perm_enqueue :
    (n : Notification) (accepted ch rest : List Notification)
    → Perm accepted (ch ++ rest)
    → Perm (accepted ++ n ∷ []) ((ch ++ n ∷ []) ++ rest)
perm_enqueue n accepted ch rest h = rw (append_assoc ch (n ∷ []) rest) (
    Perm.trans (perm_append_singleton n accepted)
      (Perm.trans (Perm.cons n h) (Perm.symm (perm_middle ch rest))))

perm_settle :
    (n : Notification) (before after settled : List Notification)
    → Perm ((before ++ n ∷ after) ++ settled) ((before ++ after) ++ n ∷ settled)
perm_settle n before after settled =
    Perm.trans (Perm.append (perm_middle before after) (Perm.refl settled))
      (Perm.symm (perm_middle (before ++ after) settled))

pub ch-count_ending : (e : Ending) (b : Buffer) → (count_ending e b).ch ≡ b.ch
unfolding count_ending
ch-count_ending published b = refl
ch-count_ending encode_failed b = refl
ch-count_ending exhausted b = refl

start-Inv : (depth workers : ℤ) → Inv (worker_count workers) (start depth workers)
unfolding new_buffer
start-Inv depth workers = record {
  staffed = omega arith;
  bounded = omega arith;
  conserved = Perm.refl [];
  counted = refl;
}

submits-Inv :
    (workers : ℕ) (s : System) (n : Notification) (e : Option GoError) (b : Buffer)
    → submit (some n) s.buffer ≡ returns e b
    → Inv workers s
    → Inv workers (record s { buffer = b; accepted = note_accepted n e s.accepted })
unfolding submit
submits-Inv workers s n e b h v = record {
  staffed = v.staffed;
  bounded = ground (arith, length-append s.buffer.ch (n ∷ []));
  conserved = ground (
    arith,
    v.conserved,
    perm_enqueue n s.accepted s.buffer.ch (s.busy ++ notes s.settled) v.conserved,
  );
  counted = ground arith;
}

takes-Inv :
    (workers : ℕ) (s : System) (n : Notification) (rest : List Notification) (left : ℕ)
    → s.buffer.ch ≡ n ∷ rest
    → s.idle ≡ suc left
    → Inv workers s
    → Inv workers
        (record s { buffer = record s.buffer { ch = rest }; idle = left; busy = n ∷ s.busy })
takes-Inv workers s n rest left e i v = record {
  staffed = omega arith;
  bounded = omega (arith, ap length e);
  conserved =
      Perm.trans (subst (λ c. Perm s.accepted (c ++ (s.busy ++ notes s.settled))) e v.conserved)
        (Perm.symm (perm_middle rest (s.busy ++ notes s.settled)));
  counted = v.counted;
}

finishes-Inv :
    (workers : ℕ) (s : System) (n : Notification) (before after : List Notification)
    (ending : Ending)
    → s.busy ≡ before ++ n ∷ after
    → Inv workers s
    → Inv workers (record s {
      buffer = count_ending ending s.buffer;
      idle = s.idle + 1;
      busy = before ++ after;
      settled = (n, ending) ∷ s.settled;
    })
unfolding count_ending
finishes-Inv workers s n before after ending e v = record {
  staffed =
      omega (
        arith,
        ap length e,
        length-append before (n ∷ after),
        length-append before after,
        v.staffed,
      );
  bounded = ground arith;
  conserved = rw (ch-count_ending ending s.buffer) (
      Perm.trans
        (subst (λ b. Perm s.accepted (s.buffer.ch ++ (b ++ notes s.settled))) e v.conserved)
        (Perm.append (Perm.refl s.buffer.ch) (perm_settle n before after (notes s.settled))));
  counted = ground arith;
}

module _ (encode : Notification → Option Text) where
  Step-Inv : (workers : ℕ) {s t : System} → Step encode s t → Inv workers s → Inv workers t
  Step-Inv workers {s} (submits n e b h same) v =
      subst (Inv workers) (sym same) (submits-Inv workers s n e b h v)
  Step-Inv workers {s} (takes n rest left e i same) v =
      subst (Inv workers) (sym same) (takes-Inv workers s n rest left e i v)
  Step-Inv workers {s} (finishes n before after outcomes e same) v =
      subst (Inv workers) (sym same) (finishes-Inv workers s n before after _ e v)
  Step-Inv workers {s} (closes same) v = subst (Inv workers) (sym same) (record {
    staffed = v.staffed;
    bounded = v.bounded;
    conserved = v.conserved;
    counted = v.counted;
  })

  -- However submissions, workers and the closing interleave: the workers are all accounted for, the
  -- channel never holds more than its capacity, every notification that Submit accepted is in exactly
  -- one place, the channel, a worker or the settled ones, and the counter of published events counts
  -- those that were published.
  pub Reach-Inv :
      (depth workers : ℤ) {s : System}
      → Reach encode (start depth workers) s
      → Inv (worker_count workers) s
  Reach-Inv depth workers here = start-Inv depth workers
  Reach-Inv depth workers (next r st) =
      Step-Inv (worker_count workers) st (Reach-Inv depth workers r)

  -- When `Close` returns, with the channel empty and every worker idle, each accepted notification
  -- has been settled exactly once.
  pub drained_settles_all :
      (depth workers : ℤ) {s : System}
      → Reach encode (start depth workers) s
      → s.buffer.ch ≡ []
      → s.busy ≡ []
      → Perm s.accepted (notes s.settled)
  drained_settles_all depth workers {s} r c b =
      let v = (Reach-Inv depth workers r).conserved in
      subst (λ x. Perm s.accepted (x ++ notes s.settled)) b
        (subst (λ x. Perm s.accepted (x ++ (s.busy ++ notes s.settled))) c v)
