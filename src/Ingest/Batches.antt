-- ===== src/Ingest/Batches.antt =====
-- internal/ingest/http.go: batches of notifications, refused or submitted.
use csar_notify.Base.{
  All, Bool, Bool-cases, GoError, List, Option, Option-cases, Text, [], append-nil, append_assoc,
  arith, codes, err, false, inl, inr, length, length-append, lt_of_ltb, ltb, map, none, ok, plain,
  refl, some, suc, take, ℕ, ◌++◌, ◌+◌, ◌-◌, ◌<◌, ◌∙◌, ◌∷◌, ◌≡◌, ◌≤◌,
}
use csar_notify.Domain.{Notification, normalize, validate_pointer, validate_notification}
use csar_notify.Domain.Validation.{IsValid, validate_notification_iff}
use csar_notify.Pipeline.{Buffer, returns, submit, err_full}
use native.Mathlib.Nat.{add-zero, zero-add}
use csar_notify.Ingest.{
  Response, invalid, unavailable, accepted, Ingest, validate_all, submit_all, respond, serve_batch,
  serve_http,
}

-- A notification that is there and valid once normalized.
abbrev pub IsAcceptable : (Text → Bool) → Option Notification → Type 0
IsAcceptable uuid_valid none = ⊥
IsAcceptable uuid_valid (some n) = IsValid uuid_valid (normalize n)

abbrev pub normalized : List (Option Notification) → List Notification
normalized [] = []
normalized (none ∷ ns) = normalized ns
normalized (some n ∷ ns) = normalize n ∷ normalized ns

module _ (uuid_valid : Text → Bool) where
  validate_all_ok :
      (ns : List (Option Notification))
      → All (IsAcceptable uuid_valid) ns
      → validate_all uuid_valid ns ≡ ok (map some (normalized ns))
  unfolding validate_all validate_pointer
  validate_all_ok [] h = refl
  validate_all_ok (none ∷ ns) h = absurd h.0
  validate_all_ok (some n ∷ ns) h =
      let (checked, same) = validate_notification_iff uuid_valid n in
      rw (checked.1 h.0, validate_all) (rw (validate_all_ok ns h.1, validate_all) (rw same))

  validate_all_err :
      (ns : List (Option Notification))
      → ¬ All (IsAcceptable uuid_valid) ns
      → (e : GoError) × (validate_all uuid_valid ns ≡ err e)
  unfolding validate_all validate_pointer
  validate_all_err [] h = absurd (h tt)
  validate_all_err (none ∷ ns) h = (plain (codes "notification is required"), refl)
  validate_all_err (some n ∷ ns) h = elim (Option-cases (validate_notification uuid_valid n).0) [
    | inl fine ↦
        let here = ((validate_notification_iff uuid_valid n).0).0 fine in
        let (e, bad) = validate_all_err ns (λ a. h (here, a)) in
        (e, rw (fine, validate_all) (rw (bad, validate_all)))
    | inr (e, bad) ↦ (e, rw (bad, validate_all))
  ]

  -- A batch with a notification that is missing or not valid is refused as a whole: nothing of it is
  -- submitted and nothing is counted.
  pub invalid_batch_unchanged :
      (ns : List (Option Notification)) (s : Ingest)
      → ¬ All (IsAcceptable uuid_valid) ns
      → (e : GoError) × (serve_http uuid_valid (ok ns) s ≡ (invalid e, s))
  unfolding serve_http serve_batch
  invalid_batch_unchanged [] s h = absurd (h tt)
  invalid_batch_unchanged (n ∷ ns) s h =
      let (e, bad) = validate_all_err (n ∷ ns) h in (e, rw (bad, serve_batch))

-- How many more notifications the channel takes.
abbrev pub room : Buffer → ℕ
room b = b.capacity - length b.ch

abbrev pub filled : Buffer → List Notification → Buffer
filled b ns = record b { ch = b.ch ++ ns }

submit_room :
    (n : Notification) (b : Buffer)
    → b.is_closed ≡ false
    → length b.ch < b.capacity
    → submit (some n) b ≡ returns none (filled b (n ∷ []))
unfolding submit
submit_room n b o h = ground arith

submit_no_room :
    (n : Notification) (b : Buffer)
    → b.is_closed ≡ false
    → b.capacity ≤ length b.ch
    → submit (some n) b
      ≡ returns
          (some err_full)
          (record b { events_dropped = b.events_dropped ++ codes "buffer_full" ∷ [] })
unfolding submit
submit_no_room n b o h = ground arith

room-filled : (n : Notification) (b : Buffer) → room (filled b (n ∷ [])) ≡ room b - 1
room-filled n b = omega (arith, length-append b.ch (n ∷ []))

submit_all_fits :
    (idx total : ℕ) (ns : List Notification) (b : Buffer)
    → b.is_closed ≡ false
    → length ns ≤ room b
    → submit_all idx total (map some ns) b ≡ (accepted total, filled b ns)
unfolding submit_all
submit_all_fits idx total [] b o h = ground (arith, append-nil b.ch)
submit_all_fits idx total (n ∷ ns) b o h =
    rw (submit_room n b o (omega arith), submit_all)
      (submit_all_fits (idx + 1) total ns (filled b (n ∷ [])) o (omega (arith, room-filled n b))
        ∙ rw (append_assoc b.ch (n ∷ []) ns))

-- The result of a stop in the rest of the batch, seen from the whole of it.
abbrev stopped : ℕ → ℕ → List Notification → Buffer → Response × Buffer
stopped sent total ch b = (
  unavailable sent total,
  record b { ch = ch; events_dropped = b.events_dropped ++ codes "buffer_full" ∷ [] },
)

stopped_later :
    (idx total : ℕ) (n : Notification) (ns : List Notification) (b : Buffer)
    → room b ≡ suc (room (filled b (n ∷ [])))
    → stopped
        (idx + 1 + room (filled b (n ∷ [])))
        total
        ((b.ch ++ n ∷ []) ++ take (room (filled b (n ∷ []))) ns)
        b
      ≡ stopped (idx + room b) total (b.ch ++ take (room b) (n ∷ ns)) b
stopped_later idx total n ns b e =
    let q = room (filled b (n ∷ [])) in
    let sent : idx + 1 + q ≡ idx + suc q = omega arith in
    rw (e, sent, append_assoc b.ch (n ∷ []) (take q ns))

submit_all_full :
    (idx total : ℕ) (ns : List Notification) (b : Buffer)
    → b.is_closed ≡ false
    → room b < length ns
    → submit_all idx total (map some ns) b ≡ (
      unavailable (idx + room b) total,
      record b {
        ch = b.ch ++ take (room b) ns;
        events_dropped = b.events_dropped ++ codes "buffer_full" ∷ [];
      },
    )
unfolding submit_all
submit_all_full idx total [] b o h = absurd (omega arith)
submit_all_full idx total (n ∷ ns) b o h = elim (Bool-cases (ltb (length b.ch) b.capacity)) [
  | inl more ↦
      let rest =
        submit_all_full (idx + 1) total ns (filled b (n ∷ [])) o
          (omega (arith, room-filled n b, lt_of_ltb _ _ more)) in
      rw (submit_room n b o (lt_of_ltb _ _ more), submit_all)
        (rest ∙ stopped_later idx total n ns b (omega (arith, room-filled n b, lt_of_ltb _ _ more)))
  | inr full ↦
      let zero_room : room b ≡ 0 = ground arith in
      rw (submit_no_room n b o (ground arith), submit_all)
        (rw zero_room (rw (append-nil b.ch, add-zero)))
]

length-normalized :
    (uuid_valid : Text → Bool) (ns : List (Option Notification))
    → All (IsAcceptable uuid_valid) ns
    → length (normalized ns) ≡ length ns
length-normalized uuid_valid [] v = refl
length-normalized uuid_valid (none ∷ ns) v = absurd v.0
length-normalized uuid_valid (some n ∷ ns) v = omega (arith, length-normalized uuid_valid ns v.1)

-- A batch of valid notifications goes into the open buffer in order and normalized. If it fits, all
-- of it is accepted; otherwise exactly as many as there is room for go in, the response tells that
-- number, and one drop is counted.
pub valid_batch_submitted :
    (uuid_valid : Text → Bool) (n : Option Notification) (ns : List (Option Notification))
    (s : Ingest)
    → All (IsAcceptable uuid_valid) (n ∷ ns)
    → s.buffer.is_closed ≡ false
    → (length (n ∷ ns) ≤ room s.buffer
        → serve_http uuid_valid (ok (n ∷ ns)) s ≡ (
          accepted (length (n ∷ ns)),
          record {
            buffer = filled s.buffer (normalized (n ∷ ns));
            ingest_total = s.ingest_total + length (n ∷ ns);
          },
        ))
      × (room s.buffer < length (n ∷ ns)
          → serve_http uuid_valid (ok (n ∷ ns)) s ≡ (
            unavailable (room s.buffer) (length (n ∷ ns)),
            record s {
              buffer = record s.buffer {
                ch = s.buffer.ch ++ take (room s.buffer) (normalized (n ∷ ns));
                events_dropped = s.buffer.events_dropped ++ codes "buffer_full" ∷ [];
              };
            },
          ))
unfolding serve_http serve_batch respond
valid_batch_submitted uuid_valid n ns s v o =
    let total = length (n ∷ ns) in
    let same = length-normalized uuid_valid (n ∷ ns) v in
    (
      λ h.
          rw (validate_all_ok uuid_valid (n ∷ ns) v, serve_batch)
            (rw (submit_all_fits 0 total (normalized (n ∷ ns)) s.buffer o (omega (arith, same)))),
      λ h.
          rw (validate_all_ok uuid_valid (n ∷ ns) v, serve_batch)
            (rw (submit_all_full 0 total (normalized (n ∷ ns)) s.buffer o (omega (arith, same)))
              (rw (zero-add (room s.buffer)))),
    )
