-- ===== src/Ingest.antt =====
-- internal/ingest/http.go: POST /ingest. What `httpx.ReadJSON` makes of the body is an input. The
-- duration histogram and the log are left out; the buffer does not change hands during a request.
pub mod Batches
use csar_notify.Base.{
  Bool, GoError, List, Option, Result, Text, [], codes, err, length, none, ok, plain, some, ℕ, ◌+◌,
  ◌∷◌,
}
use csar_notify.Domain.{Notification, validate_pointer}
use csar_notify.Pipeline.{Buffer, Submitted, panics, returns, submit}

-- The response: an error of ReadJSON, a validation error, Unavailable after so many of so many,
-- Accepted of so many, or the panic of a send on the closed buffer.
pub data Response : Type 0 where
  unreadable : GoError → Response
  invalid : GoError → Response
  unavailable : ℕ → ℕ → Response
  accepted : ℕ → Response
  panicked : Response

-- The first loop. The notifications are pointers, so what validation leaves is what is submitted.
unfoldable pub validate_all :
    (Text → Bool) → List (Option Notification) → Result (List (Option Notification))
validate_all uuid_valid [] = ok []
validate_all uuid_valid (n ∷ rest) =
    let (e, m) = validate_pointer uuid_valid n in
    let later = validate_all uuid_valid rest in
    elim e [ some bad ↦ err bad | none ↦ elim later [ err bad ↦ err bad | ok ms ↦ ok (m ∷ ms) ] ]

-- The second loop, at index `idx` of `total`.
unfoldable pub submit_all : ℕ → ℕ → List (Option Notification) → Buffer → Response × Buffer
submit_all idx total [] b = (accepted total, b)
submit_all idx total (n ∷ rest) b = elim (submit n b) [
  | panics ↦ (panicked, b)
  | returns (some e) b' ↦ (unavailable idx total, b')
  | returns none b' ↦ submit_all (idx + 1) total rest b'
]

-- The counter of accepted notifications.
abbrev count_accepted : Response → ℕ → ℕ
count_accepted (accepted n) total = total + n
count_accepted _ total = total

pub record Ingest : Type 0 where
  pub buffer : Buffer
  pub ingest_total : ℕ

unfoldable pub respond : Response × Buffer → Ingest → Response × Ingest
respond (r, b) s = (r, record { buffer = b; ingest_total = count_accepted r s.ingest_total })

unfoldable pub serve_batch : (Text → Bool) → List (Option Notification) → Ingest → Response × Ingest
serve_batch uuid_valid [] s = (invalid (plain (codes "notifications required")), s)
serve_batch uuid_valid (n ∷ ns) s = elim (validate_all uuid_valid (n ∷ ns)) [
  | err e ↦ (invalid e, s)
  | ok ms ↦ respond (submit_all 0 (length (n ∷ ns)) ms s.buffer) s
]

unfoldable pub serve_http :
    (Text → Bool) → Result (List (Option Notification)) → Ingest → Response × Ingest
serve_http uuid_valid (err e) s = (unreadable e, s)
serve_http uuid_valid (ok notifications) s = serve_batch uuid_valid notifications s
