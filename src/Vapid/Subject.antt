-- ===== src/Vapid/Subject.antt =====
-- internal/provider/webpush/auth.go: the subject of a token.
use csar_notify.Base.{
  Bool-cases, Text, [], arith, drop_bytes, has_prefix, inl, inr, is_empty, lower, map, ok,
  trim_space, true, ◌++◌, ◌∷◌, ◌≡◌, ◌≢◌, ◌⊎◌,
}
use csar_notify.Vapid.{mailto, https, mailto_subject, vapid_subject}

-- A contact that a push service takes: an https URL, or a mailto URI with an address.
abbrev pub IsContact : Text → Type 0
IsContact t =
    (has_prefix (map lower t) https ≡ true)
    ⊎ ((address : Text) × (t ≡ mailto ++ address) × (address ≢ []))

mailto_subject-ok :
    (value out : Text) → mailto_subject value ≡ ok out → (out ≡ mailto ++ value) × (value ≢ [])
unfolding mailto_subject
mailto_subject-ok [] out h = absurd (ground arith)
mailto_subject-ok (c ∷ value) out h = (ground arith, λ e. cc e)

-- The subject of a token is always a contact.
pub vapid_subject-IsContact : (raw out : Text) → vapid_subject raw ≡ ok out → IsContact out
unfolding vapid_subject
vapid_subject-IsContact raw out h =
    let s = trim_space raw in
    elim (Bool-cases (is_empty s)) [
      | inl e ↦ absurd (ground arith)
      | inr full ↦ elim (Bool-cases (has_prefix (map lower s) https)) [
        | inl url ↦ inl (ground arith)
        | inr other ↦ elim (Bool-cases (has_prefix (map lower s) mailto)) [
          | inl uri ↦
              let value = trim_space (drop_bytes 7 s) in
              let (same, some_left) = mailto_subject-ok value out (ground arith) in
              inr (value, same, some_left)
          | inr bare ↦ inr (s, ground arith, λ e. ground arith)
        ]
      ]
    ]
