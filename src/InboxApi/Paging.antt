-- ===== src/InboxApi/Paging.antt =====
-- internal/inbox/handler.go: the page that a request gets.
use csar_notify.Base.{
  Bool, List, Option, Result-cases, Text, [], ap, arith, inl, inr, int_le, ok, pos, some, true, ℤ,
  ◌∙◌, ◌∷◌, ◌≡◌,
}
use csar_notify.Domain.{Delivery}
use csar_notify.PreferencesApi.{subject_from_request, subject_from_request-ok}
use csar_notify.InboxApi.{InboxStore, page, limit_param, offset_param, page_params, show_page, list}

-- A limit from 1 to 100.
abbrev pub InLimits : ℤ → Type 0
InLimits limit = (int_le (pos 1) limit ≡ true) × (int_le limit (pos 100) ≡ true)

module _ (atoi : Text → Option ℤ) where
  limit_param-InLimits : (raw : Text) {limit : ℤ} → limit_param atoi raw ≡ ok limit → InLimits limit
  unfolding limit_param
  limit_param-InLimits [] {limit} h = ground arith
  limit_param-InLimits (c ∷ raw) {limit} h = ground arith

  offset_param-bound :
      (raw : Text) {offset : ℤ} → offset_param atoi raw ≡ ok offset → int_le (pos 0) offset ≡ true
  unfolding offset_param
  offset_param-bound [] {offset} h = ground arith
  offset_param-bound (c ∷ raw) {offset} h = ground arith

  page_params-parts :
      (raw_limit raw_offset : Text) (limit offset : ℤ)
      → page_params atoi raw_limit raw_offset ≡ ok (limit, offset)
      → (limit_param atoi raw_limit ≡ ok limit) × (offset_param atoi raw_offset ≡ ok offset)
  unfolding page_params
  page_params-parts raw_limit raw_offset limit offset h = ground arith

module _ {W : Type 0} (uuid_valid : Text → Bool) (store : InboxStore W)
    (atoi : Text → Option ℤ) where
  show_page-page :
      (subject : Text) (params : ℤ × ℤ) (w w' : W) (items : List Delivery) (limit offset : ℤ)
      → show_page uuid_valid store subject params w ≡ (page items limit offset, w')
      → (params ≡ (limit, offset)) × (store.list_inbox subject limit offset w ≡ (ok items, w'))
  unfolding show_page
  show_page-page subject (l, o) w w' items limit offset h = ground (arith, h)

  -- A request that is answered with a page has a gateway subject that is a valid UUID, and the items
  -- are what the store lists for that subject with exactly the limit and the offset that the answer
  -- names, those of the query or 50 and 0: the limit is from 1 to 100, and the offset not negative.
  pub list-page :
      (identity : Option Text) (raw_limit raw_offset : Text) (w w' : W) (items : List Delivery)
      (limit offset : ℤ)
      → list uuid_valid store atoi identity raw_limit raw_offset w ≡ (page items limit offset, w')
      → (subject : Text) × (identity ≡ some subject)
        × (uuid_valid subject ≡ true)
        × (store.list_inbox subject limit offset w ≡ (ok items, w'))
        × (page_params atoi raw_limit raw_offset ≡ ok (limit, offset))
        × InLimits limit
        × (int_le (pos 0) offset ≡ true)
  unfolding list
  list-page identity raw_limit raw_offset w w' items limit offset h =
      elim (Result-cases (subject_from_request uuid_valid identity)) [
        | inl (e, q) ↦ absurd (ground (arith, h, q))
        | inr (subject, q) ↦ elim (Result-cases (page_params atoi raw_limit raw_offset)) [
          | inl (e, k) ↦ absurd (ground (arith, h, q, k))
          | inr (params, k) ↦
              let shown : show_page uuid_valid store subject params w
                  ≡ (page items limit offset, w') =
                ground (arith, h, q, k) in
              let (same, listed) = show_page-page subject params w w' items limit offset shown in
              let (is, valid) = subject_from_request-ok uuid_valid identity subject q in
              let parsed = k ∙ ap (ok) same in
              let (l, o) = page_params-parts atoi raw_limit raw_offset limit offset parsed in
              (
                subject,
                is,
                valid,
                listed,
                parsed,
                limit_param-InLimits atoi raw_limit l,
                offset_param-bound atoi raw_offset o,
              )
        ]
      ]
