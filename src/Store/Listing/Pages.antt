-- ===== src/Store/Listing/Pages.antt =====
-- internal/store/postgres.go: the pages of an inbox.
use csar_notify.Base.{
  Dict, List, Option, Result, Text, [], ap, arith, drop, err, length, none, ok, pos, refl, subst,
  suc, take, zero, ℕ, ◌*◌, ◌++◌, ◌+◌, ◌∙◌, ◌∷◌, ◌≡◌, ◌≤◌,
}
use csar_notify.Domain.{Delivery}
use csar_notify.Store.{DeliveryRow}
use csar_notify.Store.Listing.{
  NotificationRow, list_inbox, listed, effective_limit, effective_offset,
}

take_nil : {A : Type 0} (n : ℕ) → ◌≡◌ {A = List A} (take n []) []
take_nil zero = refl
take_nil (suc n) = refl

take_append :
    {A : Type 0} (a b : ℕ) (xs : List A) → take a xs ++ take b (drop a xs) ≡ take (a + b) xs
take_append {A} zero b xs = ground arith
take_append {A} (suc a) b [] = rw (take_nil {A = A} b, take_nil {A = A} (suc a + b)) refl
take_append {A} (suc a) b (x ∷ xs) =
    let e : suc (a + b) ≡ suc a + b = omega arith in
    subst (λ t. x ∷ take a xs ++ take b (drop a xs) ≡ take t (x ∷ xs)) e
      (ap (◌∷◌ x) (take_append a b xs))

take_all : {A : Type 0} (n : ℕ) (xs : List A) → length xs ≤ n → take n xs ≡ xs
take_all zero [] h = refl
take_all zero (x ∷ xs) h = ground arith
take_all (suc n) [] h = refl
take_all (suc n) (x ∷ xs) h = ap (◌∷◌ x) (take_all n xs (omega (arith, h)))

-- The items of an answer.
abbrev pub items_of : Result (List Delivery) → List Delivery
items_of (err e) = []
items_of (ok items) = items

effective_limit-within : (limit : ℕ) → 1 ≤ limit → limit ≤ 100 → effective_limit (pos limit) ≡ limit
unfolding effective_limit
effective_limit-within zero h k = ground arith
effective_limit-within (suc n) h k = ground arith

module _ (unmarshal : Text → Option (Dict Text)) (order_by : List Delivery → List Delivery)
    (recipient : Text) (notifications : List NotificationRow) (rows : List DeliveryRow) where
  -- The first `count` pages of `limit` items, one after the other.
  abbrev pub pages : ℕ → ℕ → List Delivery
  pages limit zero = []
  pages limit (suc count) =
      pages limit count
      ++ items_of (
          list_inbox unmarshal order_by none recipient (pos limit) (pos (count * limit))
            notifications rows)

  pages-take :
      (limit count : ℕ)
      → 1 ≤ limit
      → limit ≤ 100
      → pages limit count
        ≡ take (count * limit) (order_by (listed unmarshal recipient notifications rows))
  unfolding list_inbox effective_offset
  pages-take limit zero h k =
      let all = order_by (listed unmarshal recipient notifications rows) in
      let e : 0 ≡ 0 * limit = omega arith in
      subst (λ t. ◌≡◌ {A = List Delivery} [] (take t all)) e refl
  pages-take limit (suc count) h k =
      let all = order_by (listed unmarshal recipient notifications rows) in
      let grown : count * limit + limit ≡ suc count * limit = omega arith in
      rw (effective_limit-within limit h k, pages-take limit count h k)
        (subst (λ t. take (count * limit) all ++ take limit (drop (count * limit) all) ≡ take t all)
          grown (take_append (count * limit) limit all))

  -- Read page by page, with a limit from 1 to 100, an inbox gives each of its entries once and in the
  -- order of the query, as soon as the pages are enough for all.
  pub inbox_pages :
      (limit count : ℕ)
      → 1 ≤ limit
      → limit ≤ 100
      → length (order_by (listed unmarshal recipient notifications rows)) ≤ count * limit
      → pages limit count ≡ order_by (listed unmarshal recipient notifications rows)
  inbox_pages limit count h k enough =
      pages-take limit count h k
      ∙ take_all (count * limit) (order_by (listed unmarshal recipient notifications rows)) enough
