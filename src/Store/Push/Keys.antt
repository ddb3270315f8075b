-- ===== src/Store/Push/Keys.antt =====
-- internal/store/postgres.go: the push subscriptions as a map from subject and endpoint.
use csar_notify.Base.{
  List, Text, [], arith, if◌then◌else◌, length, refl, text_eq, text_eq_iff, true, ◌&&◌, ◌↔◌, ◌∷◌,
  ◌≡◌, ◌≤◌,
}
use csar_notify.WebPush.{Subscription}
use csar_notify.Store.Push.{PushRow, is_push_row, upsert_push_row, delete_push_rows, push_rows_of}

-- The subscriptions with the endpoint.
abbrev with_endpoint : Text → List Subscription → List Subscription
with_endpoint endpoint [] = []
with_endpoint endpoint (sub ∷ subs) =
    let rest = with_endpoint endpoint subs in
    if text_eq sub.endpoint endpoint then sub ∷ rest else rest

-- What is listed of a subject for an endpoint.
abbrev pub at : Text → Text → List PushRow → List Subscription
at subject endpoint rows = with_endpoint endpoint (push_rows_of subject rows)

-- The table's unique constraint: no two rows for a subject and an endpoint.
abbrev pub Keyed : List PushRow → Type 0
Keyed rows = (subject endpoint : Text) → length (at subject endpoint rows) ≤ 1

abbrev subscription_of : PushRow → Subscription
subscription_of row = record {
  endpoint = row.endpoint;
  p256dh_key = row.p256dh_key;
  auth_key = row.auth_key;
}

at-cons :
    (subject endpoint : Text) (row : PushRow) (rows : List PushRow)
    → at subject endpoint (row ∷ rows) ≡ (
        if is_push_row subject endpoint row
        then subscription_of row ∷ at subject endpoint rows
        else at subject endpoint rows)
unfolding push_rows_of is_push_row
at-cons subject endpoint row rows = ground arith

pub at_nil : (subject endpoint : Text) → at subject endpoint [] ≡ []
unfolding push_rows_of
at_nil subject endpoint = refl

Keyed-tail : (row : PushRow) (rows : List PushRow) → Keyed (row ∷ rows) → Keyed rows
Keyed-tail row rows k subject endpoint =
    ground (arith, k subject endpoint, at-cons subject endpoint row rows)

is_push_row_iff :
    (subject endpoint : Text) (row : PushRow)
    → (is_push_row subject endpoint row ≡ true)
      ↔ ((row.subject ≡ subject) × (row.endpoint ≡ endpoint))
unfolding is_push_row
is_push_row_iff subject endpoint row =
    ground (arith, text_eq_iff row.subject subject, text_eq_iff row.endpoint endpoint)

empty_of : (subs : List Subscription) → length subs ≤ 0 → subs ≡ []
empty_of [] h = refl
empty_of (sub ∷ subs) h = ground arith

only_one :
    (subject endpoint : Text) (row : PushRow) (rows : List PushRow)
    → length (at subject endpoint (row ∷ rows)) ≤ 1
    → is_push_row subject endpoint row ≡ true
    → at subject endpoint rows ≡ []
only_one subject endpoint row rows k h =
    empty_of (at subject endpoint rows) (ground (arith, k, h, at-cons subject endpoint row rows))

pub at-upsert :
    (new : PushRow) (rows : List PushRow)
    → Keyed rows
    → (subject endpoint : Text)
    → at subject endpoint (upsert_push_row new rows) ≡ (
        if is_push_row subject endpoint new
        then subscription_of new ∷ []
        else at subject endpoint rows)
unfolding upsert_push_row
at-upsert new [] k subject endpoint =
    ground (arith, at-cons subject endpoint new [], at_nil subject endpoint)
at-upsert new (row ∷ rows) k subject endpoint =
    let updated = record row {
      p256dh_key = new.p256dh_key;
      auth_key = new.auth_key;
      user_agent = new.user_agent;
      updated_at = new.updated_at;
    } in
    ground (
      arith,
      at-upsert new rows (Keyed-tail row rows k) subject endpoint,
      at-cons subject endpoint updated rows,
      at-cons subject endpoint row rows,
      at-cons subject endpoint row (upsert_push_row new rows),
      only_one subject endpoint row rows (k subject endpoint),
      is_push_row_iff new.subject new.endpoint row,
      is_push_row_iff subject endpoint row,
      is_push_row_iff subject endpoint new,
      is_push_row_iff subject endpoint updated,
    )

pub at-delete :
    (subject endpoint : Text) (rows : List PushRow) (s e : Text)
    → at s e (delete_push_rows subject endpoint rows)
      ≡ (if text_eq subject s && text_eq endpoint e then [] else at s e rows)
unfolding delete_push_rows
at-delete subject endpoint [] s e = ground (arith, at_nil s e)
at-delete subject endpoint (row ∷ rows) s e = ground (
  arith,
  at-delete subject endpoint rows s e,
  at-cons s e row rows,
  at-cons s e row (delete_push_rows subject endpoint rows),
  is_push_row_iff subject endpoint row,
  is_push_row_iff s e row,
  text_eq_iff subject s,
  text_eq_iff endpoint e,
)
