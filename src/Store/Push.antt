-- ===== src/Store/Push.antt =====
-- internal/store/postgres.go: the table of push subscriptions, with what Store.antt says of the
-- database. The generated id of a row is left out; the key is the pair of subject and endpoint.
pub mod Keys
use csar_notify.Base.{
  Bool, GoError, List, Option, Result, Text, [], codes, err, if◌then◌else◌, is_empty, none, ok,
  some, text_eq, wrapped, ℕ, ◌&&◌, ◌∷◌,
}
use csar_notify.WebPush.{Subscription}

pub record PushRow : Type 0 where
  pub subject : Text
  pub endpoint : Text
  pub p256dh_key : Text
  pub auth_key : Text
  pub user_agent : Option Text
  pub created_at : ℕ
  pub updated_at : ℕ

-- subject = $1 AND endpoint = $2
unfoldable pub is_push_row : Text → Text → PushRow → Bool
is_push_row subject endpoint row = text_eq row.subject subject && text_eq row.endpoint endpoint

-- INSERT ... ON CONFLICT (subject, endpoint) DO UPDATE
unfoldable pub upsert_push_row : PushRow → List PushRow → List PushRow
upsert_push_row new [] = new ∷ []
upsert_push_row new (row ∷ rows) =
    let rest = upsert_push_row new rows in
    if is_push_row new.subject new.endpoint row
    then record row {
      p256dh_key = new.p256dh_key;
      auth_key = new.auth_key;
      user_agent = new.user_agent;
      updated_at = new.updated_at;
    }
      ∷ rows
    else row ∷ rest

-- NULLIF($5, '')
abbrev pub null_if_empty : Text → Option Text
null_if_empty s = if is_empty s then none else some s

unfoldable pub upsert_push_subscription :
    Option GoError
    → ℕ
    → Text
    → Text
    → Text
    → Text
    → Text
    → List PushRow
    → Option GoError × List PushRow
upsert_push_subscription (some e) now subject endpoint p256dh auth user_agent rows =
    (some (wrapped (codes "upsert push subscription") e), rows)
upsert_push_subscription none now subject endpoint p256dh auth user_agent rows = (
  none,
  upsert_push_row
      (record {
        subject = subject;
        endpoint = endpoint;
        p256dh_key = p256dh;
        auth_key = auth;
        user_agent = null_if_empty user_agent;
        created_at = now;
        updated_at = now;
      })
      rows,
)

unfoldable pub delete_push_rows : Text → Text → List PushRow → List PushRow
delete_push_rows subject endpoint [] = []
delete_push_rows subject endpoint (row ∷ rows) =
    let rest = delete_push_rows subject endpoint rows in
    if is_push_row subject endpoint row then rest else row ∷ rest

unfoldable pub delete_push_subscription :
    Option GoError → Text → Text → List PushRow → Option GoError × List PushRow
delete_push_subscription (some e) subject endpoint rows =
    (some (wrapped (codes "delete push subscription") e), rows)
delete_push_subscription none subject endpoint rows = (none, delete_push_rows subject endpoint rows)

unfoldable pub push_rows_of : Text → List PushRow → List Subscription
push_rows_of subject [] = []
push_rows_of subject (row ∷ rows) =
    let rest = push_rows_of subject rows in
    if text_eq row.subject subject
    then record { endpoint = row.endpoint; p256dh_key = row.p256dh_key; auth_key = row.auth_key }
      ∷ rest
    else rest

unfoldable pub list_push_subscriptions :
    Option GoError → Text → List PushRow → Result (List Subscription)
list_push_subscriptions (some e) subject rows = err (wrapped (codes "list push subscriptions") e)
list_push_subscriptions none subject rows = ok (push_rows_of subject rows)
