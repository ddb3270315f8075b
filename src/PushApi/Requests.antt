-- ===== src/PushApi/Requests.antt =====
-- internal/pushsubscription/handler.go over internal/store/postgres.go: any sequence of requests, and
-- the map from subject and endpoint to a subscription that it comes to.
pub mod Refines
use csar_notify.Base.{
  Bool, GoError, List, Option, Result, Text, [], ap, err, if◌then◌else◌, is_empty, none, ok, refl,
  some, text_eq, trim_space, ℕ, ◌&&◌, ◌∷◌, ◌≡◌, ◌≢◌,
}
use csar_notify.WebPush.{Subscription}
use csar_notify.Store.Push
use csar_notify.Store.Push.{PushRow, is_push_row}
use csar_notify.Store.Push.Keys.{at, Keyed, at-upsert, at-delete}
use csar_notify.PreferencesApi.{subject_from_request}
use csar_notify.PushApi.{
  PushStore, SubscribeRequest, PushSubscription, Reply, no_content, refused, reply_to, trimmed,
  is_incomplete, save_subscription, read_subscription, post, delete_subscription, delete,
}

-- The store of the handler, where it is Postgres: with the database's error and its clock.
abbrev pub postgres_push : Option GoError → ℕ → PushStore (List PushRow)
postgres_push failure now = record {
  upsert_push_subscription = λ subject endpoint p256dh auth user_agent rows.
      Push.upsert_push_subscription failure now subject endpoint p256dh auth user_agent rows;
  delete_push_subscription =
      λ subject endpoint rows. Push.delete_push_subscription failure subject endpoint rows;
}

-- A request, with what the database does in it.
pub data Request : Type 0 where
  posts : Option GoError → ℕ → Option Text → Result SubscribeRequest → Request
  deletes : Option GoError → ℕ → Option Text → Result Text → Request

-- What a request makes of one entry of the map.
pub record Change : Type 0 where
  pub subject : Text
  pub endpoint : Text
  pub value : List Subscription

abbrev pub apply : Option Change → Text → Text → List Subscription → List Subscription
apply none s e so_far = so_far
apply (some c) s e so_far = if text_eq c.subject s && text_eq c.endpoint e then c.value else so_far

abbrev pub stored_change : Text → PushSubscription → Option Change
stored_change subject sub =
    if is_incomplete sub
    then none
    else some (record {
      subject = subject;
      endpoint = sub.endpoint;
      value = record { endpoint = sub.endpoint; p256dh_key = sub.p256dh; auth_key = sub.auth } ∷ [];
    })

abbrev pub removed_change : Text → Text → Option Change
removed_change subject endpoint =
    if is_empty endpoint
    then none
    else some (record { subject = subject; endpoint = endpoint; value = [] })

module _ (uuid_valid : Text → Bool) (unmarshal : Text → Option PushSubscription) where
  abbrev pub handle : Request → List PushRow → Reply × List PushRow
  handle (posts failure now identity body) rows =
      post uuid_valid (postgres_push failure now) unmarshal identity body rows
  handle (deletes failure now identity body) rows =
      delete uuid_valid (postgres_push failure now) identity body rows

  -- The change a request stands for: none with a subject, a body or a subscription that is not valid,
  -- or where the database fails.
  abbrev pub change_of : Request → Option Change
  change_of (posts (some e) now identity body) = none
  change_of (posts none now identity (err e)) = none
  change_of (posts none now identity (ok req)) = elim (subject_from_request uuid_valid identity) [
    | err e ↦ none
    | ok subject ↦ elim (unmarshal req.subscription) [
      | none ↦ none
      | some sub ↦ stored_change subject (trimmed sub)
    ]
  ]
  change_of (deletes (some e) now identity body) = none
  change_of (deletes none now identity (err e)) = none
  change_of (deletes none now identity (ok endpoint)) =
      elim (subject_from_request uuid_valid identity) [
        | err e ↦ none
        | ok subject ↦ removed_change subject (trim_space endpoint)
      ]

  abbrev pub handle_all : List Request → List PushRow → List PushRow
  handle_all [] rows = rows
  handle_all (r ∷ rs) rows = handle_all rs (handle r rows).1

  -- The map after the requests, at one entry.
  abbrev pub entry_after : List Request → Text → Text → List Subscription → List Subscription
  entry_after [] s e so_far = so_far
  entry_after (r ∷ rs) s e so_far = entry_after rs s e (apply (change_of r) s e so_far)

-- A request has made the change, and is answered accordingly.
pub record Made (c : Option Change) (rows : List PushRow) (x : Reply × List PushRow) : Type 0 where
  pub changed : (s e : Text) → at s e x.1 ≡ apply c s e (at s e rows)
  pub accepted : c ≢ none → x.0 ≡ no_content
  pub declined : c ≡ none → (x.0 ≢ no_content) × (x.1 ≡ rows)

pub refused-Made :
    (failure : GoError) (rows : List PushRow) → Made none rows (refused failure, rows)
refused-Made failure rows = record {
  changed = λ s e. refl;
  accepted = λ h. absurd (h refl);
  declined = λ h. (λ n. cc n, refl);
}

pub unchanged-Made :
    (rows : List PushRow) (x : Reply × List PushRow)
    → x.0 ≢ no_content
    → x.1 ≡ rows
    → Made none rows x
unchanged-Made rows x n same = record {
  changed = λ s e. ap (at s e) same;
  accepted = λ h. absurd (h refl);
  declined = λ h. (n, same);
}

pub accepted-Made :
    (c : Change) (rows rows' : List PushRow)
    → ((s e : Text) → at s e rows' ≡ apply (some c) s e (at s e rows))
    → Made (some c) rows (no_content, rows')
accepted-Made c rows rows' h = record { changed = h; accepted = λ n. refl; declined = λ n. cc n }
