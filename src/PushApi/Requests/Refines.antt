-- ===== src/PushApi/Requests/Refines.antt =====
-- internal/pushsubscription/handler.go over internal/store/postgres.go: each request does what it
-- stands for.
use csar_notify.Base.{
  Bool, Bool-cases, GoError, List, Option, Option-cases, Result, Result-cases, Text, [], ap, arith,
  codes, err, if◌then◌else◌, inl, inr, is_empty, length, none, ok, plain, refl, some, subst, sym,
  text_eq, trim_space, ℕ, ◌&&◌, ◌↔◌, ◌∙◌, ◌∷◌, ◌≡◌, ◌≢◌, ◌≤◌,
}
use csar_notify.WebPush.{Subscription}
use csar_notify.Store.Push
use csar_notify.Store.Push.{PushRow, is_push_row}
use csar_notify.Store.Push.Keys.{at, Keyed, at-upsert, at-delete, at_nil}
use csar_notify.PreferencesApi.{subject_from_request}
use csar_notify.PushApi.{
  SubscribeRequest, PushSubscription, no_content, trimmed, is_incomplete, save_subscription,
  read_subscription, post, delete_subscription, delete,
}
use csar_notify.PushApi.Requests.{
  postgres_push, Request, posts, deletes, Change, apply, stored_change, removed_change, handle,
  change_of, handle_all, entry_after, Made, refused-Made, unchanged-Made, accepted-Made,
}

put_entry :
    (now : ℕ) (subject : Text) (sub : PushSubscription) (user_agent : Text) (rows : List PushRow)
    → Keyed rows
    → (s e : Text)
    → at s e
        (Push.upsert_push_subscription none now subject sub.endpoint sub.p256dh sub.auth user_agent
          rows).1
      ≡ (if text_eq subject s && text_eq sub.endpoint e
          then record { endpoint = sub.endpoint; p256dh_key = sub.p256dh; auth_key = sub.auth } ∷ []
          else at s e rows)
unfolding Push.upsert_push_subscription is_push_row
put_entry now subject sub user_agent rows k s e = at-upsert _ rows k s e

module _ (uuid_valid : Text → Bool) where
  -- With a failing database nothing is accepted, and nothing changes.
  post_failed :
      (unmarshal : Text → Option PushSubscription) (f : GoError) (now : ℕ) (identity : Option Text)
      (body : Result SubscribeRequest) (rows : List PushRow)
      → let x = post uuid_valid (postgres_push (some f) now) unmarshal identity body rows in
        (x.0 ≢ no_content) × (x.1 ≡ rows)
  unfolding post read_subscription save_subscription Push.upsert_push_subscription
  post_failed unmarshal f now identity body rows = (λ h. ground (arith, h), ground arith)

  delete_failed :
      (f : GoError) (now : ℕ) (identity : Option Text) (body : Result Text) (rows : List PushRow)
      → let x = delete uuid_valid (postgres_push (some f) now) identity body rows in
        (x.0 ≢ no_content) × (x.1 ≡ rows)
  unfolding delete delete_subscription Push.delete_push_subscription
  delete_failed f now identity body rows = (λ h. ground (arith, h), ground arith)

  post_invalid :
      (unmarshal : Text → Option PushSubscription) (now : ℕ) (identity : Option Text) (f : GoError)
      (rows : List PushRow)
      → let x = post uuid_valid (postgres_push none now) unmarshal identity (err f) rows in
        (x.0 ≢ no_content) × (x.1 ≡ rows)
  unfolding post
  post_invalid unmarshal now identity f rows = (λ h. ground (arith, h), ground arith)

  delete_invalid :
      (now : ℕ) (identity : Option Text) (f : GoError) (rows : List PushRow)
      → let x = delete uuid_valid (postgres_push none now) identity (err f) rows in
        (x.0 ≢ no_content) × (x.1 ≡ rows)
  unfolding delete
  delete_invalid now identity f rows = (λ h. ground (arith, h), ground arith)

  save-Made :
      (now : ℕ) (subject : Text) (sub : PushSubscription) (user_agent : Text) (rows : List PushRow)
      → Keyed rows
      → Made
          (stored_change subject sub)
          rows
          (save_subscription uuid_valid (postgres_push none now) subject sub user_agent rows)
  unfolding save_subscription Push.upsert_push_subscription
  save-Made now subject sub user_agent rows k = elim (Bool-cases (is_incomplete sub)) [
    | inl bad ↦
        rw bad (refused-Made (plain (codes "subscription.endpoint and keys are required")) rows)
    | inr good ↦
        rw good (accepted-Made _ rows _ (λ s e. put_entry now subject sub user_agent rows k s e))
  ]

  remove-Made :
      (now : ℕ) (subject endpoint : Text) (rows : List PushRow)
      → Made
          (removed_change subject endpoint)
          rows
          (delete_subscription uuid_valid (postgres_push none now) subject endpoint rows)
  unfolding delete_subscription Push.delete_push_subscription
  remove-Made now subject endpoint rows = elim (Bool-cases (is_empty endpoint)) [
    | inl bad ↦ rw bad (refused-Made (plain (codes "endpoint is required")) rows)
    | inr good ↦ rw good (accepted-Made _ rows _ (λ s e. at-delete subject endpoint rows s e))
  ]

  handle-Made :
      (unmarshal : Text → Option PushSubscription) (r : Request) (rows : List PushRow)
      → Keyed rows
      → Made (change_of uuid_valid unmarshal r) rows (handle uuid_valid unmarshal r rows)
  unfolding post delete read_subscription
  handle-Made unmarshal (posts (some f) now identity body) rows k =
      let (n, same) = post_failed unmarshal f now identity body rows in unchanged-Made rows _ n same
  handle-Made unmarshal (posts none now identity (err f)) rows k =
      let (n, same) = post_invalid unmarshal now identity f rows in unchanged-Made rows _ n same
  handle-Made unmarshal (posts none now identity (ok req)) rows k =
      elim (Result-cases (subject_from_request uuid_valid identity)) [
        | inl (f, q) ↦ rw (q, change_of, post) (refused-Made f rows)
        | inr (subject, q) ↦ elim (Option-cases (unmarshal req.subscription)) [
          | inl m ↦
              rw (q, m, change_of, post, read_subscription)
                (refused-Made (plain (codes "invalid subscription JSON")) rows)
          | inr (sub, m) ↦
              rw (q, m, change_of, post, read_subscription)
                (save-Made now subject (trimmed sub) (trim_space req.user_agent) rows k)
        ]
      ]
  handle-Made unmarshal (deletes (some f) now identity body) rows k =
      let (n, same) = delete_failed f now identity body rows in unchanged-Made rows _ n same
  handle-Made unmarshal (deletes none now identity (err f)) rows k =
      let (n, same) = delete_invalid now identity f rows in unchanged-Made rows _ n same
  handle-Made unmarshal (deletes none now identity (ok endpoint)) rows k =
      elim (Result-cases (subject_from_request uuid_valid identity)) [
        | inl (f, q) ↦ rw (q, change_of, delete) (refused-Made f rows)
        | inr (subject, q) ↦
            rw (q, change_of, delete) (remove-Made now subject (trim_space endpoint) rows)
      ]

stored_change-bound :
    (subject : Text) (sub : PushSubscription) (c : Change)
    → stored_change subject sub ≡ some c
    → length c.value ≤ 1
stored_change-bound subject sub c h = ground arith

removed_change-bound :
    (subject endpoint : Text) (c : Change)
    → removed_change subject endpoint ≡ some c
    → length c.value ≤ 1
removed_change-bound subject endpoint c h = ground arith

change_of-bound :
    (uuid_valid : Text → Bool) (unmarshal : Text → Option PushSubscription) (r : Request)
    (c : Change)
    → change_of uuid_valid unmarshal r ≡ some c
    → length c.value ≤ 1
change_of-bound uuid_valid unmarshal (posts (some f) now identity body) c h = cc h
change_of-bound uuid_valid unmarshal (posts none now identity (err f)) c h = cc h
change_of-bound uuid_valid unmarshal (posts none now identity (ok req)) c h =
    elim (Result-cases (subject_from_request uuid_valid identity)) [
      | inl (f, q) ↦ absurd (ground (arith, h, q))
      | inr (subject, q) ↦ elim (Option-cases (unmarshal req.subscription)) [
        | inl m ↦ absurd (ground (arith, h, q, m))
        | inr (sub, m) ↦ stored_change-bound subject (trimmed sub) c (ground (arith, h, q, m))
      ]
    ]
change_of-bound uuid_valid unmarshal (deletes (some f) now identity body) c h = cc h
change_of-bound uuid_valid unmarshal (deletes none now identity (err f)) c h = cc h
change_of-bound uuid_valid unmarshal (deletes none now identity (ok endpoint)) c h =
    elim (Result-cases (subject_from_request uuid_valid identity)) [
      | inl (f, q) ↦ absurd (ground (arith, h, q))
      | inr (subject, q) ↦
          removed_change-bound subject (trim_space endpoint) c (ground (arith, h, q))
    ]

apply-bound :
    (c : Option Change) (s e : Text) (so_far : List Subscription)
    → ((d : Change) → c ≡ some d → length d.value ≤ 1)
    → length so_far ≤ 1
    → length (apply c s e so_far) ≤ 1
apply-bound none s e so_far h k = k
apply-bound (some c) s e so_far h k = ground (arith, h c refl)

-- The table keeps its constraint.
handle-Keyed :
    (uuid_valid : Text → Bool) (unmarshal : Text → Option PushSubscription) (r : Request)
    (rows : List PushRow)
    → Keyed rows
    → Keyed (handle uuid_valid unmarshal r rows).1
handle-Keyed uuid_valid unmarshal r rows k s e =
    let v = handle-Made uuid_valid unmarshal r rows k in
    subst (λ (x : List Subscription). length x ≤ 1) (sym (v.changed s e))
      (apply-bound (change_of uuid_valid unmarshal r) s e (at s e rows)
        (change_of-bound uuid_valid unmarshal r) (k s e))

handle_all-Keyed :
    (uuid_valid : Text → Bool) (unmarshal : Text → Option PushSubscription) (rs : List Request)
    (rows : List PushRow)
    → Keyed rows
    → Keyed (handle_all uuid_valid unmarshal rs rows)
handle_all-Keyed uuid_valid unmarshal [] rows k = k
handle_all-Keyed uuid_valid unmarshal (r ∷ rs) rows k =
    handle_all-Keyed uuid_valid unmarshal rs (handle uuid_valid unmarshal r rows).1
      (handle-Keyed uuid_valid unmarshal r rows k)

handle_all-entry :
    (uuid_valid : Text → Bool) (unmarshal : Text → Option PushSubscription) (rs : List Request)
    (rows : List PushRow)
    → Keyed rows
    → (s e : Text)
    → at s e (handle_all uuid_valid unmarshal rs rows)
      ≡ entry_after uuid_valid unmarshal rs s e (at s e rows)
handle_all-entry uuid_valid unmarshal [] rows k s e = refl
handle_all-entry uuid_valid unmarshal (r ∷ rs) rows k s e =
    handle_all-entry uuid_valid unmarshal rs (handle uuid_valid unmarshal r rows).1
      (handle-Keyed uuid_valid unmarshal r rows k) s e
    ∙ ap (entry_after uuid_valid unmarshal rs s e)
        ((handle-Made uuid_valid unmarshal r rows k).changed s e)

-- From an empty table, any sequence of requests to store and to delete push subscriptions leaves what
-- a map from subject and endpoint would hold: the last accepted request for the pair decides, a
-- stored one with its trimmed endpoint and keys, a deletion with nothing, and no other pair is
-- touched. A further request is answered with 204 exactly where it stands for such a change, and
-- changes nothing otherwise; the table never lists an endpoint twice for a subject.
pub requests_keep_map :
    (uuid_valid : Text → Bool) (unmarshal : Text → Option PushSubscription) (rs : List Request)
    (r : Request)
    → let rows = handle_all uuid_valid unmarshal rs [] in
      ((s e : Text) → at s e rows ≡ entry_after uuid_valid unmarshal rs s e [])
      × ((s e : Text) → length (at s e rows) ≤ 1)
      × ((handle uuid_valid unmarshal r rows).0 ≡ no_content
          ↔ (c : Change) × (change_of uuid_valid unmarshal r ≡ some c))
      × (change_of uuid_valid unmarshal r ≡ none → (handle uuid_valid unmarshal r rows).1 ≡ rows)
requests_keep_map uuid_valid unmarshal rs r =
    let k = handle_all-Keyed uuid_valid unmarshal rs [] (λ s e. rw (at_nil s e) (omega arith)) in
    let v = handle-Made uuid_valid unmarshal r (handle_all uuid_valid unmarshal rs []) k in
    (
      λ s e.
          handle_all-entry uuid_valid unmarshal rs [] (λ s e. rw (at_nil s e) (omega arith)) s e
          ∙ ap (entry_after uuid_valid unmarshal rs s e) (at_nil s e),
      k,
      (
        λ h. elim (Option-cases (change_of uuid_valid unmarshal r)) [
          | inl n ↦ absurd ((v.declined n).0 h)
          | inr found ↦ found
        ],
        λ (c, h). v.accepted (λ n. cc (h, n)),
      ),
      λ n. (v.declined n).1,
    )
