-- ===== src/PushApi.antt =====
-- internal/pushsubscription/handler.go: the requests on a subject's push subscriptions. As with the
-- preferences, what the gateway put into the request and what `httpx.ReadJSON` makes of its body are
-- inputs, and `uuid.Parse` is the parameter `uuid_valid`; json.Unmarshal of the subscription is the
-- parameter `unmarshal`, none where it returns an error.
pub mod Requests
use csar_notify.Base.{
  Bool, GoError, Option, Result, Text, codes, err, if◌then◌else◌, is_empty, none, ok, plain, some,
  trim_space, ◌||◌,
}
use csar_notify.PreferencesApi.{subject_from_request}

-- type store interface
pub record PushStore (W : Type 0) : Type 0 where
  pub upsert_push_subscription : Text → Text → Text → Text → Text → W → Option GoError × W
  pub delete_push_subscription : Text → Text → W → Option GoError × W

-- subscribeRequest; the subscription is raw JSON.
pub record SubscribeRequest : Type 0 where
  pub subscription : Text
  pub user_agent : Text

-- What post reads of the subscription.
pub record PushSubscription : Type 0 where
  pub endpoint : Text
  pub p256dh : Text
  pub auth : Text

-- The response: an error, or 204.
pub data Reply : Type 0 where
  refused : GoError → Reply
  no_content : Reply

abbrev pub reply_to : Option GoError → Reply
reply_to none = no_content
reply_to (some e) = refused e

unfoldable pub trimmed : PushSubscription → PushSubscription
trimmed sub = record {
  endpoint = trim_space sub.endpoint;
  p256dh = trim_space sub.p256dh;
  auth = trim_space sub.auth;
}

unfoldable pub is_incomplete : PushSubscription → Bool
is_incomplete sub = is_empty sub.endpoint || is_empty sub.p256dh || is_empty sub.auth

module _ {W : Type 0} (uuid_valid : Text → Bool) (store : PushStore W) where
  -- With the trimmed subscription and user agent.
  unfoldable pub save_subscription : Text → PushSubscription → Text → W → Reply × W
  save_subscription subject sub user_agent w =
      if is_incomplete sub
      then (refused (plain (codes "subscription.endpoint and keys are required")), w)
      else (let (e, w') =
            store.upsert_push_subscription subject sub.endpoint sub.p256dh sub.auth user_agent w in
          (reply_to e, w'))

  unfoldable pub read_subscription :
      (Text → Option PushSubscription) → Text → SubscribeRequest → W → Reply × W
  read_subscription unmarshal subject req w = elim (unmarshal req.subscription) [
    | none ↦ (refused (plain (codes "invalid subscription JSON")), w)
    | some sub ↦ save_subscription subject (trimmed sub) (trim_space req.user_agent) w
  ]

  unfoldable pub post :
      (Text → Option PushSubscription) → Option Text → Result SubscribeRequest → W → Reply × W
  post unmarshal identity body w = elim (subject_from_request uuid_valid identity) [
    | err e ↦ (refused e, w)
    | ok subject ↦ elim body [
      | err e ↦ (refused e, w)
      | ok req ↦ read_subscription unmarshal subject req w
    ]
  ]

  -- With the trimmed endpoint.
  unfoldable pub delete_subscription : Text → Text → W → Reply × W
  delete_subscription subject endpoint w =
      if is_empty endpoint
      then (refused (plain (codes "endpoint is required")), w)
      else (let (e, w') = store.delete_push_subscription subject endpoint w in (reply_to e, w'))

  -- delete; the body is a deleteRequest's endpoint.
  unfoldable pub delete : Option Text → Result Text → W → Reply × W
  delete identity body w = elim (subject_from_request uuid_valid identity) [
    | err e ↦ (refused e, w)
    | ok subject ↦ elim body [
      | err e ↦ (refused e, w)
      | ok endpoint ↦ delete_subscription subject (trim_space endpoint) w
    ]
  ]
