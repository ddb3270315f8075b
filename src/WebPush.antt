-- ===== src/WebPush.antt =====
-- internal/provider/webpush/webpush.go: a notification goes to each browser subscription of its
-- recipient. Outside: the store, `json.Marshal` of the payload, `json.Unmarshal` of an answer's body,
-- and `webpush.SendNotificationWithContext` with the options of the configuration. Logging is left out.
pub mod Outcomes
use csar_notify.Base.{
  Bool, Dict, GoError, List, Option, Result, Text, [], codes, err, if◌then◌else◌, is_empty,
  join_failure, leb, ltb, none, ok, plain, some, text_eq, trim_space, wrapped, ℕ, ◌&&◌, ◌++◌, ◌==◌,
  ◌||◌, ◌∷◌,
}
use csar_notify.Domain.{Notification, channel_web_push}
use csar_notify.Provider.{Provider}
use csar_notify.Provider.Errors.{permanent_send_error, temporary_send_error}

-- store.PushSubscriptionRow
pub record Subscription : Type 0 where
  pub endpoint : Text
  pub p256dh_key : Text
  pub auth_key : Text

-- type subscriptionStore interface
pub record SubscriptionStore (W : Type 0) : Type 0 where
  pub list_push_subscriptions : Text → W → Result (List Subscription) × W
  pub delete_push_subscription : Text → Text → W → Option GoError × W

pub record Payload : Type 0 where
  pub title : Text
  pub body : Text
  pub link : Text
  pub tag : Text
  pub metadata : Dict Text

-- What the library returns: an error, neither an error nor a response, or a response with what was
-- read of its body.
pub data Answer : Type 0 where
  failed : GoError → Answer
  no_response : Answer
  answered : ℕ → Text → Answer

unfoldable pub tag_of : Text → Text
tag_of id = if is_empty id then codes "support-notify" else codes "notify-" ++ id

unfoldable pub payload_of : Notification → Payload
unfolding tag_of
payload_of n = record {
  title = n.title;
  body = n.body;
  link = n.link;
  tag = tag_of n.id;
  metadata = n.metadata;
}

-- The error of an unexpected status; the number in its text is left out.
unfoldable pub status_error : Text → GoError
status_error body_text =
    let unexpected = plain (codes "web push unexpected status") in
    if is_empty body_text then unexpected else wrapped (codes ": " ++ body_text) unexpected

-- `reason_of` has the "reason" of a body that is such JSON.
module _ (reason_of : Text → Option Text) where
  unfoldable pub web_push_failure_reason : Text → Text
  web_push_failure_reason body = elim (reason_of body) [
    | none ↦ []
    | some reason ↦ trim_space reason
  ]

  unfoldable pub is_permanent_web_push_failure : ℕ → Text → Bool
  unfolding web_push_failure_reason
  is_permanent_web_push_failure status body =
      (status == 429
        && text_eq (web_push_failure_reason body) (codes "TooManyProviderTokenUpdates"))
      || status == 400
      || status == 403
      || status == 404
      || status == 410

  -- What a response other than 404 and 410 joins to the error.
  unfoldable pub status_failure : ℕ → Text → Option GoError
  status_failure status body_text =
      if ltb status 200 || leb 300 status
      then if is_permanent_web_push_failure status body_text
        then permanent_send_error channel_web_push (some (status_error body_text))
        else temporary_send_error channel_web_push (some (status_error body_text))
      else none

  module _ {W : Type 0} (store : SubscriptionStore W)
      (post : Text → Subscription → W → Answer × W) where
    unfoldable pub on_answer : Text → Subscription → Answer → W → Option GoError × W
    on_answer recipient sub (failed e) w = (temporary_send_error channel_web_push (some e), w)
    on_answer recipient sub no_response w = (none, w)
    on_answer recipient sub (answered status body) w =
        let (del_err, w') = store.delete_push_subscription recipient sub.endpoint w in
        if status == 404 || status == 410
        then (temporary_send_error channel_web_push del_err, w')
        else (status_failure status (trim_space body), w)

    -- One round of the loop.
    unfoldable pub send_one : Text → Text → Subscription → W → Option GoError × W
    send_one recipient payload sub w =
        let (a, w') = post payload sub w in on_answer recipient sub a w'

    unfoldable pub send_all :
        Text → Text → List Subscription → Option GoError → W → Option GoError × W
    send_all recipient payload [] send_err w = (send_err, w)
    send_all recipient payload (sub ∷ rest) send_err w =
        let (e, w') = send_one recipient payload sub w in
        send_all recipient payload rest (join_failure send_err e) w'

    -- Send, after the subscriptions are listed
    unfoldable pub send_to :
        (Payload → Result Text) → Notification → Text → List Subscription → W → Option GoError × W
    send_to marshal n recipient [] w = (none, w)
    send_to marshal n recipient (sub ∷ subs) w = elim (marshal (payload_of n)) [
      | err e ↦ (some (wrapped (codes "marshal web push payload") e), w)
      | ok payload ↦ send_all recipient payload (sub ∷ subs) none w
    ]

    unfoldable pub send :
        (Payload → Result Text) → Notification → Text → Text → W → Option GoError × W
    send marshal n recipient pref_config w =
        let (r, w') = store.list_push_subscriptions recipient w in
        elim r [
          | err e ↦ (some (wrapped (codes "list push subscriptions") e), w')
          | ok subs ↦ send_to marshal n recipient subs w'
        ]

    -- The provider; Close does nothing.
    unfoldable pub web_push : (Payload → Result Text) → Provider W
    web_push marshal = record {
      name = codes "web_push";
      channel = channel_web_push;
      send = send marshal;
      close = λ w. (none, w);
    }
