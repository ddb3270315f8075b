-- ===== src/Tests/Sends.antt =====
-- Dispatching, and the providers.
use csar_notify.Base.{
  All, Any, GoError, In, List, Option, Result, Text, [], codes, inl, inr, join_all, map, none, ok,
  refl, some, suc, text_eq, trim_space, true, zero, ℕ, ◌++◌, ◌+◌, ◌↔◌, ◌∷◌, ◌≡◌, ◌≢◌, ◌⊎◌,
}
use csar_notify.Domain.{
  Delivery, Notification, Preference, normalize, topic_matches, channel_site, channel_web_push,
  channel_email,
}
use csar_notify.Domain.Validation.{IsValid}
use csar_notify.Dispatch.{State, targets_for, send_recipients, dispatch}
use csar_notify.Dispatch.Channels.{
  OptedOut, channels_of, Disables, targets_for-OptedOut, targets_for_preferences,
  targets_for_explicit,
}
use csar_notify.Dispatch.Trace.{Deliveries, dispatch_run}
use csar_notify.Dispatch.Attempts.{after_sends, label_of, all_planned, send_recipients_attempts}
use csar_notify.Provider.Errors.{is_permanent_channel_only}
use csar_notify.WebPush.{Subscription, SubscriptionStore, Answer, answered, send_all}
use csar_notify.WebPush.Outcomes.{outcomes, IsFailure, IsNotTemporary, send_all_permanent_iff}
use csar_notify.Telegram.{BotConfig, Telegram, Pref, check_answer, send}
use csar_notify.Telegram.Bots.{Ready, send_posts}
use csar_notify.Tests.Data.{
  ann, bob, known, order, on_site, on_push, off_push, both, service, quiet,
}

pub order-IsValid : IsValid known (normalize order)
unfolding normalize csar_notify.Domain.unique_strings csar_notify.Domain.unique_loop
    csar_notify.Base.trim_space csar_notify.Domain.is_seen csar_notify.Base.text_eq
    csar_notify.Domain.unique_channels
order-IsValid = record {
  id_ok = inl refl;
  has_topic = λ e. cc e;
  has_title = λ e. cc e;
  priority_known = inr (inr (inl refl));
  recipients_ok = (refl, (refl, tt));
  channels_known = tt;
}

dispatch_run_example :
    (fs : List GoError) × (t : State ℕ) × Deliveries service
      (normalize order)
      (ann ∷ bob ∷ [])
      quiet
      fs
      t
    × (dispatch service known order quiet ≡ (join_all none fs, t))
unfolding csar_notify.Dispatch.resolve_recipients normalize csar_notify.Domain.unique_strings
    csar_notify.Domain.unique_loop csar_notify.Base.trim_space csar_notify.Domain.is_seen
    csar_notify.Base.text_eq
dispatch_run_example =
    dispatch_run service known order (normalize order) quiet quiet 0 (ann ∷ bob ∷ []) order-IsValid
      refl refl

send_recipients_attempts_example :
    ((send_recipients service order (ann ∷ bob ∷ []) none quiet).1.world
      ≡ after_sends service order (all_planned service order both (ann ∷ bob ∷ [])) 0)
    × ((send_recipients service order (ann ∷ bob ∷ []) none quiet).1.provider_sends
        ≡ [] ++ map label_of (all_planned service order both (ann ∷ bob ∷ [])))
send_recipients_attempts_example =
    send_recipients_attempts service order both (λ r w. refl) (ann ∷ bob ∷ []) none quiet

off_push-OptedOut : OptedOut channel_web_push (on_site ∷ off_push ∷ [])
off_push-OptedOut = (inr (inl refl), (λ e. cc e, (λ e. refl, tt)))

targets_for-OptedOut_example :
    ¬ In channel_web_push (channels_of (targets_for (on_site ∷ off_push ∷ []) order))
targets_for-OptedOut_example =
    targets_for-OptedOut channel_web_push (on_site ∷ off_push ∷ []) order off_push-OptedOut

targets_for_preferences_example :
    ((on_site ∷ on_push ∷ []) ≢ []
      → In channel_web_push (channels_of (targets_for (on_site ∷ on_push ∷ []) order))
        ↔ Any
            (λ (p : Preference).
              (p.channel ≡ channel_web_push)
              × (p.enabled ≡ true)
              × (topic_matches p.topics order.topic ≡ true))
            (on_site ∷ on_push ∷ []))
    × ((on_site ∷ on_push ∷ []) ≡ []
        → channels_of (targets_for (on_site ∷ on_push ∷ []) order) ≡ channel_site ∷ [])
targets_for_preferences_example =
    targets_for_preferences channel_web_push (on_site ∷ on_push ∷ []) order refl

abbrev by_email : Notification
by_email = record order { channels = channel_email ∷ channel_web_push ∷ [] }

targets_for_explicit_example :
    In channel_email (channels_of (targets_for (on_site ∷ off_push ∷ []) by_email)) ↔ (
      In channel_email by_email.channels × ¬ Any (Disables channel_email) (on_site ∷ off_push ∷ []))
targets_for_explicit_example =
    targets_for_explicit channel_email (on_site ∷ off_push ∷ []) by_email (λ e. cc e)
      (λ i. elim i [ inl e ↦ cc e | inr x ↦ absurd x ], (λ i. absurd i, tt))

abbrev laptop : Subscription
laptop = record { endpoint = codes "https://push/1"; p256dh_key = codes "k"; auth_key = codes "a" }

abbrev phone : Subscription
phone = record laptop { endpoint = codes "https://push/2" }

-- The state of the world is the number of answers so far.
abbrev subscriptions : SubscriptionStore ℕ
subscriptions = record {
  list_push_subscriptions = λ subject w. (ok (laptop ∷ phone ∷ []), w);
  delete_push_subscription = λ subject endpoint w. (none, w);
}

abbrev status_at : ℕ → ℕ
status_at zero = 410
status_at (suc w) = 403

abbrev push : Text → Subscription → ℕ → Answer × ℕ
push payload sub w = (answered (status_at w) [], w + 1)

abbrev no_reason : Text → Option Text
no_reason body = none

send_all_permanent_iff_example :
    (is_permanent_channel_only
        (send_all no_reason subscriptions push ann (codes "{}") (laptop ∷ phone ∷ []) none 0).0
        channel_web_push
      ≡ true)
    ↔ (Any IsFailure
          (outcomes no_reason subscriptions push ann (codes "{}") (laptop ∷ phone ∷ []) 0)
        × All IsNotTemporary
            (outcomes no_reason subscriptions push ann (codes "{}") (laptop ∷ phone ∷ []) 0))
send_all_permanent_iff_example =
    send_all_permanent_iff no_reason subscriptions push ann (codes "{}") (laptop ∷ phone ∷ []) 0

abbrev shop_bot : BotConfig
shop_bot = record { token = codes "t"; api_base_url = codes "https://tg" }

abbrev bots : Telegram
bots = record { bots = (codes "shop", shop_bot) ∷ []; default_bot = codes "news" }

abbrev shop_pref : Pref
shop_pref = record { chat_id = codes "7"; bot = codes " shop" }

abbrev pack : Text → Text → Result Text
pack chat text = ok text

abbrev no_request_error : Text → Option GoError
no_request_error url = none

abbrev post : Text → Text → ℕ → csar_notify.Telegram.Answer × ℕ
post url body w = (csar_notify.Telegram.answered 200 [], w + 1)

abbrev decode_shop : Text → Result Pref
decode_shop config = ok shop_pref

send_posts_example :
    let result = send bots decode_shop pack no_request_error post order ann (codes "{}") 0 in
    ((r : Ready bots decode_shop pack no_request_error post order ann (codes "{}")) × (result ≡ (
      check_answer
          (post
            (r.bot.api_base_url ++ codes "/bot" ++ r.bot.token ++ codes "/sendMessage")
            r.body
            0).0,
      (post (r.bot.api_base_url ++ codes "/bot" ++ r.bot.token ++ codes "/sendMessage") r.body 0).1,
    )))
    ⊎ (¬ Ready bots decode_shop pack no_request_error post order ann (codes "{}")
        × ((e : GoError) × (result ≡ (some e, 0))))
send_posts_example = send_posts bots decode_shop pack no_request_error post order ann (codes "{}") 0
