-- ===== src/Config/Load.antt =====
-- internal/config/config.go: LoadFromBytes with its defaults and checks. Parsing of YAML and the
-- environment are the parameter `parse`. Durations are in milliseconds; the sample ratio, a float, is
-- in millionths. `url.Parse`, `mail.ParseAddress` and `strings.EqualFold` are the record `Contacts`.
pub mod Defaults
pub mod Checked
use csar_notify.Base.{
  Bool, Dict, GoError, List, Option, Result, Text, [], codes, drop_bytes, err, false, has_prefix,
  if◌then◌else◌, int_le, is_empty, lower, map, negsuc, none, not, ok, plain, pos, some, suc,
  text_eq, trim_space, true, wrapped, zero, ℕ, ℤ, ◌||◌, ◌∷◌,
}
use csar_notify.Telegram.{BotConfig, telegram_api}
use csar_notify.Config.{
  SiteProviderConfig, TelegramProviderConfig, effective_bots, effective_targets,
}

pub record ServiceConfig : Type 0 where
  pub name : Text
  pub port : ℤ
  pub health_port : ℤ

pub record RabbitmqConfig : Type 0 where
  pub url : Text
  pub reconnect_delay : ℤ

pub record RedisConfig : Type 0 where
  pub url : Text
  pub prefix : Text

pub record IngestConfig : Type 0 where
  pub buffer_size : ℤ
  pub publisher_workers : ℤ

pub record QueueConfig : Type 0 where
  pub name : Text
  pub durable : Bool
  pub prefetch : ℤ

pub record DlqConfig : Type 0 where
  pub name : Text
  pub durable : Bool

pub record ConsumerConfig : Type 0 where
  pub queue : QueueConfig
  pub dlq : DlqConfig
  pub batch_size : ℤ
  pub flush_interval : ℤ
  pub max_redeliveries : ℤ

pub record WebPushProviderConfig : Type 0 where
  pub enabled : Bool
  pub subscriber : Text
  pub vapid_public_key : Text
  pub vapid_private_key : Text

pub record ProvidersConfig : Type 0 where
  pub site : SiteProviderConfig
  pub telegram : TelegramProviderConfig
  pub email_enabled : Bool
  pub web_push : WebPushProviderConfig

-- type Config struct, without the TLS section
pub record Config : Type 0 where
  pub service : ServiceConfig
  pub dsn : Text
  pub rabbitmq : RabbitmqConfig
  pub redis : RedisConfig
  pub ingest : IngestConfig
  pub consumer : ConsumerConfig
  pub providers : ProvidersConfig
  pub allowed_client_cn : Text
  pub tracing_endpoint : Text
  pub sample_ratio : ℤ

-- The zero value of a text or a number gives way to the default.
abbrev pub or_text : Text → Text → Text
or_text t default = if is_empty t then default else t

abbrev pub or_int : ℤ → ℕ → ℤ
or_int (pos zero) default = pos default
or_int (pos (suc n)) default = pos (suc n)
or_int (negsuc n) default = negsuc n

-- The loop over the bots.
unfoldable pub default_bots : Text → Dict BotConfig → Dict BotConfig
default_bots url [] = []
default_bots url ((name, bot) ∷ rest) =
    (
      name,
      record bot {
        api_base_url = if is_empty (trim_space bot.api_base_url) then url else bot.api_base_url;
      },
    )
    ∷ default_bots url rest

unfoldable pub default_telegram : TelegramProviderConfig → TelegramProviderConfig
default_telegram t =
    let url = or_text t.api_base_url telegram_api in
    record t { api_base_url = url; bots = default_bots url t.bots }

unfoldable pub default_consumer : ConsumerConfig → ConsumerConfig
default_consumer c = record {
  queue = record c.queue {
    name = or_text c.queue.name (codes "notify.events");
    prefetch = or_int c.queue.prefetch 200;
  };
  dlq = record c.dlq { name = or_text c.dlq.name (codes "notify.events.dlq") };
  batch_size = or_int c.batch_size 200;
  flush_interval = or_int c.flush_interval 2000;
  max_redeliveries = or_int c.max_redeliveries 3;
}

unfoldable pub defaults : Config → Config
unfolding default_telegram default_consumer
defaults cfg = record cfg {
  service = record {
    name = or_text cfg.service.name (codes "csar-notify");
    port = or_int cfg.service.port 8085;
    health_port = or_int cfg.service.health_port 9085;
  };
  redis = record cfg.redis { prefix = or_text cfg.redis.prefix (codes "notify:") };
  ingest = record {
    buffer_size = or_int cfg.ingest.buffer_size 10000;
    publisher_workers = or_int cfg.ingest.publisher_workers 4;
  };
  consumer = default_consumer cfg.consumer;
  providers = record cfg.providers { telegram = default_telegram cfg.providers.telegram };
  sample_ratio = or_int cfg.sample_ratio 1000000;
}

-- What `url.Parse` finds, with the URL's own String.
pub record ParsedUrl : Type 0 where
  pub scheme : Text
  pub host : Text
  pub string : Text

pub record Contacts : Type 0 where
  pub parse_url : Text → Option ParsedUrl
  pub parse_address : Text → Option Text
  pub equal_fold : Text → Text → Bool

abbrev bad_subscriber : GoError
bad_subscriber =
    plain
      (codes "providers.web_push.subscriber must be a bare e-mail, mailto: e-mail, or https URL")

-- if err != nil { return err }, for the check of a section that is enabled
abbrev pub check_if : Bool → Option GoError → Option GoError
check_if false e = none
check_if true e = e

abbrev pub error_of : {A : Type 0} → Result A → Option GoError
error_of (err e) = some e
error_of (ok a) = none

-- The first error.
abbrev pub first_error : List (Option GoError) → Option GoError
first_error [] = none
first_error (none ∷ checks) = first_error checks
first_error (some e ∷ checks) = some e

abbrev pub require : Bool → Text → Option GoError
require true message = none
require false message = some (plain message)

-- The checks that come before the one of web push, in their order.
abbrev pub check_list : Config → List (Option GoError)
check_list cfg =
    require (not (is_empty cfg.dsn)) (codes "database.dsn is required")
    ∷ require (not (is_empty cfg.rabbitmq.url)) (codes "rabbitmq.url is required")
    ∷ require (not (is_empty cfg.redis.url)) (codes "redis.url is required")
    ∷ require (int_le (pos 1) cfg.ingest.buffer_size) (codes "ingest.buffer_size must be >= 1")
    ∷ require (int_le (pos 1) cfg.ingest.publisher_workers)
        (codes "ingest.publisher_workers must be >= 1")
    ∷ require (int_le (pos 1) cfg.consumer.batch_size) (codes "consumer.batch_size must be >= 1")
    ∷ require (not (is_empty cfg.consumer.queue.name)) (codes "consumer.queue.name is required")
    ∷ require (not (is_empty cfg.consumer.dlq.name)) (codes "consumer.dlq.name is required")
    ∷ require (not cfg.providers.email_enabled) (codes "providers.email is not implemented yet")
    ∷ check_if cfg.providers.site.enabled
        (error_of (effective_targets cfg.providers.site cfg.redis.prefix))
    ∷ check_if cfg.providers.telegram.enabled (error_of (effective_bots cfg.providers.telegram))
    ∷ []

unfoldable pub checks : Config → Option GoError
checks cfg = first_error (check_list cfg)

module _ (contacts : Contacts) where
  unfoldable pub accept_url : Text → Result Text
  accept_url subscriber = elim (contacts.parse_url subscriber) [
    | none ↦ err bad_subscriber
    | some u ↦
        if not (text_eq u.scheme (codes "https")) || is_empty u.host
        then err bad_subscriber
        else ok u.string
  ]

  unfoldable pub accept_address : Text → Result Text
  accept_address subscriber = elim (contacts.parse_address subscriber) [
    | none ↦ err bad_subscriber
    | some address ↦
        if contacts.equal_fold (trim_space address) subscriber
        then ok address
        else err bad_subscriber
  ]

  -- The subscriber without "mailto:".
  abbrev pub without_mailto : Text → Text
  without_mailto subscriber =
      if has_prefix (map lower subscriber) (codes "mailto:")
      then trim_space (drop_bytes 7 subscriber)
      else subscriber

  abbrev pub accept_contact : Text → Result Text
  accept_contact subscriber =
      if has_prefix (map lower subscriber) (codes "https://")
      then accept_url subscriber
      else accept_address subscriber

  unfoldable pub normalize_web_push_subscriber : Text → Result Text
  normalize_web_push_subscriber raw =
      if is_empty (trim_space raw)
      then err (
          plain (
            codes
              "providers.web_push.subscriber is required when web_push is enabled (e.g. ops@example.com or https://example.com/contact)"))
      else accept_contact (without_mailto (trim_space raw))

  abbrev pub keys_given : WebPushProviderConfig → Bool
  keys_given w =
      not (is_empty (trim_space w.vapid_public_key) || is_empty (trim_space w.vapid_private_key))

  -- The last check, which also replaces the subscriber.
  unfoldable pub validate_web_push : WebPushProviderConfig → Result WebPushProviderConfig
  validate_web_push w =
      if w.enabled
      then elim (normalize_web_push_subscriber w.subscriber) [
        | err e ↦ err e
        | ok subscriber ↦
            if keys_given w
            then ok (record w { subscriber = subscriber })
            else err (
                plain (
                  codes
                    "providers.web_push.vapid_public_key and vapid_private_key are required when web_push is enabled"))
      ]
      else ok w

  unfoldable pub validate : Config → Result Config
  validate cfg = elim (checks cfg) [
    | some e ↦ err e
    | none ↦ elim (validate_web_push cfg.providers.web_push) [
      | err e ↦ err e
      | ok w ↦ ok (record cfg { providers = record cfg.providers { web_push = w } })
    ]
  ]

  unfoldable pub load_from_bytes : (Text → Result Config) → Text → Result Config
  load_from_bytes parse bytes = elim (parse bytes) [
    | err e ↦ err (wrapped (codes "parse config") e)
    | ok cfg ↦ validate (defaults cfg)
  ]
