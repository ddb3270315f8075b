-- ===== src/Main.antt =====
-- cmd/csar-notify/main.go and internal/vapid/handler.go: how the program is put together, started and
-- stopped. Each step of the start that can fail has its error as an input. Left out are logging, the
-- tracing flags, the metrics, the HTTP middleware, TLS, and what the health checks other than that of
-- the buffer ask.
pub mod Resources
pub mod Registry
use csar_notify.Base.{
  Bool, Dict, GoError, List, Option, Result, Text, [], codes, err, false, if◌then◌else◌, leb, none,
  not, ok, plain, some, text_eq, true, wrapped, ◌*◌, ◌++◌, ◌==◌, ◌∷◌,
}
use csar_notify.Config
use csar_notify.Config.{
  SiteProviderConfig, TelegramProviderConfig, effective_targets, effective_bots,
}
use csar_notify.Config.Load.{ProvidersConfig, WebPushProviderConfig}
use csar_notify.Domain.{Notification, Delivery}
use csar_notify.Pipeline.{Buffer, depth}
use csar_notify.Provider.{Provider}
use csar_notify.Provider.Registry.{new_registry}
use csar_notify.Site
use csar_notify.Site.{Site, site}
use csar_notify.Telegram
use csar_notify.Telegram.{Pref, telegram, new_telegram}
use csar_notify.WebPush
use csar_notify.WebPush.{SubscriptionStore, Subscription, Payload, web_push}

-- What the providers use of the database, of Redis and of HTTP, and the JSON functions.
pub record Outside (W : Type 0) : Type 0 where
  pub insert_site_delivery : Text → Notification → W → Result Delivery × W
  pub publish : Text → Text → W → Option GoError × W
  pub decode_target : Text → Result Text
  pub marshal_delivery : Delivery → Result Text
  pub decode_pref : Text → Result Pref
  pub encode_message : Text → Text → Result Text
  pub new_request_error : Text → Option GoError
  pub post_telegram : Text → Text → W → Telegram.Answer × W
  pub subscriptions : SubscriptionStore W
  pub reason_of : Text → Option Text
  pub post_web_push : WebPushProviderConfig → Text → Subscription → W → WebPush.Answer × W
  pub marshal_payload : Payload → Result Text

-- buildProviders and the New functions that it calls.
module _ {W : Type 0} (o : Outside W) where
  abbrev pub site_with : Dict Text → Text → Provider W
  site_with targets default_target =
      site
        (record {
          insert_site_delivery = o.insert_site_delivery;
          publish = some o.publish;
          targets = targets;
          default_target = default_target;
        })
        o.decode_target o.marshal_delivery

  unfoldable pub new_site : Result (Dict Text × Text) → Result (Provider W)
  new_site (err e) = err (wrapped (codes "site provider") e)
  new_site (ok (targets, default_target)) = ok (site_with targets default_target)

  abbrev pub telegram_with : Telegram.Telegram → Provider W
  telegram_with t = telegram t o.decode_pref o.encode_message o.new_request_error o.post_telegram

  unfoldable pub telegram_provider : Result Telegram.Telegram → Result (Provider W)
  telegram_provider (err e) = err (wrapped (codes "telegram provider") e)
  telegram_provider (ok t) = ok (telegram_with t)

  abbrev pub web_push_with : WebPushProviderConfig → Provider W
  web_push_with cfg = web_push o.reason_of o.subscriptions (o.post_web_push cfg) o.marshal_payload

  -- if enabled { ... items = append(items, prov) }
  abbrev pub append_if :
      Bool → Result (Provider W) → List (Option (Provider W)) → Result (List (Option (Provider W)))
  append_if false r items = ok items
  append_if true (err e) items = err e
  append_if true (ok prov) items = ok (items ++ some prov ∷ [])

  abbrev pub registry_of : Result (List (Option (Provider W))) → Result (Dict (Provider W))
  registry_of (err e) = err e
  registry_of (ok items) = ok (new_registry items)

  -- The providers after the ones so far.
  unfoldable pub add_web_push :
      WebPushProviderConfig
      → Result (List (Option (Provider W)))
      → Result (List (Option (Provider W)))
  add_web_push cfg (err e) = err e
  add_web_push cfg (ok items) = append_if cfg.enabled (ok (web_push_with cfg)) items

  unfoldable pub add_telegram :
      TelegramProviderConfig
      → Result (List (Option (Provider W)))
      → Result (List (Option (Provider W)))
  add_telegram cfg (err e) = err e
  add_telegram cfg (ok items) =
      append_if cfg.enabled (telegram_provider (new_telegram (effective_bots cfg))) items

  unfoldable pub build_providers : ProvidersConfig → Text → Result (Dict (Provider W))
  build_providers cfg redis_prefix = registry_of (
      add_web_push cfg.web_push (
        add_telegram cfg.telegram
          (append_if cfg.site.enabled (new_site (effective_targets cfg.site redis_prefix)) [])))

-- buildTrustFunc: `tls` is the connection's peer certificates by their common names, none without TLS.
unfoldable pub trust : Text → Option (List Text) → Option GoError
trust [] tls = none
trust (c ∷ cnm) none = some (plain (codes "client certificate required"))
trust (c ∷ cnm) (some []) = some (plain (codes "client certificate required"))
trust (c ∷ cnm) (some (peer ∷ rest)) =
    if text_eq peer (c ∷ cnm)
    then none
    else some (plain (codes "client CN " ++ peer ++ codes " not authorized"))

pub data Status : Type 0 where
  status_ok degraded : Status

-- The check "notify_buffer"; a quotient of at least 0.8 is written as a product.
unfoldable pub buffer_status : Buffer → Status
buffer_status b =
    if b.capacity == 0
    then status_ok
    else if leb (b.capacity * 8) (depth b * 10)
    then degraded
    else status_ok

-- vapid.Handler.get: the key of the answer; a nil handler is `none`.
unfoldable pub public_key : Option Text → Text
public_key none = []
public_key (some key) = key

-- What run acquires and gives back by a `defer`.
pub data Resource : Type 0 where
  tracer_provider postgres_pool redis_client amqp_connection publish_buffer : Resource
  app_context provider_registry shutdown_context : Resource

pub data Event : Type 0 where
  acquired : Resource → Event
  released : Resource → Event
  -- what runs beside it: the hub's subscription, the consumer, and the two servers
  hub_started consumer_started sidecar_serves http_serves : Event
  -- the shutdown after a signal
  app_cancelled http_shutdown sidecar_shutdown : Event

-- The errors of the steps of run.
pub record Startup : Type 0 where
  pub load_config : Option GoError
  pub init_tracer : Option GoError
  pub new_pool : Option GoError
  pub migrate : Option GoError
  pub parse_redis_url : Option GoError
  pub redis_ping : Option GoError
  pub rabbitmq_connect : Option GoError
  pub declare_dlq : Option GoError
  pub effective_targets : Option GoError
  pub hub_start : Option GoError
  pub build_providers : Option GoError
  pub http_server : Option GoError
  pub health_sidecar : Option GoError

abbrev pub Outcome : Type 0
Outcome = Option GoError × List Event

-- if err != nil { return fmt.Errorf("text: %w", err) }
unfoldable pub check : Text → Option GoError → Outcome → Outcome
check text (some e) rest = (some (wrapped text e), [])
check text none rest = rest

-- A resource that a `defer` gives back when run returns.
unfoldable pub with_resource : Resource → Outcome → Outcome
with_resource r (e, log) = (e, acquired r ∷ (log ++ released r ∷ []))

unfoldable pub then_do : Event → Outcome → Outcome
then_do event (e, log) = (e, event ∷ log)

-- After a signal.
unfoldable pub shut_down : Outcome
shut_down =
    with_resource shutdown_context
      (then_do app_cancelled (then_do http_shutdown (then_do sidecar_shutdown (none, []))))

-- From the consumer's start on.
unfoldable pub serve : Startup → Outcome
serve a = then_do consumer_started (
    check (codes "http server") a.http_server (
      check (codes "health sidecar") a.health_sidecar
        (then_do sidecar_serves (then_do http_serves shut_down))))

-- From the buffer on.
unfoldable pub run_pipeline : Startup → Outcome
run_pipeline a = with_resource publish_buffer (
    check (codes "resolve site provider targets") a.effective_targets (
      with_resource app_context (
        check (codes "start sse hub") a.hub_start (
          then_do hub_started (
            check (codes "build providers") a.build_providers
              (with_resource provider_registry (serve a)))))))

-- From the AMQP connection on.
unfoldable pub run_broker : Startup → Outcome
run_broker a = check (codes "rabbitmq connect") a.rabbitmq_connect (
    with_resource amqp_connection
      (check (codes "declare rabbitmq dlq") a.declare_dlq (run_pipeline a)))

unfoldable pub run : Startup → Outcome
run a = check (codes "load config") a.load_config (
    check (codes "init tracer") a.init_tracer (
      with_resource tracer_provider (
        check (codes "postgres") a.new_pool (
          with_resource postgres_pool (
            check (codes "migrate") a.migrate (
              check (codes "parse redis url") a.parse_redis_url (
                with_resource redis_client
                  (check (codes "redis ping") a.redis_ping (run_broker a)))))))))
