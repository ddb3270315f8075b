-- ===== src/Tests/Starts.antt =====
-- A configuration, the start of the program, and a notification on its way.
use csar_notify.Base.{
  Dict, In, Result, Text, [], codes, err, false, inl, inr, is_space, none, ok, plain, pos, refl,
  some, text_eq, trim_left, trim_right, trim_space, true, ℕ, ◌+◌, ◌↔◌, ◌∷◌, ◌≡◌, ◌≢◌,
}
use csar_notify.Domain.{Notification, Delivery, normalize}
use csar_notify.Domain.Validation.{IsValid}
use csar_notify.Provider.{Provider}
use csar_notify.Config.Load.{Config, Contacts, defaults, load_from_bytes}
use csar_notify.Config.Load.Checked.{IsSound, load_from_bytes-IsSound}
use csar_notify.Hub.{Hub}
use csar_notify.Consumer.{Progress, handle_batch}
use csar_notify.Flow.Acceptance.{persist_all, handle_batch-persists}
use csar_notify.Main.{Outside, Startup, http_serves, run, build_providers}
use csar_notify.Main.Registry.{Serves, loaded-Serves}
use csar_notify.Main.Resources.{play_from}
use csar_notify.Main.Resources.Failures.{AllSucceed, run-releases}
use csar_notify.Tests.Data.{known, order, message, service, decode_to, idle}
use csar_notify.Tests.Streams.{targets}

abbrev raw : Config
raw = record {
  service = record { name = []; port = pos 0; health_port = pos 0 };
  dsn = codes "postgres";
  rabbitmq = record { url = codes "amqp"; reconnect_delay = pos 0 };
  redis = record { url = codes "redis"; prefix = [] };
  ingest = record { buffer_size = pos 0; publisher_workers = pos 2 };
  consumer = record {
    queue = record { name = []; durable = true; prefetch = pos 0 };
    dlq = record { name = []; durable = true };
    batch_size = pos 0;
    flush_interval = pos 0;
    max_redeliveries = pos 0;
  };
  providers = record {
    site = record { enabled = true; default_target = []; targets = [] };
    telegram = record {
      enabled = false;
      default_bot = [];
      bot_token = [];
      api_base_url = [];
      bots = [];
    };
    email_enabled = false;
    web_push = record {
      enabled = false;
      subscriber = [];
      vapid_public_key = [];
      vapid_private_key = [];
    };
  };
  allowed_client_cn = [];
  tracing_endpoint = [];
  sample_ratio = pos 0;
}

abbrev contacts : Contacts
contacts = record {
  parse_url = λ url. none;
  parse_address = λ address. some address;
  equal_fold = text_eq;
}

abbrev parse : Text → Result Config
parse bytes = ok raw

raw_loads : load_from_bytes contacts parse [] ≡ ok (defaults raw)
unfolding load_from_bytes csar_notify.Config.Load.validate csar_notify.Config.Load.checks defaults
    csar_notify.Config.effective_targets csar_notify.Config.collect_targets
    csar_notify.Config.resolve_targets csar_notify.Config.Load.validate_web_push
raw_loads = refl

load_from_bytes-IsSound_example : IsSound (defaults raw)
load_from_bytes-IsSound_example = load_from_bytes-IsSound contacts parse [] (defaults raw) raw_loads

abbrev outside : Outside ℕ
outside = record {
  insert_site_delivery = λ recipient n w. (err (plain (codes "down")), w);
  publish = λ channel payload w. (none, w + 1);
  decode_target = λ config. ok config;
  marshal_delivery = λ item. ok item.title;
  decode_pref = λ config. ok (record { chat_id = config; bot = [] });
  encode_message = λ chat_id text. ok text;
  new_request_error = λ url. none;
  post_telegram = λ url body w. (csar_notify.Telegram.answered 200 [], w + 1);
  subscriptions = record {
    list_push_subscriptions = λ recipient w. (ok [], w);
    delete_push_subscription = λ recipient endpoint w. (none, w);
  };
  reason_of = λ body. none;
  post_web_push = λ cfg payload sub w. (csar_notify.WebPush.no_response, w);
  marshal_payload = λ payload. ok payload.title;
}

loaded-Serves_example :
    (registry : Dict (Provider ℕ)) × (build_providers outside
        (defaults raw).providers
        (defaults raw).redis.prefix
      ≡ ok registry)
    × Serves outside (defaults raw) registry
loaded-Serves_example = loaded-Serves outside contacts parse [] (defaults raw) raw_loads

abbrev unlucky : Startup
unlucky = record {
  load_config = none;
  init_tracer = none;
  new_pool = none;
  migrate = none;
  parse_redis_url = none;
  redis_ping = none;
  rabbitmq_connect = none;
  declare_dlq = none;
  effective_targets = none;
  hub_start = some (plain (codes "no redis"));
  build_providers = none;
  http_server = none;
  health_sidecar = none;
}

run-releases_example :
    (play_from (run unlucky).1 (some (record { stack = []; serving = false }))
      ≡ some (record { stack = []; serving = false }))
    × ((run unlucky).0 ≡ none ↔ AllSucceed unlucky)
    × ((run unlucky).0 ≢ none → ¬ In http_serves (run unlucky).1)
run-releases_example = run-releases unlucky

order-IsValid : IsValid known (normalize order)
unfolding normalize csar_notify.Base.trim_space csar_notify.Domain.unique_strings
    csar_notify.Domain.unique_channels csar_notify.Domain.unique_loop csar_notify.Domain.is_seen
    csar_notify.Base.trim_left csar_notify.Base.trim_right csar_notify.Base.is_space
    csar_notify.Base.text_eq
order-IsValid = record {
  id_ok = inl refl;
  has_topic = λ e. cc e;
  has_title = λ e. cc e;
  priority_known = inr (inr (inl refl));
  recipients_ok = (refl, (refl, tt));
  channels_known = tt;
}

handle_batch-persists_example :
    handle_batch known service (decode_to (normalize order)) (pos 3) (message ∷ []) idle
    ≡ persist_all service (order ∷ []) (message ∷ []) (record idle { notifications_seen = 1 })
unfolding csar_notify.Consumer.is_exhausted csar_notify.Consumer.death_count
handle_batch-persists_example =
    handle_batch-persists service known (decode_to (normalize order)) (pos 3) (order ∷ [])
      (message ∷ []) idle ((order-IsValid, refl, refl), tt)

abbrev item : Delivery
item = record {
  notification_id = codes "n1";
  topic = order.topic;
  title = order.title;
  body = order.body;
  link = order.link;
  metadata = [];
  priority = order.priority;
  sender = order.sender;
  created_at = 3;
  read = false;
  dismissed = false;
  read_at = none;
}
