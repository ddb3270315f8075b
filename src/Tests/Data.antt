-- ===== src/Tests/Data.antt =====
-- A small service: two recipients, a site provider that works and a push provider that is refused.
use csar_notify.Base.{
  Bool, GoError, List, Option, Result, Text, [], codes, false, is_empty, none, not, ok, plain,
  send_error, some, true, ℕ, ◌+◌, ◌∷◌,
}
use csar_notify.Domain.{Notification, Preference, channel_site, channel_web_push, priority_high}
use csar_notify.Provider.{Provider}
use csar_notify.Dispatch.{Dispatcher, State, StoreAccessor}
use csar_notify.Rmq.{Delivery, absent}
use csar_notify.Consumer.{Progress}

abbrev pub ann : Text
ann = codes "ann"

abbrev pub bob : Text
bob = codes "bob"

-- Every text but the empty one.
abbrev pub known : Text → Bool
known t = not (is_empty t)

abbrev pub order : Notification
order = record {
  id = [];
  topic = codes "orders.new";
  title = codes "Order";
  body = codes "1 item";
  link = [];
  metadata = [];
  priority = priority_high;
  recipients = ann ∷ bob ∷ [];
  channels = [];
  sender = codes "shop";
  created_at = 0;
}

abbrev pub untitled : Notification
untitled = record order { title = [] }

abbrev pub on_site : Preference
on_site = record {
  subject = ann;
  channel = channel_site;
  enabled = true;
  config = [];
  topics = [];
  updated_at = 0;
}

abbrev pub on_push : Preference
on_push = record on_site { channel = channel_web_push }

abbrev pub off_push : Preference
off_push = record on_push { enabled = false }

abbrev pub gone : GoError
gone = send_error channel_web_push true (plain (codes "gone"))

-- The state of the world counts the sends.
abbrev pub site_works : Provider ℕ
site_works = record {
  name = codes "site";
  channel = channel_site;
  send = λ n recipient config w. (none, w + 1);
  close = λ w. (none, w);
}

abbrev pub push_refused : Provider ℕ
push_refused = record {
  name = codes "web_push";
  channel = channel_web_push;
  send = λ n recipient config w. (some gone, w + 1);
  close = λ w. (none, w);
}

abbrev pub both : Text → Result (List Preference)
both recipient = ok (on_site ∷ on_push ∷ [])

abbrev pub store : StoreAccessor ℕ
store = record {
  upsert_notification = λ n w. (ok n, w);
  list_topic_subscribers = λ topic w. (ok [], w);
  get_preferences = λ recipient w. (both recipient, w);
}

abbrev pub service : Dispatcher ℕ
service = record {
  store = store;
  providers = some ((channel_site, site_works) ∷ (channel_web_push, push_refused) ∷ []);
}

abbrev pub quiet : State ℕ
quiet = record { world = 0; provider_sends = []; provider_errors = [] }

abbrev pub message : Delivery
message = record { delivery_tag = 1; redelivered = false; x_death = absent; body = codes "{}" }

abbrev pub unreadable : Delivery
unreadable = record message { delivery_tag = 2; body = [] }

-- An empty body does not decode.
abbrev pub decode_to : Notification → Text → Option Notification
decode_to n [] = none
decode_to n (c ∷ body) = some n

abbrev pub idle : Progress ℕ
idle = record { state = quiet; verdicts = []; consumer_errors = []; notifications_seen = 0 }
