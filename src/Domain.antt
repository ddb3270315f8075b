-- ===== src/Domain.antt =====
-- internal/domain/types.go: notifications, preferences, and their validation. `uuid.Parse` of
-- github.com/google/uuid is the parameter `uuid_valid`, true where it returns no error.
pub mod Unique
pub mod Validation
pub mod Topics
use csar_notify.Base.{
  Bool, Dict, GoError, List, Option, Text, [], codes, false, has_prefix, has_suffix, if◌then◌else◌,
  is_empty, none, not, plain, some, text_eq, trim_space, trim_suffix, true, ℕ, ◌&&◌, ◌*◌, ◌++◌,
  ◌||◌, ◌∷◌,
}

-- type Channel string
abbrev pub channel_site : Text
channel_site = codes "site"

abbrev pub channel_telegram : Text
channel_telegram = codes "telegram"

abbrev pub channel_email : Text
channel_email = codes "email"

abbrev pub channel_web_push : Text
channel_web_push = codes "web_push"

-- type Priority string
abbrev pub priority_low : Text
priority_low = codes "low"

abbrev pub priority_normal : Text
priority_normal = codes "normal"

abbrev pub priority_high : Text
priority_high = codes "high"

abbrev pub priority_urgent : Text
priority_urgent = codes "urgent"

pub record Notification : Type 0 where
  pub id : Text
  pub topic : Text
  pub title : Text
  pub body : Text
  pub link : Text
  pub metadata : Dict Text
  pub priority : Text
  pub recipients : List Text
  pub channels : List Text
  pub sender : Text
  pub created_at : ℕ

pub record Delivery : Type 0 where
  pub notification_id : Text
  pub topic : Text
  pub title : Text
  pub body : Text
  pub link : Text
  pub metadata : Dict Text
  pub priority : Text
  pub sender : Text
  pub created_at : ℕ
  pub read : Bool
  pub dismissed : Bool
  pub read_at : Option ℕ

-- `config` is raw JSON
pub record Preference : Type 0 where
  pub subject : Text
  pub channel : Text
  pub enabled : Bool
  pub config : Text
  pub topics : List Text
  pub updated_at : ℕ

pub record ResolvedPreference : Type 0 where
  pub channel : Text
  pub config : Text

-- _, ok := seen[value]
unfoldable pub is_seen : Text → List Text → Bool
is_seen value [] = false
is_seen value (s ∷ seen) = text_eq s value || is_seen value seen

-- The loop of `uniqueStrings`: `seen` holds the keys of the map, and `out` grows at its end.
unfoldable pub unique_loop : List Text → List Text → List Text
unique_loop seen [] = []
unique_loop seen (raw ∷ rest) =
    let value = trim_space raw in
    let skipped = unique_loop seen rest in
    let kept = value ∷ unique_loop (value ∷ seen) rest in
    if is_empty value then skipped else if is_seen value seen then skipped else kept

-- A nil slice and an empty one are both `[]`.
unfoldable pub unique_strings : List Text → List Text
unique_strings strings = unique_loop [] strings

unfoldable pub unique_channels : List Text → List Text
unique_channels channels = unique_loop [] channels

unfoldable pub normalize : Notification → Notification
normalize n = record n {
  topic = trim_space n.topic;
  title = trim_space n.title;
  body = trim_space n.body;
  link = trim_space n.link;
  sender = trim_space n.sender;
  recipients = unique_strings n.recipients;
  channels = unique_channels n.channels;
  priority = if is_empty n.priority then priority_normal else n.priority;
}

unfoldable pub channel_valid : Text → Bool
channel_valid c =
    text_eq c channel_site
    || text_eq c channel_telegram
    || text_eq c channel_email
    || text_eq c channel_web_push

unfoldable pub priority_valid : Text → Bool
priority_valid p =
    text_eq p priority_low
    || text_eq p priority_normal
    || text_eq p priority_high
    || text_eq p priority_urgent

unfoldable pub check_channels : List Text → Option GoError
check_channels [] = none
check_channels (channel ∷ rest) =
    if not (channel_valid channel)
    then some (plain (codes "channel " ++ channel ++ codes " is invalid"))
    else check_channels rest

module _ (uuid_valid : Text → Bool) where
  unfoldable pub check_recipients : List Text → Option GoError
  check_recipients [] = none
  check_recipients (recipient ∷ rest) =
      if not (uuid_valid recipient)
      then some (plain (codes "recipient " ++ recipient ++ codes " must be a valid UUID"))
      else check_recipients rest

  -- ValidateNotification after `n.Normalize()`
  unfoldable pub check_fields : Notification → Option GoError
  check_fields n =
      if not (is_empty n.id) && not (uuid_valid n.id)
      then some (plain (codes "notification id must be a valid UUID"))
      else if is_empty n.topic
      then some (plain (codes "topic is required"))
      else if is_empty n.title
      then some (plain (codes "title is required"))
      else if not (priority_valid n.priority)
      then some (plain (codes "priority " ++ n.priority ++ codes " is invalid"))
      else elim (check_recipients n.recipients) [
        | some e ↦ some e
        | none ↦ check_channels n.channels
      ]

  -- The error, and the notification afterwards: a failed validation has normalized it too.
  unfoldable pub validate_notification : Notification → Option GoError × Notification
  validate_notification n = (check_fields (normalize n), normalize n)

  -- The same on a pointer that may be nil.
  unfoldable pub validate_pointer : Option Notification → Option GoError × Option Notification
  validate_pointer none = (some (plain (codes "notification is required")), none)
  validate_pointer (some n) = let (e, m) = validate_notification n in (e, some m)

unfoldable pub filter_matches : Text → Text → Bool
filter_matches raw topic =
    let filter = trim_space raw in
    if is_empty filter
    then false
    else text_eq filter topic
      || (has_suffix filter (codes "*") && has_prefix topic (trim_suffix filter (codes "*")))

unfoldable pub any_filter_matches : List Text → Text → Bool
any_filter_matches [] topic = false
any_filter_matches (filter ∷ rest) topic =
    filter_matches filter topic || any_filter_matches rest topic

unfoldable pub topic_matches : List Text → Text → Bool
topic_matches [] topic = true
topic_matches (filter ∷ rest) topic = any_filter_matches (filter ∷ rest) topic
