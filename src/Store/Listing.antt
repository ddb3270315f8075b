-- ===== src/Store/Listing.antt =====
-- internal/store/postgres.go: the table of notifications and the inbox that is read from it, and the
-- subscribers of a topic. Beside
-- what Store.antt says of the database: `json.Marshal` and `json.Unmarshal` of metadata are the
-- parameters `marshal` and `unmarshal`, none where they return an error, and gen_random_uuid() of an
-- insert is an input. The id is the primary key.
pub mod Pages
pub mod Hidden
pub mod Shown
use csar_notify.Base.{
  Bool, Dict, GoError, List, Option, Result, Text, [], codes, drop, err, if◌then◌else◌, is_empty,
  length, ltb, negsuc, none, not, ok, pos, some, suc, take, text_eq, trim_space, wrapped, zero, ℕ,
  ℤ, ◌&&◌, ◌==◌, ◌∷◌,
}
use csar_notify.Domain.{Notification, Delivery}
use csar_notify.Store.{DeliveryRow}

-- A row of notifications; `broadcast` tells that the message named no recipient.
pub record NotificationRow : Type 0 where
  pub id : Text
  pub topic : Text
  pub title : Text
  pub body : Text
  pub link : Text
  pub metadata : Text
  pub priority : Text
  pub broadcast : Bool
  pub sender : Text
  pub created_at : ℕ

unfoldable pub find_notification : Text → List NotificationRow → Option NotificationRow
find_notification id [] = none
find_notification id (row ∷ rows) =
    if text_eq row.id id then some row else find_notification id rows

-- ON CONFLICT (id) DO UPDATE: the row as it is afterwards, and the table.
unfoldable pub upsert_notification_row :
    NotificationRow → List NotificationRow → NotificationRow × List NotificationRow
upsert_notification_row new [] = (new, new ∷ [])
upsert_notification_row new (row ∷ rows) =
    let (stored, rest) = upsert_notification_row new rows in
    let updated = record new { id = row.id; created_at = row.created_at } in
    if text_eq row.id new.id then (updated, updated ∷ rows) else (stored, row ∷ rest)

module _ (marshal : Dict Text → Option Text) where
  unfoldable pub map_to_json : Dict Text → Text
  map_to_json [] = codes "{}"
  map_to_json (entry ∷ metadata) = elim (marshal (entry ∷ metadata)) [
    | none ↦ codes "{}"
    | some json ↦ json
  ]

  -- The row that is to be inserted.
  unfoldable pub row_of : Text → ℕ → Notification → NotificationRow
  row_of new_id now n = record {
    id = if is_empty n.id then new_id else n.id;
    topic = n.topic;
    title = n.title;
    body = n.body;
    link = n.link;
    metadata = map_to_json n.metadata;
    priority = n.priority;
    broadcast = length n.recipients == 0;
    sender = n.sender;
    created_at = now;
  }

  -- The error, the notification with what RETURNING gave, and the table.
  unfoldable pub upsert_notification :
      Option GoError
      → Text
      → ℕ
      → Notification
      → List NotificationRow
      → Option GoError × (Notification × List NotificationRow)
  upsert_notification (some e) new_id now n rows =
      (some (wrapped (codes "upsert notification") e), (n, rows))
  upsert_notification none new_id now n rows =
      let (stored, rows') = upsert_notification_row (row_of new_id now n) rows in
      (none, (record n { id = stored.id; created_at = stored.created_at }, rows'))

-- The error's case of decodeMetadata; a nil map is empty.
abbrev pub or_no_metadata : Option (Dict Text) → Dict Text
or_no_metadata none = []
or_no_metadata (some metadata) = metadata

-- WHERE d.recipient = $1 AND NOT d.dismissed
unfoldable pub is_listed : Text → DeliveryRow → Bool
is_listed recipient row = text_eq row.recipient recipient && not row.dismissed

unfoldable pub effective_limit : ℤ → ℕ
effective_limit (pos zero) = 50
effective_limit (pos (suc n)) = if ltb 100 (suc n) then 50 else suc n
effective_limit (negsuc n) = 50

unfoldable pub effective_offset : ℤ → ℕ
effective_offset (pos n) = n
effective_offset (negsuc n) = 0

module _ (unmarshal : Text → Option (Dict Text)) where
  unfoldable pub decode_metadata : Text → Dict Text
  decode_metadata [] = []
  decode_metadata (c ∷ json) = or_no_metadata (unmarshal (c ∷ json))

  unfoldable pub scan_delivery : NotificationRow → DeliveryRow → Delivery
  scan_delivery n d = record {
    notification_id = n.id;
    topic = n.topic;
    title = n.title;
    body = n.body;
    link = n.link;
    metadata = decode_metadata n.metadata;
    priority = trim_space n.priority;
    sender = n.sender;
    created_at = n.created_at;
    read = d.read;
    dismissed = d.dismissed;
    read_at = d.read_at;
  }

  -- A delivery joined with its notification.
  unfoldable pub joined_row : List NotificationRow → DeliveryRow → List Delivery → List Delivery
  joined_row notifications row rest = elim (find_notification row.notification_id notifications) [
    | none ↦ rest
    | some n ↦ scan_delivery n row ∷ rest
  ]

  -- The rows of the query before they are ordered and cut to a page.
  unfoldable pub listed : Text → List NotificationRow → List DeliveryRow → List Delivery
  listed recipient notifications [] = []
  listed recipient notifications (row ∷ rows) =
      let rest = listed recipient notifications rows in
      if is_listed recipient row then joined_row notifications row rest else rest

  -- `order_by` is the database's ORDER BY n.created_at DESC, n.id DESC.
  module _ (order_by : List Delivery → List Delivery) where
    unfoldable pub list_inbox :
        Option GoError
        → Text
        → ℤ
        → ℤ
        → List NotificationRow
        → List DeliveryRow
        → Result (List Delivery)
    list_inbox (some e) recipient limit offset notifications rows =
        err (wrapped (codes "list inbox") e)
    list_inbox none recipient limit offset notifications rows = ok (
        take (effective_limit limit)
          (drop (effective_offset offset) (order_by (listed recipient notifications rows))))

-- A row of topic_subscriptions: its subject and its topic.
unfoldable pub subscribers_of : Text → List (Text × Text) → List Text
subscribers_of topic [] = []
subscribers_of topic ((subject, t) ∷ rows) =
    let rest = subscribers_of topic rows in if text_eq t topic then subject ∷ rest else rest

-- `order_by` is the database's ORDER BY subject.
unfoldable pub list_topic_subscribers :
    (List Text → List Text) → Option GoError → Text → List (Text × Text) → Result (List Text)
list_topic_subscribers order_by (some e) topic rows =
    err (wrapped (codes "list topic subscribers") e)
list_topic_subscribers order_by none topic rows = ok (order_by (subscribers_of topic rows))
