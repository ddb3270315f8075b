-- ===== src/Store.antt =====
-- internal/store/postgres.go: the site deliveries and the preferences, with their tables as lists of
-- rows. The database itself is outside: its failure of a call and its clock are inputs, and what a
-- statement does is read off its SQL and the table's keys. A UUID is in its canonical text.
-- The error of a query is that of its call, which stands for those of reading its rows, too.
-- Nil pointers, which no caller passes, and the layout that jsonb gives a config are left out.
pub mod Inbox
pub mod Preferences
pub mod Dismissal
pub mod Again
pub mod Listing
pub mod Push
use csar_notify.Base.{
  Bool, Dict, GoError, List, Option, Result, Text, [], codes, err, false, if◌then◌else◌, insert,
  is_empty, length, lookup, none, not, ok, plain, some, suc, text_eq, true, wrapped, zero, ℕ, ◌&&◌,
  ◌++◌, ◌∷◌,
}
use csar_notify.Domain.{Notification, Delivery, Preference, channel_site, channel_web_push}

-- A row of notification_deliveries.
pub record DeliveryRow : Type 0 where
  pub notification_id : Text
  pub recipient : Text
  pub read : Bool
  pub dismissed : Bool
  pub read_at : Option ℕ
  pub created_at : ℕ

-- WHERE recipient = $1 AND notification_id = $2
unfoldable pub is_row : Text → Text → DeliveryRow → Bool
is_row recipient id row = text_eq row.recipient recipient && text_eq row.notification_id id

unfoldable pub find_row : Text → Text → List DeliveryRow → Option DeliveryRow
find_row recipient id [] = none
find_row recipient id (row ∷ rows) =
    let rest = find_row recipient id rows in if is_row recipient id row then some row else rest

abbrev pub new_row : ℕ → Text → Text → DeliveryRow
new_row now recipient id = record {
  notification_id = id;
  recipient = recipient;
  read = false;
  dismissed = false;
  read_at = none;
  created_at = now;
}

-- INSERT ... ON CONFLICT (notification_id, recipient), which leaves a row that is there as it is: the
-- row, and the table.
unfoldable pub insert_row : ℕ → Text → Text → List DeliveryRow → DeliveryRow × List DeliveryRow
insert_row now recipient id rows = elim (find_row recipient id rows) [
  | some row ↦ (row, rows)
  | none ↦ (new_row now recipient id, rows ++ new_row now recipient id ∷ [])
]

-- The item that InsertSiteDelivery returns.
unfoldable pub item_of : Notification → DeliveryRow → Delivery
item_of n row = record {
  notification_id = n.id;
  topic = n.topic;
  title = n.title;
  body = n.body;
  link = n.link;
  metadata = n.metadata;
  priority = n.priority;
  sender = n.sender;
  created_at = row.created_at;
  read = row.read;
  dismissed = row.dismissed;
  read_at = row.read_at;
}

unfoldable pub insert_site_delivery :
    Option GoError → ℕ → Text → Notification → List DeliveryRow → Result Delivery × List DeliveryRow
insert_site_delivery (some e) now recipient n rows =
    (err (wrapped (codes "insert site delivery") e), rows)
insert_site_delivery none now recipient n rows =
    let (row, rows') = insert_row now recipient n.id rows in (ok (item_of n row), rows')

-- UPDATE ... WHERE: the number of rows affected, and the table.
unfoldable pub update_rows :
    (DeliveryRow → DeliveryRow) → Text → Text → List DeliveryRow → ℕ × List DeliveryRow
update_rows f recipient id [] = (0, [])
update_rows f recipient id (row ∷ rows) =
    let (count, rest) = update_rows f recipient id rows in
    if is_row recipient id row then (suc count, f row ∷ rest) else (count, row ∷ rest)

-- read = TRUE, read_at = COALESCE(read_at, now())
unfoldable pub read_row : ℕ → DeliveryRow → DeliveryRow
read_row now row = record row {
  read = true;
  read_at = elim row.read_at [ some t ↦ some t | none ↦ some now ];
}

unfoldable pub dismiss_row : DeliveryRow → DeliveryRow
dismiss_row row = record row { dismissed = true }

-- pgx.ErrNoRows
abbrev pub no_rows : GoError
no_rows = plain (codes "no rows in result set")

-- The error by the number of rows affected.
abbrev pub affected : ℕ → Option GoError
affected zero = some no_rows
affected (suc count) = none

unfoldable pub mark_read :
    Option GoError → ℕ → Text → Text → List DeliveryRow → Option GoError × List DeliveryRow
mark_read (some e) now recipient id rows = (some (wrapped (codes "mark read") e), rows)
mark_read none now recipient id rows =
    let (count, rows') = update_rows (read_row now) recipient id rows in (affected count, rows')

unfoldable pub dismiss :
    Option GoError → Text → Text → List DeliveryRow → Option GoError × List DeliveryRow
dismiss (some e) recipient id rows = (some (wrapped (codes "dismiss notification") e), rows)
dismiss none recipient id rows =
    let (count, rows') = update_rows dismiss_row recipient id rows in (affected count, rows')

-- WHERE recipient = $1 AND NOT dismissed AND NOT read
abbrev pub is_unread : Text → DeliveryRow → Bool
is_unread recipient row = text_eq row.recipient recipient && not row.dismissed && not row.read

unfoldable pub unread_rows : Text → List DeliveryRow → ℕ
unread_rows recipient [] = 0
unread_rows recipient (row ∷ rows) =
    let rest = unread_rows recipient rows in if is_unread recipient row then suc rest else rest

unfoldable pub count_unread : Option GoError → Text → List DeliveryRow → Result ℕ
count_unread (some e) recipient rows = err (wrapped (codes "count unread") e)
count_unread none recipient rows = ok (unread_rows recipient rows)

abbrev empty_object : Text
empty_object = codes "{}"

unfoldable pub raw_json : Text → Text
raw_json json = if is_empty json then empty_object else json

-- A row of notification_preferences is a Preference.
unfoldable pub upsert_row : Preference → List Preference → List Preference
upsert_row pref [] = pref ∷ []
upsert_row pref (row ∷ rows) =
    let rest = upsert_row pref rows in
    if text_eq row.subject pref.subject && text_eq row.channel pref.channel
    then record row {
      enabled = pref.enabled;
      config = pref.config;
      topics = pref.topics;
      updated_at = pref.updated_at;
    }
      ∷ rows
    else row ∷ rest

unfoldable pub upsert_preference :
    Option GoError → ℕ → Text → Preference → List Preference → Option GoError × List Preference
upsert_preference (some e) now subject pref rows =
    (some (wrapped (codes "upsert preference") e), rows)
upsert_preference none now subject pref rows = (
  none,
  upsert_row (record pref { subject = subject; config = raw_json pref.config; updated_at = now })
      rows,
)

unfoldable pub rows_of : Text → List Preference → List Preference
rows_of subject [] = []
rows_of subject (row ∷ rows) =
    let rest = rows_of subject rows in if text_eq row.subject subject then row ∷ rest else rest

-- `order_by` is the database's ORDER BY channel.
unfoldable pub get_preferences :
    (List Preference → List Preference)
    → Option GoError
    → Text
    → List Preference
    → Result (List Preference)
get_preferences order_by (some e) subject rows = err (wrapped (codes "get preferences") e)
get_preferences order_by none subject rows = ok (order_by (rows_of subject rows))

unfoldable pub default_preferences : Text → List Preference
default_preferences subject =
    record {
      subject = subject;
      channel = channel_site;
      enabled = true;
      config = empty_object;
      topics = [];
      updated_at = 0;
    }
    ∷ record {
      subject = subject;
      channel = channel_web_push;
      enabled = false;
      config = empty_object;
      topics = [];
      updated_at = 0;
    }
    ∷ []

-- out[i] = a
unfoldable pub set_at {ℓ} : {A : Type ℓ} → ℕ → A → List A → List A
set_at i a [] = []
set_at zero a (x ∷ xs) = a ∷ xs
set_at (suc i) a (x ∷ xs) = x ∷ set_at i a xs

-- The loop of MergeDefaults.
unfoldable pub merge_loop : List Preference → Dict ℕ → List Preference → List Preference
merge_loop out index [] = out
merge_loop out index (pref ∷ rest) = elim (lookup pref.channel index) [
  | some i ↦ merge_loop (set_at i pref out) index rest
  | none ↦ merge_loop (out ++ pref ∷ []) (insert pref.channel (length out) index) rest
]

unfoldable pub merge_defaults : Text → List Preference → List Preference
merge_defaults subject prefs =
    merge_loop (default_preferences subject) ((channel_site, 0) ∷ (channel_web_push, 1) ∷ []) prefs
