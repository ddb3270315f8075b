-- ===== src/Tests/Boxes.antt =====
-- Inboxes by page, and push subscriptions.
use csar_notify.Base.{
  Dict, In, List, Option, Text, [], arith, codes, false, if◌then◌else◌, inl, is_space, length, none,
  ok, pos, refl, some, text_eq, trim_left, trim_right, trim_space, true, ◌↔◌, ◌∷◌, ◌≡◌, ◌≢◌, ◌≤◌,
}
use csar_notify.Domain.{Notification, Delivery}
use csar_notify.Store.{
  DeliveryRow, new_row, find_row, dismiss, insert_site_delivery, item_of, read_row,
}
use csar_notify.Store.Listing.{NotificationRow, listed, list_inbox, row_of, upsert_notification}
use csar_notify.Store.Listing.Pages.{pages, inbox_pages}
use csar_notify.Store.Dismissal.{Operation, delivers, reads}
use csar_notify.Store.Listing.Hidden.{dismissed_stays_hidden}
use csar_notify.Store.Listing.Shown.{insert-listed}
use csar_notify.InboxApi.{Reply, status_ok}
use csar_notify.InboxApi.Postgres.{Tables, others}
use csar_notify.InboxApi.Owners.{marks_read, Granted, perform-others}
use csar_notify.PushApi.{PushSubscription, no_content}
use csar_notify.PushApi.Requests.{
  Request, posts, deletes, Change, handle, change_of, handle_all, entry_after,
}
use csar_notify.PushApi.Requests.Refines.{requests_keep_map}
use csar_notify.Store.Push.Keys.{at}
use csar_notify.Tests.Data.{known, ann, bob, order}

abbrev labels : Dict Text
labels = (codes "a", codes "b") ∷ []

abbrev marshal : Dict Text → Option Text
marshal metadata = some (codes "a=b")

abbrev unmarshal : Text → Option (Dict Text)
unmarshal json = if text_eq json (codes "{}") then some [] else some labels

abbrev labelled : Notification
labelled = record order { metadata = labels }

abbrev stored_row : NotificationRow
stored_row = record {
  id = codes "n1";
  topic = labelled.topic;
  title = labelled.title;
  body = labelled.body;
  link = labelled.link;
  metadata = codes "a=b";
  priority = labelled.priority;
  broadcast = false;
  sender = labelled.sender;
  created_at = 3;
}

abbrev other_row : NotificationRow
other_row = record stored_row { id = codes "n2" }

abbrev notifications : List NotificationRow
notifications = stored_row ∷ other_row ∷ []

abbrev deliveries : List DeliveryRow
deliveries =
    new_row 4 ann (codes "n1") ∷ new_row 5 ann (codes "n2") ∷ new_row 6 bob (codes "n1") ∷ []

abbrev as_is : List Delivery → List Delivery
as_is items = items

inbox_pages_example :
    pages unmarshal as_is ann notifications deliveries 1 2
    ≡ listed unmarshal ann notifications deliveries
unfolding listed csar_notify.Store.Listing.is_listed csar_notify.Store.Listing.joined_row
    csar_notify.Store.Listing.find_notification text_eq
inbox_pages_example =
    inbox_pages unmarshal as_is ann notifications deliveries 1 2 (omega arith) (omega arith)
      (omega arith)

abbrev later : List Operation
later =
    delivers none 9 ann (record labelled { id = codes "n1" }) ∷ reads none 10 ann (codes "n2") ∷ []

abbrev second_item : Delivery
second_item = record {
  notification_id = codes "n2";
  topic = labelled.topic;
  title = labelled.title;
  body = labelled.body;
  link = labelled.link;
  metadata = labels;
  priority = labelled.priority;
  sender = labelled.sender;
  created_at = 3;
  read = true;
  dismissed = false;
  read_at = some 10;
}

dismissed_stays_hidden_example : codes "n2" ≢ codes "n1"
unfolding dismiss csar_notify.Store.update_rows csar_notify.Store.is_row text_eq list_inbox
    csar_notify.Store.Listing.effective_limit csar_notify.Store.Listing.effective_offset listed
    csar_notify.Store.mark_read insert_site_delivery csar_notify.Store.insert_row find_row
    csar_notify.Store.dismiss_row csar_notify.Store.Listing.is_listed read_row
    csar_notify.Store.Listing.joined_row csar_notify.Store.Listing.find_notification
    csar_notify.Base.is_space csar_notify.Base.trim_left csar_notify.Base.trim_right
    csar_notify.Base.trim_space csar_notify.Store.Listing.decode_metadata
    csar_notify.Store.Listing.scan_delivery item_of
dismissed_stays_hidden_example =
    dismissed_stays_hidden unmarshal as_is ann (codes "n1") deliveries later notifications (pos 50)
      (pos 0) (second_item ∷ []) second_item (λ xs x i. i) refl refl (inl refl)

abbrev labelled_stored : Notification
labelled_stored = record labelled { id = codes "n1"; created_at = 3 }

insert-listed_example :
    In
      (record (item_of labelled_stored (new_row 7 ann (codes "n1"))) { created_at = 3 })
      (listed unmarshal ann (stored_row ∷ []) (new_row 7 ann (codes "n1") ∷ []))
unfolding csar_notify.Domain.priority_valid text_eq upsert_notification
    csar_notify.Store.Listing.upsert_notification_row row_of csar_notify.Store.Listing.map_to_json
    find_row insert_site_delivery csar_notify.Store.insert_row
insert-listed_example =
    insert-listed marshal unmarshal (codes "n1") ann 3 7 labelled labelled_stored []
      (stored_row ∷ []) [] (new_row 7 ann (codes "n1") ∷ [])
      (item_of labelled_stored (new_row 7 ann (codes "n1"))) (codes "a=b") refl refl (λ e. cc e)
      refl refl refl refl refl

abbrev before : Tables
before = record { notifications = notifications; deliveries = deliveries }

abbrev after : Tables
after = record before {
  deliveries =
      read_row 8 (new_row 4 ann (codes "n1"))
      ∷ new_row 5 ann (codes "n2")
      ∷ new_row 6 bob (codes "n1")
      ∷ [];
}

perform-others_example :
    (status_ok ≡ status_ok ↔ Granted known none (some ann) (codes "n1") deliveries)
    × (status_ok ≢ status_ok → after ≡ before)
    × (notifications ≡ notifications)
    × ((subject : Text)
        → some ann ≡ some subject
        → others subject (codes "n1") after.deliveries ≡ others subject (codes "n1") deliveries)
unfolding csar_notify.InboxApi.mark_read csar_notify.InboxApi.update_state
    csar_notify.PreferencesApi.subject_from_request csar_notify.InboxApi.updated
    csar_notify.Store.mark_read csar_notify.Store.update_rows csar_notify.Store.is_row text_eq
perform-others_example =
    perform-others known unmarshal as_is none 8 marks_read (some ann) (codes "n1") before after
      status_ok refl

abbrev parse_subscription : Text → Option PushSubscription
parse_subscription json = some (record { endpoint = json; p256dh = codes "k"; auth = codes " s " })

abbrev subscribe : Text → Request
subscribe endpoint =
    posts none 1 (some ann) (ok (record { subscription = endpoint; user_agent = [] }))

abbrev history : List Request
history =
    subscribe (codes "e1")
    ∷ subscribe (codes "e2 ")
    ∷ deletes none 2 (some ann) (ok (codes "e1"))
    ∷ subscribe (codes "e2")
    ∷ []

requests_keep_map_example :
    let rows = handle_all known parse_subscription history [] in
    let r = deletes none 3 (some bob) (ok (codes "e2")) in
    ((s e : Text) → at s e rows ≡ entry_after known parse_subscription history s e [])
    × ((s e : Text) → length (at s e rows) ≤ 1)
    × ((handle known parse_subscription r rows).0 ≡ no_content
        ↔ (c : Change) × (change_of known parse_subscription r ≡ some c))
    × (change_of known parse_subscription r ≡ none
        → (handle known parse_subscription r rows).1 ≡ rows)
requests_keep_map_example =
    requests_keep_map known parse_subscription history (deletes none 3 (some bob) (ok (codes "e2")))
