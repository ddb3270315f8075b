-- ===== src/InboxApi/Postgres.antt =====
-- internal/inbox/handler.go over internal/store/postgres.go: the store of the inbox handler, where it
-- is Postgres, and what an update of a delivery does to the rows.
use csar_notify.Base.{
  Dict, GoError, List, Option, Option-cases, Text, [], ap, arith, codes, if◌then◌else◌, inl, inr,
  none, refl, some, text_eq, wrapped, ℕ, ◌&&◌, ◌∷◌, ◌≡◌, ◌≢◌,
}
use csar_notify.Domain.{Delivery}
use csar_notify.InboxApi.{InboxStore}
use csar_notify.Store.{
  DeliveryRow, is_row, update_rows, read_row, dismiss_row, affected, find_row, no_rows,
}
use csar_notify.Store
use csar_notify.Store.Listing.{NotificationRow, list_inbox}
use csar_notify.Store.Inbox.{update_rows-none, update_rows-some}

pub record Tables : Type 0 where
  pub notifications : List NotificationRow
  pub deliveries : List DeliveryRow

-- The store of the handler, where it is Postgres.
abbrev pub postgres_inbox :
    (Text → Option (Dict Text))
    → (List Delivery → List Delivery)
    → Option GoError
    → ℕ
    → InboxStore Tables
postgres_inbox unmarshal order_by failure now = record {
  list_inbox = λ recipient limit offset t. (
    list_inbox unmarshal order_by failure recipient limit offset t.notifications t.deliveries,
    t,
  );
  count_unread = λ recipient t. (Store.count_unread failure recipient t.deliveries, t);
  mark_read = λ recipient id t.
      let (e, rows) = Store.mark_read failure now recipient id t.deliveries in
      (e, record t { deliveries = rows });
  dismiss = λ recipient id t.
      let (e, rows) = Store.dismiss failure recipient id t.deliveries in
      (e, record t { deliveries = rows });
}

-- The rows of anyone but the recipient, and their other rows.
abbrev pub others : Text → Text → List DeliveryRow → List DeliveryRow
others recipient id [] = []
others recipient id (row ∷ rows) =
    let rest = others recipient id rows in
    if text_eq row.recipient recipient && text_eq row.notification_id id then rest else row ∷ rest

abbrev KeepsKey : (DeliveryRow → DeliveryRow) → Type 0
KeepsKey f =
    (row : DeliveryRow)
    → ((f row).recipient ≡ row.recipient) × ((f row).notification_id ≡ row.notification_id)

update_rows-others :
    (f : DeliveryRow → DeliveryRow)
    → KeepsKey f
    → (recipient id : Text) (rows : List DeliveryRow)
    → others recipient id (update_rows f recipient id rows).1 ≡ others recipient id rows
unfolding update_rows is_row
update_rows-others f keeps recipient id [] = refl
update_rows-others f keeps recipient id (row ∷ rows) =
    ground (arith, update_rows-others f keeps recipient id rows, keeps row)

read_row-KeepsKey : (now : ℕ) → KeepsKey (read_row now)
unfolding read_row
read_row-KeepsKey now row = (refl, refl)

dismiss_row-KeepsKey : KeepsKey dismiss_row
unfolding dismiss_row
dismiss_row-KeepsKey row = (refl, refl)

-- How an update of a delivery ends: its error and the rows afterwards.
pub record Ends (failure : Option GoError) (recipient id : Text) (rows : List DeliveryRow)
    (r : Option GoError × List DeliveryRow) : Type 0 where
  pub done : r.0 ≡ none → (failure ≡ none) × (find_row recipient id rows ≢ none)
  pub succeeds : failure ≡ none → find_row recipient id rows ≢ none → r.0 ≡ none
  pub same : r.0 ≢ none → r.1 ≡ rows
  pub rest : others recipient id r.1 ≡ others recipient id rows

failed-Ends :
    (e f : GoError) (recipient id : Text) (rows : List DeliveryRow)
    → Ends (some e) recipient id rows (some f, rows)
failed-Ends e f recipient id rows = record {
  done = λ h. cc h;
  succeeds = λ h n. cc h;
  same = λ n. refl;
  rest = refl;
}

update_rows-Ends :
    (f : DeliveryRow → DeliveryRow)
    → KeepsKey f
    → (recipient id : Text) (rows : List DeliveryRow)
    → Ends none recipient id rows
        (affected (update_rows f recipient id rows).0, (update_rows f recipient id rows).1)
update_rows-Ends f keeps recipient id rows = elim (Option-cases (find_row recipient id rows)) [
  | inl e ↦
      let unchanged = update_rows-none f recipient id rows e in
      record {
        done = λ h. ground (arith, h, unchanged);
        succeeds = λ h n. absurd (n e);
        same = λ n. ap (λ (x : ℕ × List DeliveryRow). x.1) unchanged;
        rest = update_rows-others f keeps recipient id rows;
      }
  | inr (row, e) ↦ record {
    done = λ h. (refl, λ n. cc (e, n));
    succeeds = λ h n. update_rows-some f recipient id rows e;
    same = λ n. absurd (n (update_rows-some f recipient id rows e));
    rest = update_rows-others f keeps recipient id rows;
  }
]

pub mark_read-Ends :
    (failure : Option GoError) (now : ℕ) (recipient id : Text) (rows : List DeliveryRow)
    → Ends failure recipient id rows (Store.mark_read failure now recipient id rows)
unfolding Store.mark_read
mark_read-Ends none now recipient id rows =
    update_rows-Ends (read_row now) (read_row-KeepsKey now) recipient id rows
mark_read-Ends (some e) now recipient id rows =
    failed-Ends e (wrapped (codes "mark read") e) recipient id rows

pub dismiss-Ends :
    (failure : Option GoError) (recipient id : Text) (rows : List DeliveryRow)
    → Ends failure recipient id rows (Store.dismiss failure recipient id rows)
unfolding Store.dismiss
dismiss-Ends none recipient id rows =
    update_rows-Ends dismiss_row dismiss_row-KeepsKey recipient id rows
dismiss-Ends (some e) recipient id rows =
    failed-Ends e (wrapped (codes "dismiss notification") e) recipient id rows
