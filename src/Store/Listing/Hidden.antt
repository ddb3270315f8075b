-- ===== src/Store/Listing/Hidden.antt =====
-- internal/store/postgres.go: the inbox of a recipient who has dismissed a notification.
use csar_notify.Base.{
  Dict, In, List, Option, Option-cases, Text, [], arith, drop, inl, inr, none, ok, some, subst, suc,
  sym, take, text_eq_iff, true, zero, ℕ, ℤ, ◌∷◌, ◌≡◌, ◌≢◌, ◌⊎◌,
}
use csar_notify.Domain.{Delivery}
use csar_notify.Store.{DeliveryRow, is_row, dismiss}
use csar_notify.Store.Dismissal.{Operation, AllDismissed, run_all, run_all-Gone, dismiss-Gone}
use csar_notify.Store.Listing.{
  NotificationRow, find_notification, is_listed, scan_delivery, joined_row, listed, list_inbox,
  effective_limit, effective_offset,
}

find_notification-id :
    (id : Text) (rows : List NotificationRow) {row : NotificationRow}
    → find_notification id rows ≡ some row
    → row.id ≡ id
unfolding find_notification
find_notification-id id [] h = cc h
find_notification-id id (r ∷ rows) {row} h =
    ground (arith, find_notification-id id rows {row = row}, text_eq_iff r.id id)

joined_row-head :
    (unmarshal : Text → Option (Dict Text)) (notifications : List NotificationRow)
    (row : DeliveryRow) (rest : List Delivery) (item : Delivery)
    → In item (joined_row unmarshal notifications row rest)
    → (item.notification_id ≡ row.notification_id) ⊎ In item rest
unfolding joined_row scan_delivery
joined_row-head unmarshal notifications row rest item i =
    elim (Option-cases (find_notification row.notification_id notifications)) [
      | inl e ↦ inr (ground (arith, i))
      | inr (n, e) ↦
          ground (arith, i, find_notification-id row.notification_id notifications {row = n})
    ]

-- An item is of the first row, which is listed then, or of a later one.
listed-head :
    (unmarshal : Text → Option (Dict Text)) (recipient : Text)
    (notifications : List NotificationRow) (row : DeliveryRow) (rows : List DeliveryRow)
    (item : Delivery)
    → In item (listed unmarshal recipient notifications (row ∷ rows))
    → ((is_listed recipient row ≡ true) × (item.notification_id ≡ row.notification_id))
      ⊎ In item (listed unmarshal recipient notifications rows)
unfolding listed
listed-head unmarshal recipient notifications row rows item i = ground (
  arith,
  i,
  joined_row-head unmarshal notifications row (listed unmarshal recipient notifications rows) item,
)

listed-live :
    (recipient id : Text) (row : DeliveryRow) (item : Delivery)
    → (is_row recipient id row ≡ true → row.dismissed ≡ true)
    → is_listed recipient row ≡ true
    → item.notification_id ≡ row.notification_id
    → item.notification_id ≢ id
unfolding is_row is_listed
listed-live recipient id row item h e same k =
    ground (arith, h, e, text_eq_iff row.notification_id id)

Gone-listed :
    (unmarshal : Text → Option (Dict Text)) (recipient id : Text)
    (notifications : List NotificationRow) (rows : List DeliveryRow)
    → AllDismissed recipient id rows
    → (item : Delivery) → In item (listed unmarshal recipient notifications rows)
    → item.notification_id ≢ id
unfolding listed
Gone-listed unmarshal recipient id notifications [] a item i = absurd i
Gone-listed unmarshal recipient id notifications (row ∷ rows) (h, rest) item i =
    elim (listed-head unmarshal recipient notifications row rows item i) [
      | inl (e, same) ↦ listed-live recipient id row item h e same
      | inr more ↦ Gone-listed unmarshal recipient id notifications rows rest item more
    ]

In-take : {A : Type 0} (n : ℕ) (xs : List A) (x : A) → In x (take n xs) → In x xs
In-take zero xs x i = absurd i
In-take (suc n) [] x i = absurd i
In-take (suc n) (y ∷ xs) x (inl e) = inl e
In-take (suc n) (y ∷ xs) x (inr i) = inr (In-take n xs x i)

In-drop : {A : Type 0} (n : ℕ) (xs : List A) (x : A) → In x (drop n xs) → In x xs
In-drop zero xs x i = i
In-drop (suc n) [] x i = absurd i
In-drop (suc n) (y ∷ xs) x i = inr (In-drop n xs x i)

-- A notification that a recipient has dismissed is on no page of their inbox any more, whatever
-- deliveries, reads and dismissals of anyone follow, a second delivery of the same notification and
-- failing calls among them, whatever the table of notifications then holds, and whatever the limit
-- and offset. The order of the query is any that brings in no item of its own.
pub dismissed_stays_hidden :
    (unmarshal : Text → Option (Dict Text)) (order_by : List Delivery → List Delivery)
    (recipient id : Text) (rows : List DeliveryRow) (later : List Operation)
    (notifications : List NotificationRow) (limit offset : ℤ) (items : List Delivery)
    (item : Delivery)
    → ((xs : List Delivery) (x : Delivery) → In x (order_by xs) → In x xs)
    → (dismiss none recipient id rows).0 ≡ none
    → list_inbox unmarshal order_by none recipient limit offset notifications
        (run_all later (dismiss none recipient id rows).1)
      ≡ ok items
    → In item items
    → item.notification_id ≢ id
unfolding list_inbox
dismissed_stays_hidden unmarshal order_by recipient id rows later notifications limit offset items
      item ordered h e i =
    let final = run_all later (dismiss none recipient id rows).1 in
    let gone =
      run_all-Gone later recipient id (dismiss none recipient id rows).1
        (dismiss-Gone recipient id rows h) in
    let all = order_by (listed unmarshal recipient notifications final) in
    let same : take (effective_limit limit) (drop (effective_offset offset) all) ≡ items =
      ground (arith, e) in
    Gone-listed unmarshal recipient id notifications final gone.dismissed item (
      ordered (listed unmarshal recipient notifications final) item (
        In-drop (effective_offset offset) all item (
          In-take (effective_limit limit) (drop (effective_offset offset) all) item
            (subst (In item) (sym same) i))))
