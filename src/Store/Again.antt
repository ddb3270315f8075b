-- ===== src/Store/Again.antt =====
-- internal/store/postgres.go: a delivery that is inserted again.
use csar_notify.Base.{
  List, Option-cases, Text, [], arith, inl, inr, none, ok, refl, some, text_eq_refl, true, ℕ, ◌++◌,
  ◌∷◌, ◌≡◌, ◌≢◌,
}
use csar_notify.Domain.{Notification}
use csar_notify.Store.{
  DeliveryRow, is_row, find_row, new_row, insert_row, insert_site_delivery, read_row, dismiss_row,
  mark_read, dismiss, item_of,
}
use csar_notify.Store.Dismissal.{
  Operation, delivers, reads, dismisses, run, run_all, read_row-Keeps, dismiss_row-Keeps,
  update_rows-find, append-find,
}

find_row-append :
    (recipient id : Text) (rows : List DeliveryRow) (row : DeliveryRow)
    → find_row recipient id rows ≡ none
    → is_row recipient id row ≡ true
    → find_row recipient id (rows ++ row ∷ []) ≡ some row
unfolding find_row
find_row-append recipient id [] row h e = ground arith
find_row-append recipient id (r ∷ rows) row h e =
    ground (arith, find_row-append recipient id rows row)

new_row-is_row :
    (now : ℕ) (recipient id : Text) → is_row recipient id (new_row now recipient id) ≡ true
unfolding is_row
new_row-is_row now recipient id = ground (arith, text_eq_refl recipient, text_eq_refl id)

insert_row_there :
    (now : ℕ) (recipient id : Text) (rows : List DeliveryRow)
    → find_row recipient id (insert_row now recipient id rows).1 ≢ none
unfolding insert_row
insert_row_there now recipient id rows h = elim (Option-cases (find_row recipient id rows)) [
  | inl e ↦
      let found =
        find_row-append recipient id rows (new_row now recipient id) e
          (new_row-is_row now recipient id) in
      absurd (ground (arith, h, e, found))
  | inr (row, e) ↦ absurd (ground (arith, h, e))
]

-- An insert for anyone keeps the rows that are there.
insert_row-keeps :
    (now : ℕ) (recipient id other other_id : Text) (rows : List DeliveryRow)
    → find_row recipient id (insert_row now other other_id rows).1 ≡ none
    → find_row recipient id rows ≡ none
unfolding insert_row
insert_row-keeps now recipient id other other_id rows h =
    ground (arith, h, append-find recipient id rows (new_row now other other_id))

run-there :
    (o : Operation) (recipient id : Text) (rows : List DeliveryRow)
    → find_row recipient id (run o rows) ≡ none
    → find_row recipient id rows ≡ none
unfolding insert_site_delivery mark_read dismiss
run-there (delivers none now other n) recipient id rows h =
    insert_row-keeps now recipient id other n.id rows h
run-there (delivers (some e) now other n) recipient id rows h = h
run-there (reads none now other other_id) recipient id rows h =
    update_rows-find (read_row now) (read_row-Keeps now) recipient id other other_id rows h
run-there (reads (some e) now other other_id) recipient id rows h = h
run-there (dismisses none other other_id) recipient id rows h =
    update_rows-find dismiss_row dismiss_row-Keeps recipient id other other_id rows h
run-there (dismisses (some e) other other_id) recipient id rows h = h

run_all-there :
    (os : List Operation) (recipient id : Text) (rows : List DeliveryRow)
    → find_row recipient id (run_all os rows) ≡ none
    → find_row recipient id rows ≡ none
run_all-there [] recipient id rows h = h
run_all-there (o ∷ os) recipient id rows h =
    run-there o recipient id rows (run_all-there os recipient id (run o rows) h)

insert_known :
    (now : ℕ) (recipient : Text) (n : Notification) (rows : List DeliveryRow) (row : DeliveryRow)
    → find_row recipient n.id rows ≡ some row
    → insert_site_delivery none now recipient n rows ≡ (ok (item_of n row), rows)
unfolding insert_site_delivery insert_row
insert_known now recipient n rows row e = rw (e, insert_row) refl

-- A delivery that is inserted again, as after a redelivery of its message, changes no row and adds
-- none, whatever deliveries, reads and dismissals of anyone came between: a notification that was read
-- or dismissed stays so. What the insert returns is the item of the row that is there.
pub insert_site_delivery_again :
    (now later : ℕ) (recipient : Text) (n : Notification) (rows : List DeliveryRow)
    (between : List Operation)
    → let table = run_all between (insert_site_delivery none now recipient n rows).1 in
      (row : DeliveryRow) × (find_row recipient n.id table ≡ some row)
      × (insert_site_delivery none later recipient n table ≡ (ok (item_of n row), table))
unfolding insert_site_delivery
insert_site_delivery_again now later recipient n rows between =
    let first = (insert_row now recipient n.id rows).1 in
    let table = run_all between first in
    elim (Option-cases (find_row recipient n.id table)) [
      | inl e ↦
          absurd (
            insert_row_there now recipient n.id rows (run_all-there between recipient n.id first e))
      | inr (row, e) ↦ (row, e, insert_known later recipient n table row e)
    ]
