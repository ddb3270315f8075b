-- ===== src/Store/Dismissal.antt =====
-- internal/store/postgres.go: the rows of a dismissed delivery, over any later calls on the deliveries.
use csar_notify.Base.{
  GoError, List, Option, Option-cases, Text, [], arith, inl, inr, none, refl, some, sym,
  text_eq_iff, true, ℕ, ◌++◌, ◌∷◌, ◌≡◌, ◌≢◌,
}
use csar_notify.Domain.{Notification}
use csar_notify.Store.{
  DeliveryRow, is_row, find_row, new_row, insert_row, insert_site_delivery, update_rows, read_row,
  dismiss_row, affected, mark_read, dismiss,
}

-- A call on the deliveries: a site delivery, for which the clock shows `now`, a read, or a dismissal,
-- each with the database's error.
pub data Operation : Type 0 where
  delivers : Option GoError → ℕ → Text → Notification → Operation
  reads : Option GoError → ℕ → Text → Text → Operation
  dismisses : Option GoError → Text → Text → Operation

abbrev pub run : Operation → List DeliveryRow → List DeliveryRow
run (delivers e now recipient n) rows = (insert_site_delivery e now recipient n rows).1
run (reads e now recipient id) rows = (mark_read e now recipient id rows).1
run (dismisses e recipient id) rows = (dismiss e recipient id rows).1

abbrev pub run_all : List Operation → List DeliveryRow → List DeliveryRow
run_all [] rows = rows
run_all (o ∷ os) rows = run_all os (run o rows)

-- There are rows of the delivery, and each of them is dismissed.
abbrev pub AllDismissed : Text → Text → List DeliveryRow → Type 0
AllDismissed recipient id [] = Unit
AllDismissed recipient id (row ∷ rows) =
    (is_row recipient id row ≡ true → row.dismissed ≡ true) × AllDismissed recipient id rows

pub record Gone (recipient id : Text) (rows : List DeliveryRow) : Type 0 where
  pub there : find_row recipient id rows ≢ none
  pub dismissed : AllDismissed recipient id rows

-- A change of a row that keeps its key, and a dismissal.
abbrev pub Keeps : (DeliveryRow → DeliveryRow) → Type 0
Keeps f =
    (row : DeliveryRow)
    → ((f row).recipient ≡ row.recipient)
      × ((f row).notification_id ≡ row.notification_id)
      × (row.dismissed ≡ true → (f row).dismissed ≡ true)

pub read_row-Keeps : (now : ℕ) → Keeps (read_row now)
unfolding read_row
read_row-Keeps now row = (refl, refl, λ h. h)

pub dismiss_row-Keeps : Keeps dismiss_row
unfolding dismiss_row
dismiss_row-Keeps row = (refl, refl, λ h. refl)

pub update_rows-find :
    (f : DeliveryRow → DeliveryRow)
    → Keeps f
    → (recipient id other other_id : Text) (rows : List DeliveryRow)
    → find_row recipient id (update_rows f other other_id rows).1 ≡ none
    → find_row recipient id rows ≡ none
unfolding update_rows find_row is_row
update_rows-find f keeps recipient id other other_id [] h = refl
update_rows-find f keeps recipient id other other_id (row ∷ rows) h =
    ground (arith, update_rows-find f keeps recipient id other other_id rows, keeps row)

update_rows-AllDismissed :
    (f : DeliveryRow → DeliveryRow)
    → Keeps f
    → (recipient id other other_id : Text) (rows : List DeliveryRow)
    → AllDismissed recipient id rows
    → AllDismissed recipient id (update_rows f other other_id rows).1
unfolding update_rows is_row
update_rows-AllDismissed f keeps recipient id other other_id [] h = tt
update_rows-AllDismissed f keeps recipient id other other_id (row ∷ rows) (h, rest) =
    ground
      (arith, h, update_rows-AllDismissed f keeps recipient id other other_id rows rest, keeps row)

update_rows-Gone :
    (f : DeliveryRow → DeliveryRow)
    → Keeps f
    → (recipient id other other_id : Text) (rows : List DeliveryRow) → Gone recipient id rows
    → Gone recipient id (update_rows f other other_id rows).1
update_rows-Gone f keeps recipient id other other_id rows g = record {
  there = λ h. g.there (update_rows-find f keeps recipient id other other_id rows h);
  dismissed = update_rows-AllDismissed f keeps recipient id other other_id rows g.dismissed;
}

pub append-find :
    (recipient id : Text) (rows : List DeliveryRow) (new : DeliveryRow)
    → find_row recipient id (rows ++ new ∷ []) ≡ none
    → find_row recipient id rows ≡ none
unfolding find_row
append-find recipient id [] new h = refl
append-find recipient id (row ∷ rows) new h = ground (arith, append-find recipient id rows new)

append-AllDismissed :
    (recipient id : Text) (rows : List DeliveryRow) (new : DeliveryRow)
    → AllDismissed recipient id rows
    → ¬ (is_row recipient id new ≡ true)
    → AllDismissed recipient id (rows ++ new ∷ [])
append-AllDismissed recipient id [] new h n = (λ e. absurd (n e), tt)
append-AllDismissed recipient id (row ∷ rows) new (h, rest) n =
    (h, append-AllDismissed recipient id rows new rest n)

new_row-key :
    (recipient id other other_id : Text) (now : ℕ)
    → is_row recipient id (new_row now other other_id) ≡ true
    → (other ≡ recipient) × (other_id ≡ id)
unfolding is_row
new_row-key recipient id other other_id now h =
    (ground (arith, text_eq_iff other recipient), ground (arith, text_eq_iff other_id id))

insert_row-Gone :
    (recipient id other other_id : Text) (now : ℕ) (rows : List DeliveryRow)
    → Gone recipient id rows
    → Gone recipient id (insert_row now other other_id rows).1
unfolding insert_row
insert_row-Gone recipient id other other_id now rows g =
    elim (Option-cases (find_row other other_id rows)) [
      | inl fresh ↦
          let new = new_row now other other_id in
          rw (fresh, insert_row)
            (record {
              there = λ h. g.there (append-find recipient id rows new h);
              dismissed = append-AllDismissed recipient id rows new g.dismissed (λ h.
                  let (r, i) = new_row-key recipient id other other_id now h in
                  g.there (rw (sym r, sym i) fresh));
            })
      | inr (row, e) ↦ rw (e, insert_row) g
    ]

run-Gone :
    (o : Operation) (recipient id : Text) (rows : List DeliveryRow)
    → Gone recipient id rows
    → Gone recipient id (run o rows)
unfolding insert_site_delivery mark_read dismiss
run-Gone (delivers none now other n) recipient id rows g =
    insert_row-Gone recipient id other n.id now rows g
run-Gone (delivers (some e) now other n) recipient id rows g = g
run-Gone (reads none now other other_id) recipient id rows g =
    update_rows-Gone (read_row now) (read_row-Keeps now) recipient id other other_id rows g
run-Gone (reads (some e) now other other_id) recipient id rows g = g
run-Gone (dismisses none other other_id) recipient id rows g =
    update_rows-Gone dismiss_row dismiss_row-Keeps recipient id other other_id rows g
run-Gone (dismisses (some e) other other_id) recipient id rows g = g

pub run_all-Gone :
    (os : List Operation) (recipient id : Text) (rows : List DeliveryRow)
    → Gone recipient id rows
    → Gone recipient id (run_all os rows)
run_all-Gone [] recipient id rows g = g
run_all-Gone (o ∷ os) recipient id rows g =
    run_all-Gone os recipient id (run o rows) (run-Gone o recipient id rows g)

dismissed_all :
    (recipient id : Text) (rows : List DeliveryRow)
    → AllDismissed recipient id (update_rows dismiss_row recipient id rows).1
unfolding update_rows dismiss_row is_row
dismissed_all recipient id [] = tt
dismissed_all recipient id (row ∷ rows) = ground (arith, dismissed_all recipient id rows)

affected_there :
    (recipient id : Text) (rows : List DeliveryRow)
    → find_row recipient id rows ≡ none
    → affected (update_rows dismiss_row recipient id rows).0 ≡ none
    → ⊥
unfolding update_rows find_row
affected_there recipient id [] n h = cc h
affected_there recipient id (row ∷ rows) n h = ground (arith, affected_there recipient id rows)

pub dismiss-Gone :
    (recipient id : Text) (rows : List DeliveryRow)
    → (dismiss none recipient id rows).0 ≡ none
    → Gone recipient id (dismiss none recipient id rows).1
unfolding dismiss
dismiss-Gone recipient id rows h = record {
  there = λ n.
      affected_there recipient id rows
        (update_rows-find dismiss_row dismiss_row-Keeps recipient id recipient id rows n) h;
  dismissed = dismissed_all recipient id rows;
}
