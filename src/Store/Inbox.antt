-- ===== src/Store/Inbox.antt =====
-- internal/store/postgres.go: counts of unread items, and repeated reads.
use csar_notify.Base.{
  List, Option-cases, Text, [], arith, false, if◌then◌else◌, inl, inr, none, refl, some, suc,
  text_eq, text_eq_iff, ℕ, ◌&&◌, ◌+◌, ◌∷◌, ◌≡◌, ◌≢◌,
}
use csar_notify.Store.{
  DeliveryRow, is_row, find_row, update_rows, read_row, dismiss_row, affected, mark_read, dismiss,
  is_unread, unread_rows, no_rows,
}

-- The unread rows of a recipient for one notification.
abbrev pub unread_at : Text → Text → List DeliveryRow → ℕ
unread_at recipient id [] = 0
unread_at recipient id (row ∷ rows) =
    let rest = unread_at recipient id rows in
    if is_row recipient id row && is_unread recipient row then suc rest else rest

abbrev Reads : (DeliveryRow → DeliveryRow) → Type 0
Reads f =
    (row : DeliveryRow) (recipient : Text)
    → ((f row).recipient ≡ row.recipient) × (is_unread recipient (f row) ≡ false)

update_rows-unread :
    (f : DeliveryRow → DeliveryRow)
    → Reads f
    → (recipient other id : Text) (rows : List DeliveryRow)
    → unread_rows other (update_rows f recipient id rows).1
        + (if text_eq recipient other then unread_at recipient id rows else 0)
      ≡ unread_rows other rows
unfolding update_rows unread_rows is_row
update_rows-unread f reads recipient other id [] = ground arith
update_rows-unread f reads recipient other id (row ∷ rows) = ground (
  arith,
  update_rows-unread f reads recipient other id rows,
  reads row other,
  text_eq_iff recipient other,
  text_eq_iff row.recipient recipient,
  text_eq_iff row.recipient other,
)

pub update_rows-none :
    (f : DeliveryRow → DeliveryRow) (recipient id : Text) (rows : List DeliveryRow)
    → find_row recipient id rows ≡ none
    → update_rows f recipient id rows ≡ (0, rows)
unfolding update_rows find_row
update_rows-none f recipient id [] h = refl
update_rows-none f recipient id (row ∷ rows) h =
    ground (arith, update_rows-none f recipient id rows)

pub update_rows-some :
    (f : DeliveryRow → DeliveryRow) (recipient id : Text) (rows : List DeliveryRow)
    {row : DeliveryRow}
    → find_row recipient id rows ≡ some row
    → affected (update_rows f recipient id rows).0 ≡ none
unfolding update_rows find_row
update_rows-some f recipient id [] h = ground arith
update_rows-some f recipient id (r ∷ rows) {row} h =
    ground (arith, update_rows-some f recipient id rows {row = row})

read_row-Reads : (now : ℕ) → Reads (read_row now)
unfolding read_row
read_row-Reads now row recipient = ground arith

dismiss_row-Reads : Reads dismiss_row
unfolding dismiss_row
dismiss_row-Reads row recipient = ground arith

-- Marking a notification as read, or dismissing it, takes exactly its own unread rows off the
-- recipient's count and leaves every other recipient's count as it was; where there is no such row it
-- reports that and changes nothing, and otherwise it reports no error.
pub mark_read_counts :
    (now : ℕ) (recipient other id : Text) (rows : List DeliveryRow)
    → let unread = if text_eq recipient other then unread_at recipient id rows else 0 in
      (unread_rows other (mark_read none now recipient id rows).1 + unread ≡ unread_rows other rows)
      × (unread_rows other (dismiss none recipient id rows).1 + unread ≡ unread_rows other rows)
      × (find_row recipient id rows ≡ none
          → (mark_read none now recipient id rows ≡ (some no_rows, rows))
            × (dismiss none recipient id rows ≡ (some no_rows, rows)))
      × (find_row recipient id rows ≢ none
          → ((mark_read none now recipient id rows).0 ≡ none)
            × ((dismiss none recipient id rows).0 ≡ none))
unfolding mark_read dismiss
mark_read_counts now recipient other id rows = (
  update_rows-unread (read_row now) (read_row-Reads now) recipient other id rows,
  update_rows-unread dismiss_row dismiss_row-Reads recipient other id rows,
  λ h. (
    rw (update_rows-none (read_row now) recipient id rows h),
    rw (update_rows-none dismiss_row recipient id rows h),
  ),
  λ h. elim (Option-cases (find_row recipient id rows)) [
    | inl e ↦ absurd (h e)
    | inr (row, e) ↦ (
      update_rows-some (read_row now) recipient id rows e,
      update_rows-some dismiss_row recipient id rows e,
    )
  ],
)

is_row-read_row :
    (now : ℕ) (recipient id : Text) (row : DeliveryRow)
    → is_row recipient id (read_row now row) ≡ is_row recipient id row
unfolding is_row read_row
is_row-read_row now recipient id row = refl

read_row_again :
    (now later : ℕ) (row : DeliveryRow) → read_row later (read_row now row) ≡ read_row now row
unfolding read_row
read_row_again now later row = ground arith

update_rows_again :
    (now later : ℕ) (recipient id : Text) (rows : List DeliveryRow)
    → update_rows (read_row later) recipient id (update_rows (read_row now) recipient id rows).1
      ≡ update_rows (read_row now) recipient id rows
unfolding update_rows
update_rows_again now later recipient id [] = refl
update_rows_again now later recipient id (row ∷ rows) = ground (
  arith,
  update_rows_again now later recipient id rows,
  is_row-read_row now recipient id row,
  read_row_again now later row,
)

-- Marking a notification as read a second time changes nothing: the time of the first read stays.
pub mark_read_again :
    (now later : ℕ) (recipient id : Text) (rows : List DeliveryRow)
    → mark_read none later recipient id (mark_read none now recipient id rows).1
      ≡ mark_read none now recipient id rows
unfolding mark_read
mark_read_again now later recipient id rows = rw (update_rows_again now later recipient id rows)
