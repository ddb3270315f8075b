-- ===== src/Store/Listing/Shown.antt =====
-- internal/store/postgres.go: a delivery from its insert to the inbox.
use csar_notify.Base.{
  Bool-cases, Dict, GoError, In, List, Option, Text, [], ap, arith, codes, inl, inr, none, ok, refl,
  some, subst, sym, text_eq, text_eq_iff, text_eq_refl, trim_space, true, ℕ, ◌++◌, ◌∙◌, ◌∷◌, ◌≡◌,
  ◌≢◌,
}
use csar_notify.Domain.Validation.{priority_valid_iff}
use csar_notify.Domain.{Notification, Delivery, priority_valid}
use csar_notify.Store.{DeliveryRow, find_row, new_row, insert_row, item_of, insert_site_delivery}
use csar_notify.Store.Listing.{
  NotificationRow, find_notification, upsert_notification_row, map_to_json, row_of,
  upsert_notification, is_listed, decode_metadata, scan_delivery, joined_row, listed,
}

stored-id :
    (new : NotificationRow) (rows : List NotificationRow)
    → (upsert_notification_row new rows).0
      ≡ record new { created_at = (upsert_notification_row new rows).0.created_at }
unfolding upsert_notification_row
stored-id new [] = refl
stored-id new (row ∷ rows) = elim (Bool-cases (text_eq row.id new.id)) [
  | inl e ↦
      let same : row.id ≡ new.id = (text_eq_iff row.id new.id).0 e in
      rw (e, upsert_notification_row)
        (ap (λ (i : Text). record new { id = i; created_at = row.created_at }) same)
  | inr e ↦ rw (e, upsert_notification_row) (stored-id new rows)
]

stored-find :
    (new : NotificationRow) (rows : List NotificationRow)
    → find_notification new.id (upsert_notification_row new rows).1
      ≡ some (upsert_notification_row new rows).0
unfolding upsert_notification_row find_notification
stored-find new [] = ground (arith, text_eq_refl new.id)
stored-find new (row ∷ rows) = elim (Bool-cases (text_eq row.id new.id)) [
  | inl e ↦ ground (arith, e)
  | inr e ↦ ground (arith, e, stored-find new rows)
]

listed-append :
    (unmarshal : Text → Option (Dict Text)) (recipient : Text)
    (notifications : List NotificationRow) (rows : List DeliveryRow) (row : DeliveryRow)
    (n : NotificationRow)
    → is_listed recipient row ≡ true
    → find_notification row.notification_id notifications ≡ some n
    → In
        (scan_delivery unmarshal n row)
        (listed unmarshal recipient notifications (rows ++ row ∷ []))
unfolding listed joined_row
listed-append unmarshal recipient notifications [] row n l f = ground (arith, l, f)
listed-append unmarshal recipient notifications (r ∷ rows) row n l f =
    ground (arith, listed-append unmarshal recipient notifications rows row n l f)

new_row-is_listed :
    (now : ℕ) (recipient id : Text) → is_listed recipient (new_row now recipient id) ≡ true
unfolding is_listed
new_row-is_listed now recipient id = ground (arith, text_eq_refl recipient)

metadata_kept :
    (marshal : Dict Text → Option Text) (unmarshal : Text → Option (Dict Text))
    (metadata : Dict Text) (json : Text)
    → marshal metadata ≡ some json
    → json ≢ []
    → unmarshal json ≡ some metadata
    → unmarshal (codes "{}") ≡ some []
    → decode_metadata unmarshal (map_to_json marshal metadata) ≡ metadata
unfolding decode_metadata map_to_json
metadata_kept marshal unmarshal [] json m j u e = rw e refl
metadata_kept marshal unmarshal (x ∷ metadata) [] m j u e = absurd (j refl)
metadata_kept marshal unmarshal (x ∷ metadata) (c ∷ json) m j u e = ground (arith, m, u)

priority_kept : (p : Text) → priority_valid p ≡ true → trim_space p ≡ p
unfolding trim_space
priority_kept p h = elim ((priority_valid_iff p).0 h) [
  | inl e ↦ subst (λ (t : Text). trim_space t ≡ t) e (refl)
  | inr (inl e) ↦ subst (λ (t : Text). trim_space t ≡ t) e (refl)
  | inr (inr (inl e)) ↦ subst (λ (t : Text). trim_space t ≡ t) e (refl)
  | inr (inr (inr (inl e))) ↦ subst (λ (t : Text). trim_space t ≡ t) e (refl)
  | inr (inr (inr (inr e))) ↦ absurd e
]

-- What the upsert returns and stores, for one notification.
upsert_stored :
    (marshal : Dict Text → Option Text) (new_id : Text) (now : ℕ) (n n' : Notification)
    (notifications notifications' : List NotificationRow)
    → upsert_notification marshal none new_id now n notifications ≡ (none, (n', notifications'))
    → (n' ≡ record n { id = n'.id; created_at = n'.created_at })
      × (find_notification n'.id notifications'
          ≡ some (record (row_of marshal new_id now n) { id = n'.id; created_at = n'.created_at }))
unfolding upsert_notification
upsert_stored marshal new_id now n n' notifications notifications' e = ground (
  arith,
  ap (λ (x : Option GoError × (Notification × List NotificationRow)). x.1.0) e,
  ap (λ (x : Option GoError × (Notification × List NotificationRow)). x.1.1) e,
  stored-id (row_of marshal new_id now n) notifications,
  stored-find (row_of marshal new_id now n) notifications,
)

insert_fresh :
    (later : ℕ) (recipient : Text) (n : Notification) (rows : List DeliveryRow)
    → find_row recipient n.id rows ≡ none
    → insert_site_delivery none later recipient n rows
      ≡ (ok (item_of n (new_row later recipient n.id)), rows ++ new_row later recipient n.id ∷ [])
unfolding insert_site_delivery insert_row item_of
insert_fresh later recipient n rows h = rw (h, insert_row) refl

-- What the inbox reads of a stored notification is what the insert returned.
scan_stored :
    (unmarshal : Text → Option (Dict Text)) (n : Notification) (stored : NotificationRow)
    (d : DeliveryRow)
    → stored.id ≡ n.id
    → stored.topic ≡ n.topic
    → stored.title ≡ n.title
    → stored.body ≡ n.body
    → stored.link ≡ n.link
    → stored.sender ≡ n.sender
    → stored.created_at ≡ n.created_at
    → decode_metadata unmarshal stored.metadata ≡ n.metadata
    → trim_space stored.priority ≡ n.priority
    → d.notification_id ≡ n.id
    → scan_delivery unmarshal stored d ≡ record (item_of n d) { created_at = n.created_at }
unfolding scan_delivery item_of
scan_stored unmarshal n stored d a1 a2 a3 a4 a5 a6 a7 a8 a9 a10 = ground arith

-- A notification whose priority is one of the four of the domain, and which is stored without an error
-- and then delivered to a recipient who has no delivery of it yet, is in
-- the recipient's inbox as the delivery that the insert returned, every field the same except the
-- time of creation, which is that of the notification. The JSON of the metadata is assumed to be a
-- text that is not empty and from which the same metadata can be read, and an empty object to be read
-- as no metadata.
pub insert-listed :
    (marshal : Dict Text → Option Text) (unmarshal : Text → Option (Dict Text))
    (new_id recipient : Text) (now later : ℕ) (n n' : Notification)
    (notifications notifications' : List NotificationRow) (rows rows' : List DeliveryRow)
    (item : Delivery) (json : Text)
    → priority_valid n.priority ≡ true
    → marshal n.metadata ≡ some json
    → json ≢ []
    → unmarshal json ≡ some n.metadata
    → unmarshal (codes "{}") ≡ some []
    → upsert_notification marshal none new_id now n notifications ≡ (none, (n', notifications'))
    → find_row recipient n'.id rows ≡ none
    → insert_site_delivery none later recipient n' rows ≡ (ok item, rows')
    → In
        (record item { created_at = n'.created_at })
        (listed unmarshal recipient notifications' rows')
unfolding row_of
insert-listed marshal unmarshal new_id recipient now later n n' notifications notifications' rows
      rows' item json p m j u e0 up fresh ins =
    let (same, stored) = upsert_stored marshal new_id now n n' notifications notifications' up in
    let row = new_row later recipient n'.id in
    let back : (ok (item_of n' row), rows ++ row ∷ []) ≡ (ok item, rows') =
      sym (insert_fresh later recipient n' rows fresh) ∙ ins in
    let one : item_of n' row ≡ item = ground (arith, back) in
    let two : rows ++ row ∷ [] ≡ rows' = ground (arith, back) in
    let kept = metadata_kept marshal unmarshal n.metadata json m j u e0 in
    let scanned =
      scan_stored unmarshal n'
        (record (row_of marshal new_id now n) { id = n'.id; created_at = n'.created_at }) row refl
        (ap (λ (x : Notification). x.topic) (sym same))
        (ap (λ (x : Notification). x.title) (sym same))
        (ap (λ (x : Notification). x.body) (sym same))
        (ap (λ (x : Notification). x.link) (sym same))
        (ap (λ (x : Notification). x.sender) (sym same)) refl
        (kept ∙ (ap (λ (x : Notification). x.metadata) (sym same)))
        (priority_kept n.priority p ∙ (ap (λ (x : Notification). x.priority) (sym same))) refl in
    let found =
      listed-append unmarshal recipient notifications' rows row
        (record (row_of marshal new_id now n) { id = n'.id; created_at = n'.created_at })
        (new_row-is_listed later recipient n'.id) stored in
    rw (sym two, sym one)
      (subst (λ (d : Delivery). In d (listed unmarshal recipient notifications' (rows ++ row ∷ [])))
        scanned found)
