-- ===== src/Tests/Stores.antt =====
-- Inboxes and preferences.
use csar_notify.Base.{
  Bool, In, List, Text, [], codes, false, if◌then◌else◌, inl, inr, ltb, none, ok, refl, some,
  text_eq, trim_space, true, ◌+◌, ◌∷◌, ◌≡◌, ◌≢◌,
}
use csar_notify.Domain.{Notification, Preference, channel_site, channel_web_push}
use csar_notify.Dispatch.{targets_for}
use csar_notify.Dispatch.Channels.{channels_of}
use csar_notify.Store.{
  DeliveryRow, new_row, find_row, insert_site_delivery, item_of, mark_read, dismiss, unread_rows,
  no_rows, merge_defaults, rows_of,
}
use csar_notify.Store.Dismissal.{Operation, reads, dismisses, run_all}
use csar_notify.Store.Again.{insert_site_delivery_again}
use csar_notify.Store.Inbox.{unread_at, mark_read_counts}
use csar_notify.Store.Preferences.{find, merged_site_not_sent}
use csar_notify.PreferencesApi.{put, items}
use csar_notify.PreferencesApi.Updates.{tables, order_by, stored, put_shows}
use csar_notify.Tests.Data.{known, ann, bob, order, on_site, on_push, off_push}

abbrev numbered : Notification
numbered = record order { id = codes "n2" }

abbrev rows : List DeliveryRow
rows = new_row 1 ann (codes "n1") ∷ new_row 1 bob (codes "n1") ∷ []

-- Before the notification comes again, ann reads and dismisses it, and bob reads another one.
abbrev between : List Operation
between =
    reads none 6 ann (codes "n2")
    ∷ reads none 7 bob (codes "n1")
    ∷ dismisses none ann (codes "n2")
    ∷ []

insert_site_delivery_again_example :
    let table = run_all between (insert_site_delivery none 5 ann numbered rows).1 in
    (row : DeliveryRow) × (find_row ann (codes "n2") table ≡ some row)
    × (insert_site_delivery none 9 ann numbered table ≡ (ok (item_of numbered row), table))
insert_site_delivery_again_example = insert_site_delivery_again 5 9 ann numbered rows between

mark_read_counts_example :
    let unread = if text_eq ann ann then unread_at ann (codes "n1") rows else 0 in
    (unread_rows ann (mark_read none 5 ann (codes "n1") rows).1 + unread ≡ unread_rows ann rows)
    × (unread_rows ann (dismiss none ann (codes "n1") rows).1 + unread ≡ unread_rows ann rows)
    × (find_row ann (codes "n1") rows ≡ none
        → (mark_read none 5 ann (codes "n1") rows ≡ (some no_rows, rows))
          × (dismiss none ann (codes "n1") rows ≡ (some no_rows, rows)))
    × (find_row ann (codes "n1") rows ≢ none
        → ((mark_read none 5 ann (codes "n1") rows).0 ≡ none)
          × ((dismiss none ann (codes "n1") rows).0 ≡ none))
mark_read_counts_example = mark_read_counts 5 ann ann (codes "n1") rows

merged_site_not_sent_example :
    ((p : Preference) × (find channel_site (merge_defaults ann (on_push ∷ [])) ≡ some p)
      × (p.enabled ≡ true))
    × ¬ In channel_site (channels_of (targets_for (on_push ∷ []) order))
merged_site_not_sent_example =
    merged_site_not_sent ann (on_push ∷ []) order (λ e. cc e)
      (λ i. elim i [ inl e ↦ cc e | inr x ↦ absurd x ]) refl

-- The order of texts by their first code point.
abbrev first_before : Text → Text → Bool
first_before [] t = true
first_before (c ∷ s) [] = false
first_before (c ∷ s) (d ∷ t) = ltb c d

put_shows_example :
    (out : List Preference) × ((put known
        (tables first_before 7)
        (some ann)
        (ok off_push)
        (on_site ∷ on_push ∷ [])).0
      ≡ items out)
    × ((c : Text)
        → find c out ≡ (
            if text_eq (trim_space off_push.channel) c
            then some (stored 7 ann off_push)
            else find c (
                merge_defaults ann (order_by first_before (rows_of ann (on_site ∷ on_push ∷ []))))))
unfolding csar_notify.Domain.channel_valid text_eq trim_space rows_of
put_shows_example =
    put_shows first_before known 7 ann off_push (on_site ∷ on_push ∷ []) refl refl refl
      ((λ i. elim i [ inl e ↦ cc e | inr x ↦ absurd x ]), ((λ i. absurd i), tt))
