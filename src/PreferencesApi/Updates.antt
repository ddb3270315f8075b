-- ===== src/PreferencesApi/Updates.antt =====
-- internal/preferences/handler.go: a stored preference as its subject is shown it, with the tables of
-- the store behind the handler.
use csar_notify.Base.{
  Bool, Distinct, GoError, In, List, Option, Text, [], ap, arith, false, if◌then◌else◌, inr,
  is_empty, map, none, ok, refl, some, text_eq, text_eq_iff, text_eq_refl, trim_space, true, ℕ, ◌↔◌,
  ◌∙◌, ◌∷◌, ◌≡◌, ◌⊎◌,
}
use csar_notify.Domain.{Preference, channel_valid}
use csar_notify.Dispatch.Channels.{channel_of}
use csar_notify.Store.{
  default_preferences, get_preferences, merge_defaults, raw_json, rows_of, upsert_preference,
  upsert_row,
}
use csar_notify.Store.Preferences.{
  find, last_of, find-merge_defaults, find-upsert_row, last_of_absent,
}
use csar_notify.PreferencesApi.{
  PreferenceStore, items, cleaned, show_preferences, subject_from_request, save, check_and_save,
  put,
}

-- ORDER BY channel, where `before` is the database's order of texts.
module _ (before : Text → Text → Bool) where
  abbrev pub insert_ordered : Preference → List Preference → List Preference
  insert_ordered p [] = p ∷ []
  insert_ordered p (q ∷ qs) =
      let rest = insert_ordered p qs in if before q.channel p.channel then q ∷ rest else p ∷ q ∷ qs

  abbrev pub order_by : List Preference → List Preference
  order_by [] = []
  order_by (p ∷ ps) = insert_ordered p (order_by ps)

  -- The table of preferences as the handler's store, at the time `now`, while the database works.
  abbrev pub tables : ℕ → PreferenceStore (List Preference)
  tables now = record {
    get_preferences = λ subject rows. (get_preferences order_by none subject rows, rows);
    upsert_preference = λ subject pref rows. upsert_preference none now subject pref rows;
  }

  In-insert_ordered :
      (c : Text) (p : Preference) (qs : List Preference)
      → In c (map channel_of (insert_ordered p qs)) ↔ ((p.channel ≡ c) ⊎ In c (map channel_of qs))
  In-insert_ordered c p [] = ground arith
  In-insert_ordered c p (q ∷ qs) = ground (arith, In-insert_ordered c p qs)

  In-order_by :
      (c : Text) (ps : List Preference)
      → In c (map channel_of (order_by ps)) ↔ In c (map channel_of ps)
  In-order_by c [] = ground arith
  In-order_by c (p ∷ ps) = ground (arith, In-insert_ordered c p (order_by ps), In-order_by c ps)

  last_of-insert_ordered :
      (c : Text) (found : Option Preference) (p : Preference) (qs : List Preference)
      → ¬ In p.channel (map channel_of qs)
      → last_of c found (insert_ordered p qs)
        ≡ (if text_eq p.channel c then some p else last_of c found qs)
  last_of-insert_ordered c found p [] n = ground arith
  last_of-insert_ordered c found p (q ∷ qs) n = ground (
    arith,
    last_of-insert_ordered c (if text_eq q.channel c then some q else found) p qs,
    last_of_absent p.channel (some p) qs (λ i. n (inr i)),
    text_eq_iff p.channel c,
    text_eq_iff q.channel c,
  )

  -- The order of rows with different channels does not matter.
  last_of-order_by :
      (c : Text) (found : Option Preference) (ps : List Preference)
      → Distinct (map channel_of ps)
      → last_of c found (order_by ps) ≡ elim (find c ps) [ some p ↦ some p | none ↦ found ]
  last_of-order_by c found [] d = refl
  last_of-order_by c found (p ∷ ps) d = ground (
    arith,
    last_of-insert_ordered c found p (order_by ps),
    (In-order_by p.channel ps).0,
    d.0,
    last_of-order_by c found ps d.1,
  )

In-upsert_row :
    (c : Text) (p : Preference) (rows : List Preference)
    → In c (map channel_of (rows_of p.subject (upsert_row p rows)))
    → (p.channel ≡ c) ⊎ In c (map channel_of (rows_of p.subject rows))
unfolding rows_of upsert_row
In-upsert_row c p [] h = ground (arith, text_eq_refl p.subject)
In-upsert_row c p (row ∷ rows) h = ground (
  arith,
  In-upsert_row c p rows,
  text_eq_iff row.subject p.subject,
  text_eq_iff row.channel p.channel,
)

upsert_row-Distinct :
    (p : Preference) (rows : List Preference)
    → Distinct (map channel_of (rows_of p.subject rows))
    → Distinct (map channel_of (rows_of p.subject (upsert_row p rows)))
unfolding rows_of upsert_row
upsert_row-Distinct p [] d = ground (arith, text_eq_refl p.subject)
upsert_row-Distinct p (row ∷ rows) d = ground (
  arith,
  upsert_row-Distinct p rows,
  In-upsert_row row.channel p rows,
  text_eq_iff row.subject p.subject,
  text_eq_iff row.channel p.channel,
)

raw_json_idem : (json : Text) → raw_json (raw_json json) ≡ raw_json json
unfolding raw_json
raw_json_idem [] = refl
raw_json_idem (c ∷ json) = refl

-- What is stored for a request.
abbrev pub stored : ℕ → Text → Preference → Preference
stored now subject pref = record (cleaned pref) { subject = subject; updated_at = now }

upserted :
    (now : ℕ) (subject : Text) (pref : Preference) (rows : List Preference)
    → upsert_preference none now subject (cleaned pref) rows
      ≡ (none, upsert_row (stored now subject pref) rows)
unfolding upsert_preference cleaned
upserted now subject pref rows = rw (raw_json_idem pref.config)

shown :
    (before : Text → Text → Bool) (subject c : Text) (ps : List Preference)
    → Distinct (map channel_of ps)
    → find c (merge_defaults subject (order_by before ps))
      ≡ elim (find c ps) [ some p ↦ some p | none ↦ find c (default_preferences subject) ]
shown before subject c ps d =
    find-merge_defaults subject c (order_by before ps)
    ∙ last_of-order_by before c (find c (default_preferences subject)) ps d

subject_accepted :
    (uuid_valid : Text → Bool) (subject : Text)
    → is_empty subject ≡ false
    → uuid_valid subject ≡ true
    → subject_from_request uuid_valid (some subject) ≡ ok subject
unfolding subject_from_request
subject_accepted uuid_valid subject full known = ground arith

put_reply :
    (before : Text → Text → Bool) (uuid_valid : Text → Bool) (now : ℕ) (subject : Text)
    (pref : Preference) (rows : List Preference)
    → is_empty subject ≡ false
    → uuid_valid subject ≡ true
    → channel_valid (trim_space pref.channel) ≡ true
    → (put uuid_valid (tables before now) (some subject) (ok pref) rows).0
      ≡ items (
          merge_defaults subject
            (order_by before (rows_of subject (upsert_row (stored now subject pref) rows))))
unfolding put check_and_save save show_preferences get_preferences
put_reply before uuid_valid now subject pref rows full known valid =
    rw (subject_accepted uuid_valid subject full known, put)
      (rw (valid, check_and_save)
        (rw (upserted now subject pref rows, save)
          (ap
            (λ (u : Option GoError × List Preference).
              (show_preferences uuid_valid (tables before now) subject u.1).0)
            (upserted now subject pref rows))))

-- A request to store a preference with a known channel, by a subject whose rows have different
-- channels as the table's key asks, is answered with the preference as it was cleaned and stored, and
-- for every other channel with what the subject was shown before.
pub put_shows :
    (before : Text → Text → Bool) (uuid_valid : Text → Bool) (now : ℕ) (subject : Text)
    (pref : Preference) (rows : List Preference)
    → is_empty subject ≡ false
    → uuid_valid subject ≡ true
    → channel_valid (trim_space pref.channel) ≡ true
    → Distinct (map channel_of (rows_of subject rows))
    → (out : List Preference) × ((put uuid_valid
          (tables before now)
          (some subject)
          (ok pref)
          rows).0
        ≡ items out)
      × ((c : Text)
          → find c out ≡ (
              if text_eq (trim_space pref.channel) c
              then some (stored now subject pref)
              else find c (merge_defaults subject (order_by before (rows_of subject rows)))))
unfolding cleaned
put_shows before uuid_valid now subject pref rows full known valid d =
    let p = stored now subject pref in
    let rows' = upsert_row p rows in
    (
      merge_defaults subject (order_by before (rows_of subject rows')),
      put_reply before uuid_valid now subject pref rows full known valid,
      λ c. ground (
        arith,
        shown before subject c (rows_of subject rows') (upsert_row-Distinct p rows d),
        shown before subject c (rows_of subject rows) d,
        find-upsert_row subject c p rows,
        text_eq_refl subject,
      ),
    )
