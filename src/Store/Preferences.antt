-- ===== src/Store/Preferences.antt =====
-- internal/store/postgres.go: what a subject is shown of their preferences.
use csar_notify.Base.{
  Any, Dict, In, List, Option, Option-cases, Text, [], arith, if◌then◌else◌, inl, inr, insert,
  length, lookup, lookup-insert, map, none, refl, some, suc, sym, text_eq, text_eq_iff, true, zero,
  ℕ, ◌&&◌, ◌++◌, ◌+◌, ◌∙◌, ◌∷◌, ◌≡◌, ◌≢◌, ◌≤◌,
}
use csar_notify.Domain.{Notification, Preference, channel_site, channel_web_push, topic_matches}
use csar_notify.Dispatch.{targets_for}
use csar_notify.Dispatch.Channels.{channels_of, channel_of, targets_for_preferences}
use csar_notify.Store.{
  default_preferences, set_at, merge_loop, merge_defaults, upsert_row, upsert_preference, rows_of,
  raw_json,
}

-- The first preference for the channel.
abbrev pub find : Text → List Preference → Option Preference
find c [] = none
find c (p ∷ ps) = if text_eq p.channel c then some p else find c ps

-- The last preference for the channel, or else `found`.
abbrev pub last_of : Text → Option Preference → List Preference → Option Preference
last_of c found [] = found
last_of c found (p ∷ ps) = last_of c (if text_eq p.channel c then some p else found) ps

-- Where the channel stands, counted from `i`.
abbrev position : Text → ℕ → List Preference → Option ℕ
position c i [] = none
position c i (p ∷ ps) = if text_eq p.channel c then some i else position c (suc i) ps

position-bound :
    (c : Text) (i : ℕ) (ps : List Preference) {k : ℕ} → position c i ps ≡ some k → i ≤ k
position-bound c i [] h = ground arith
position-bound c i (p ∷ ps) {k} h = ground (arith, position-bound c (suc i) ps {k = k})

-- The index tells of every channel where it stands.
abbrev Indexes : Dict ℕ → List Preference → Type 0
Indexes index out = (c : Text) → lookup c index ≡ position c 0 out

position-append :
    (c : Text) (i : ℕ) (out : List Preference) (p : Preference)
    → position c i (out ++ p ∷ []) ≡ elim (position c i out) [
      | some k ↦ some k
      | none ↦ if text_eq p.channel c then some (i + length out) else none
    ]
position-append c i [] p = ground arith
position-append c i (x ∷ out) p = ground (arith, position-append c (suc i) out p)

find-append :
    (c : Text) (out : List Preference) (p : Preference)
    → position p.channel 0 out ≡ none
    → find c (out ++ p ∷ []) ≡ (if text_eq p.channel c then some p else find c out)
find-append c out p h = go 0 out h
  where
    go :
        (i : ℕ) (xs : List Preference)
        → position p.channel i xs ≡ none
        → find c (xs ++ p ∷ []) ≡ (if text_eq p.channel c then some p else find c xs)
    go i [] n = refl
    go i (x ∷ xs) n = ground (
      arith,
      go (suc i) xs,
      text_eq_iff x.channel c,
      text_eq_iff x.channel p.channel,
      text_eq_iff p.channel c,
    )

at_head :
    (i : ℕ) (x : Preference) (out : List Preference) (p : Preference)
    → position p.channel i (x ∷ out) ≡ some (0 + i)
    → x.channel ≡ p.channel
at_head i x out p h =
    ground (arith, position-bound p.channel (suc i) out {k = i}, text_eq_iff x.channel p.channel)

position-set_at :
    (c : Text) (i k : ℕ) (out : List Preference) (p : Preference)
    → position p.channel i out ≡ some (k + i)
    → position c i (set_at k p out) ≡ position c i out
unfolding set_at
position-set_at c i k [] p h = refl
position-set_at c i zero (x ∷ out) p h =
    ground (arith, at_head i x out p h, text_eq_iff x.channel c, text_eq_iff p.channel c)
position-set_at c i (suc k) (x ∷ out) p h = ground (arith, position-set_at c (suc i) k out p)

find-set_at :
    (c : Text) (i k : ℕ) (out : List Preference) (p : Preference)
    → position p.channel i out ≡ some (k + i)
    → find c (set_at k p out) ≡ (if text_eq p.channel c then some p else find c out)
unfolding set_at
find-set_at c i k [] p h = ground arith
find-set_at c i zero (x ∷ out) p h =
    ground (arith, at_head i x out p h, text_eq_iff x.channel c, text_eq_iff p.channel c)
find-set_at c i (suc k) (x ∷ out) p h = ground (
  arith,
  find-set_at c (suc i) k out p,
  text_eq_iff x.channel c,
  text_eq_iff p.channel c,
  text_eq_iff x.channel p.channel,
)

insert-Indexes :
    (index : Dict ℕ) (out : List Preference) (p : Preference)
    → Indexes index out
    → lookup p.channel index ≡ none
    → Indexes (insert p.channel (length out) index) (out ++ p ∷ [])
insert-Indexes index out p v h c = ground (
  arith,
  v c,
  lookup-insert p.channel c (length out) index,
  position-append c 0 out p,
  text_eq_iff p.channel c,
)

find-merge_loop :
    (c : Text) (out : List Preference) (index : Dict ℕ) (prefs : List Preference)
    → Indexes index out
    → find c (merge_loop out index prefs) ≡ last_of c (find c out) prefs
unfolding merge_loop
find-merge_loop c out index [] v = refl
find-merge_loop c out index (p ∷ ps) v = elim (Option-cases (lookup p.channel index)) [
  | inl e ↦
      rw (e, merge_loop)
        (find-merge_loop c (out ++ p ∷ []) (insert p.channel (length out) index) ps
            (insert-Indexes index out p v e)
          ∙ rw (find-append c out p (sym (v p.channel) ∙ e)))
  | inr (k, e) ↦
      let here : position p.channel 0 out ≡ some (k + 0) = sym (v p.channel) ∙ ground (arith, e) in
      rw (e, merge_loop)
        (find-merge_loop c (set_at k p out) index ps
            (λ d. v d ∙ sym (position-set_at d 0 k out p here))
          ∙ rw (find-set_at c 0 k out p here))
]

default-Indexes :
    (subject : Text)
    → Indexes ((channel_site, 0) ∷ (channel_web_push, 1) ∷ []) (default_preferences subject)
unfolding lookup default_preferences
default-Indexes subject c = ground arith

-- What is shown for a channel is the subject's last stored preference for it, or else the default
-- for it, which the site and web push have.
pub find-merge_defaults :
    (subject c : Text) (prefs : List Preference)
    → find c (merge_defaults subject prefs) ≡ last_of c (find c (default_preferences subject)) prefs
unfolding merge_defaults
find-merge_defaults subject c prefs =
    find-merge_loop c (default_preferences subject) ((channel_site, 0) ∷ (channel_web_push, 1) ∷ [])
      prefs (default-Indexes subject)

pub last_of_absent :
    (c : Text) (found : Option Preference) (ps : List Preference)
    → ¬ In c (map channel_of ps)
    → last_of c found ps ≡ found
last_of_absent c found [] h = refl
last_of_absent c found (p ∷ ps) h =
    ground (arith, text_eq_iff p.channel c, last_of_absent c found ps (λ i. h (inr i)))

-- The preferences that are there, but none for the channel.
no_Any :
    (c topic : Text) (ps : List Preference)
    → ¬ In c (map channel_of ps)
    → ¬ Any
        (λ (p : Preference).
          (p.channel ≡ c) × (p.enabled ≡ true) × (topic_matches p.topics topic ≡ true))
        ps
no_Any c topic [] h a = a
no_Any c topic (p ∷ ps) h (inl a) = h (inl a.0)
no_Any c topic (p ∷ ps) h (inr a) = no_Any c topic ps (λ i. h (inr i)) a

default_site :
    (subject : Text)
    → (p : Preference) × (find channel_site (default_preferences subject) ≡ some p)
      × (p.enabled ≡ true)
unfolding default_preferences text_eq
default_site subject = (_, refl, refl)

-- A subject who has preferences, but none for the site, is shown the site as enabled, while a
-- notification that names no channel is not sent to them on the site.
pub merged_site_not_sent :
    (subject : Text) (prefs : List Preference) (n : Notification)
    → prefs ≢ []
    → ¬ In channel_site (map channel_of prefs)
    → n.channels ≡ []
    → ((p : Preference) × (find channel_site (merge_defaults subject prefs) ≡ some p)
        × (p.enabled ≡ true))
      × ¬ In channel_site (channels_of (targets_for prefs n))
merged_site_not_sent subject prefs n full absent e =
    let shown =
      find-merge_defaults subject channel_site prefs
      ∙ last_of_absent channel_site (find channel_site (default_preferences subject)) prefs
          absent in
    let (p, same, on) = default_site subject in
    (
      (p, shown ∙ same, on),
      λ i.
          no_Any channel_site n.topic prefs absent
            (((targets_for_preferences channel_site prefs n e).0 full).0 i),
    )

pub find-upsert_row :
    (subject c : Text) (p : Preference) (rows : List Preference)
    → find c (rows_of subject (upsert_row p rows)) ≡ (
        if text_eq p.subject subject && text_eq p.channel c
        then some p
        else find c (rows_of subject rows))
unfolding rows_of upsert_row
find-upsert_row subject c p [] = ground arith
find-upsert_row subject c p (row ∷ rows) = ground (
  arith,
  find-upsert_row subject c p rows,
  text_eq_iff row.subject subject,
  text_eq_iff p.subject subject,
  text_eq_iff row.subject p.subject,
  text_eq_iff row.channel c,
  text_eq_iff p.channel c,
  text_eq_iff row.channel p.channel,
)

-- After a preference was stored, its subject has exactly it for its channel, with an empty object in
-- place of an empty config; every other channel and every other subject keeps what it had.
pub find-upsert_preference :
    (now : ℕ) (subject other c : Text) (pref : Preference) (rows : List Preference)
    → find c (rows_of other (upsert_preference none now subject pref rows).1) ≡ (
        if text_eq subject other && text_eq pref.channel c
        then some
            (record pref { subject = subject; config = raw_json pref.config; updated_at = now })
        else find c (rows_of other rows))
unfolding upsert_preference
find-upsert_preference now subject other c pref rows =
    find-upsert_row other c
      (record pref { subject = subject; config = raw_json pref.config; updated_at = now }) rows
