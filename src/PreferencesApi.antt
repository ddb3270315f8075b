-- ===== src/PreferencesApi.antt =====
-- internal/preferences/handler.go and internal/httpauth/subject.go: the requests on a subject's
-- preferences. What the gateway put into the request and what `httpx.ReadJSON` makes of its body are
-- inputs; `uuid.Parse` is the parameter `uuid_valid`.
pub mod Updates
use csar_notify.Base.{
  Bool, GoError, List, Option, Result, Text, [], arith, codes, err, if◌then◌else◌, is_empty, none,
  not, ok, plain, some, trim_space, true, ◌≡◌,
}
use csar_notify.Domain.{Preference, channel_valid, unique_loop}
use csar_notify.Store.{merge_defaults, raw_json}

-- type storeAccessor interface
pub record PreferenceStore (W : Type 0) : Type 0 where
  pub get_preferences : Text → W → Result (List Preference) × W
  pub upsert_preference : Text → Preference → W → Option GoError × W

-- The response: an error, or the items.
pub data Reply : Type 0 where
  refused : GoError → Reply
  items : List Preference → Reply

-- The loop of normalizeTopics is the one of uniqueStrings.
unfoldable pub normalize_topics : List Text → List Text
normalize_topics topics = unique_loop [] topics

module _ (uuid_valid : Text → Bool) where
  unfoldable pub subject_from_request : Option Text → Result Text
  subject_from_request none = err (plain (codes "missing gateway subject"))
  subject_from_request (some subject) =
      if is_empty subject
      then err (plain (codes "missing gateway subject"))
      else if not (uuid_valid subject)
      then err (plain (codes "gateway subject must be a valid UUID"))
      else ok subject

-- The preference of a request, as it is stored.
unfoldable pub cleaned : Preference → Preference
cleaned pref = record pref {
  channel = trim_space pref.channel;
  topics = normalize_topics pref.topics;
  config = raw_json pref.config;
}

module _ {W : Type 0} (uuid_valid : Text → Bool) (store : PreferenceStore W) where
  unfoldable pub show_preferences : Text → W → Reply × W
  show_preferences subject w =
      let (r, w') = store.get_preferences subject w in
      (elim r [ err e ↦ refused e | ok prefs ↦ items (merge_defaults subject prefs) ], w')

  unfoldable pub list : Option Text → W → Reply × W
  list identity w = elim (subject_from_request uuid_valid identity) [
    | err e ↦ (refused e, w)
    | ok subject ↦ show_preferences subject w
  ]

  unfoldable pub save : Text → Preference → W → Reply × W
  save subject pref w =
      let (e, w') = store.upsert_preference subject pref w in
      elim e [ some failure ↦ (refused failure, w') | none ↦ show_preferences subject w' ]

  unfoldable pub check_and_save : Text → Preference → W → Reply × W
  check_and_save subject pref w =
      if channel_valid (trim_space pref.channel)
      then save subject (cleaned pref) w
      else (refused (plain (codes "channel is invalid")), w)

  unfoldable pub put : Option Text → Result Preference → W → Reply × W
  put identity body w = elim (subject_from_request uuid_valid identity) [
    | err e ↦ (refused e, w)
    | ok subject ↦ elim body [ err e ↦ (refused e, w) | ok pref ↦ check_and_save subject pref w ]
  ]

pub subject_from_request-ok :
    (uuid_valid : Text → Bool) (identity : Option Text) (subject : Text)
    → subject_from_request uuid_valid identity ≡ ok subject
    → (identity ≡ some subject) × (uuid_valid subject ≡ true)
unfolding subject_from_request
subject_from_request-ok uuid_valid none subject h = cc h
subject_from_request-ok uuid_valid (some s) subject h = ground arith
