-- ===== src/Domain/Validation.antt =====
-- What `ValidateNotification` accepts, and what it leaves behind.
use csar_notify.Base.{
  All, Bool, GoError, In, List, Option-cases, Text, [], arith, false, inl, inr, joined, none, plain,
  refl, send_error, some, text_eq_iff, trim_space_idem, true, wrapped, wrapped_nil, ◌↔◌, ◌∷◌, ◌≡◌,
  ◌≢◌, ◌⊎◌,
}
use csar_notify.Domain.{
  Notification, priority_low, priority_normal, priority_high, priority_urgent, channel_site,
  channel_telegram, channel_email, channel_web_push, normalize, channel_valid, priority_valid,
  check_channels, check_recipients, check_fields, validate_notification,
}
use csar_notify.Domain.Unique.{unique_strings_idem, unique_channels_idem}

abbrev pub IsChannel : Text → Type 0
IsChannel c = In c (channel_site ∷ channel_telegram ∷ channel_email ∷ channel_web_push ∷ [])

abbrev pub IsPriority : Text → Type 0
IsPriority p = In p (priority_low ∷ priority_normal ∷ priority_high ∷ priority_urgent ∷ [])

channel_valid_iff : (c : Text) → (channel_valid c ≡ true) ↔ IsChannel c
unfolding channel_valid
channel_valid_iff c = ground (
  arith,
  text_eq_iff c channel_site,
  text_eq_iff c channel_telegram,
  text_eq_iff c channel_email,
  text_eq_iff c channel_web_push,
)

pub priority_valid_iff : (p : Text) → (priority_valid p ≡ true) ↔ IsPriority p
unfolding priority_valid
priority_valid_iff p = ground (
  arith,
  text_eq_iff p priority_low,
  text_eq_iff p priority_normal,
  text_eq_iff p priority_high,
  text_eq_iff p priority_urgent,
)

check_channels_iff : (cs : List Text) → (check_channels cs ≡ none) ↔ All IsChannel cs
unfolding check_channels
check_channels_iff [] = (λ h. tt, λ h. refl)
check_channels_iff (c ∷ cs) = ground (arith, channel_valid_iff c, check_channels_iff cs)

module _ (uuid_valid : Text → Bool) where
  check_recipients_iff :
      (rs : List Text) → (check_recipients uuid_valid rs ≡ none) ↔ All (λ r. uuid_valid r ≡ true) rs
  unfolding check_recipients
  check_recipients_iff [] = (λ h. tt, λ h. refl)
  check_recipients_iff (r ∷ rs) = ground (arith, check_recipients_iff rs)

  -- What a notification must be for the rest of the program.
  pub record IsValid (n : Notification) : Type 0 where
    pub id_ok : (n.id ≡ []) ⊎ (uuid_valid n.id ≡ true)
    pub has_topic : n.topic ≢ []
    pub has_title : n.title ≢ []
    pub priority_known : IsPriority n.priority
    pub recipients_ok : All (λ r. uuid_valid r ≡ true) n.recipients
    pub channels_known : All IsChannel n.channels

  check_fields_sound : (n : Notification) → check_fields uuid_valid n ≡ none → IsValid n
  unfolding check_fields
  check_fields_sound n h = record {
    id_ok = ground arith;
    has_topic = λ e. ground arith;
    has_title = λ e. ground arith;
    priority_known = (priority_valid_iff n.priority).0 (ground arith);
    recipients_ok = (check_recipients_iff n.recipients).0 (ground arith);
    channels_known = (check_channels_iff n.channels).0 (ground arith);
  }

  check_fields_complete : (n : Notification) → IsValid n → check_fields uuid_valid n ≡ none
  unfolding check_fields
  check_fields_complete n v = ground (
    arith,
    (priority_valid_iff n.priority).1 v.priority_known,
    (check_recipients_iff n.recipients).1 v.recipients_ok,
    (check_channels_iff n.channels).1 v.channels_known,
  )

  -- Validation accepts exactly the notifications whose normalized form is valid, and in either case
  -- leaves the normalized form behind.
  pub validate_notification_iff :
      (n : Notification)
      → (((validate_notification uuid_valid n).0 ≡ none) ↔ IsValid (normalize n))
        × ((validate_notification uuid_valid n).1 ≡ normalize n)
  unfolding validate_notification
  validate_notification_iff n =
      ((check_fields_sound (normalize n), check_fields_complete (normalize n)), refl)

normalize_idem : (n : Notification) → normalize (normalize n) ≡ normalize n
unfolding normalize
normalize_idem n = ground (
  arith,
  trim_space_idem n.topic,
  trim_space_idem n.title,
  trim_space_idem n.body,
  trim_space_idem n.link,
  trim_space_idem n.sender,
  unique_strings_idem n.recipients,
  unique_channels_idem n.channels,
)

-- Validating again what a validation left behind, as the dispatcher does after ingest, gives the
-- same answer and changes nothing.
pub validate_notification_idem :
    (uuid_valid : Text → Bool) (n : Notification)
    → let (e, m) = validate_notification uuid_valid n in validate_notification uuid_valid m ≡ (e, m)
unfolding validate_notification
validate_notification_idem uuid_valid n = rw normalize_idem

-- The errors of validation are plain texts.
abbrev pub is_plain : GoError → Bool
is_plain (plain t) = true
is_plain _ = false

check_channels_plain :
    (cs : List Text) (e : GoError) → check_channels cs ≡ some e → is_plain e ≡ true
unfolding check_channels
check_channels_plain [] e h = ground arith
check_channels_plain (c ∷ cs) e h = ground (arith, check_channels_plain cs e)

module _ (uuid_valid : Text → Bool) where
  check_recipients_plain :
      (rs : List Text) (e : GoError) → check_recipients uuid_valid rs ≡ some e → is_plain e ≡ true
  unfolding check_recipients
  check_recipients_plain [] e h = ground arith
  check_recipients_plain (r ∷ rs) e h = ground (arith, check_recipients_plain rs e)

  pub check_fields_plain :
      (n : Notification) (e : GoError) → check_fields uuid_valid n ≡ some e → is_plain e ≡ true
  unfolding check_fields
  check_fields_plain n e h =
      ground (arith, check_recipients_plain n.recipients e, check_channels_plain n.channels e)

  -- What validation does to a notification that is not valid once normalized.
  pub validate_not_IsValid :
      (n : Notification)
      → ¬ IsValid uuid_valid (normalize n)
      → (t : Text) × ((validate_notification uuid_valid n).0 ≡ some (plain t))
  unfolding validate_notification
  validate_not_IsValid n h = elim (Option-cases (check_fields uuid_valid (normalize n))) [
    | inl e ↦ absurd (h (check_fields_sound uuid_valid (normalize n) e))
    | inr (plain t, e) ↦ (t, e)
    | inr (wrapped t f, e) ↦ cc (check_fields_plain (normalize n) (wrapped t f) e)
    | inr (wrapped_nil t, e) ↦ cc (check_fields_plain (normalize n) (wrapped_nil t) e)
    | inr (joined es, e) ↦ cc (check_fields_plain (normalize n) (joined es) e)
    | inr (send_error c p f, e) ↦ cc (check_fields_plain (normalize n) (send_error c p f) e)
  ]
