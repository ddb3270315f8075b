-- ===== src/InboxApi.antt =====
-- internal/inbox/handler.go: the requests on a subject's inbox. As with the preferences, what the
-- gateway put into the request is an input and `uuid.Parse` the parameter `uuid_valid`; strconv.Atoi
-- is the parameter `atoi`, none where it returns an error. A query value that is absent is empty.
pub mod Paging
pub mod Postgres
pub mod Owners
use csar_notify.Base.{
  Bool, GoError, List, Option, Result, Text, [], codes, err, false, if◌then◌else◌, int_le, joined,
  none, not, ok, plain, pos, send_error, some, text_eq, wrapped, wrapped_nil, ℕ, ℤ, ◌||◌, ◌∷◌,
}
use csar_notify.Domain.{Delivery}
use csar_notify.PreferencesApi.{subject_from_request}
use csar_notify.Store.{no_rows}

-- type store interface
pub record InboxStore (W : Type 0) : Type 0 where
  pub list_inbox : Text → ℤ → ℤ → W → Result (List Delivery) × W
  pub count_unread : Text → W → Result ℕ × W
  pub mark_read : Text → Text → W → Option GoError × W
  pub dismiss : Text → Text → W → Option GoError × W

-- The response: an error, or the JSON with its fields.
pub data Reply : Type 0 where
  refused : GoError → Reply
  page : List Delivery → ℤ → ℤ → Reply
  unread : ℕ → Reply
  status_ok : Reply

-- err == pgx.ErrNoRows
abbrev pub is_no_rows : GoError → Bool
is_no_rows (plain t) = text_eq t (codes "no rows in result set")
is_no_rows (wrapped t e) = false
is_no_rows (wrapped_nil t) = false
is_no_rows (joined es) = false
is_no_rows (send_error channel permanent e) = false

module _ (atoi : Text → Option ℤ) where
  unfoldable pub limit_param : Text → Result ℤ
  limit_param [] = ok (pos 50)
  limit_param (c ∷ raw) = elim (atoi (c ∷ raw)) [
    | none ↦ err (plain (codes "limit must be between 1 and 100"))
    | some v ↦
        if not (int_le (pos 1) v) || not (int_le v (pos 100))
        then err (plain (codes "limit must be between 1 and 100"))
        else ok v
  ]

  unfoldable pub offset_param : Text → Result ℤ
  offset_param [] = ok (pos 0)
  offset_param (c ∷ raw) = elim (atoi (c ∷ raw)) [
    | none ↦ err (plain (codes "offset must be >= 0"))
    | some v ↦ if not (int_le (pos 0) v) then err (plain (codes "offset must be >= 0")) else ok v
  ]

  unfoldable pub page_params : Text → Text → Result (ℤ × ℤ)
  page_params raw_limit raw_offset = elim (limit_param raw_limit) [
    | err e ↦ err e
    | ok limit ↦ elim (offset_param raw_offset) [ err e ↦ err e | ok offset ↦ ok (limit, offset) ]
  ]

-- By the error of `fn`.
unfoldable pub updated : Option GoError → Reply
updated none = status_ok
updated (some e) =
    if is_no_rows e then refused (plain (codes "notification not found")) else refused e

module _ {W : Type 0} (uuid_valid : Text → Bool) where
  unfoldable pub update_state :
      (Text → Text → W → Option GoError × W) → Option Text → Text → W → Reply × W
  update_state fn identity id w = elim (subject_from_request uuid_valid identity) [
    | err e ↦ (refused e, w)
    | ok subject ↦
        if not (uuid_valid id)
        then (refused (plain (codes "notification id must be a valid UUID")), w)
        else (let (e, w') = fn subject id w in (updated e, w'))
  ]

module _ {W : Type 0} (uuid_valid : Text → Bool) (store : InboxStore W) where
  unfoldable pub show_page : Text → ℤ × ℤ → W → Reply × W
  show_page subject (limit, offset) w =
      let (r, w') = store.list_inbox subject limit offset w in
      (elim r [ err e ↦ refused e | ok items ↦ page items limit offset ], w')

  unfoldable pub list : (Text → Option ℤ) → Option Text → Text → Text → W → Reply × W
  list atoi identity raw_limit raw_offset w = elim (subject_from_request uuid_valid identity) [
    | err e ↦ (refused e, w)
    | ok subject ↦ elim (page_params atoi raw_limit raw_offset) [
      | err e ↦ (refused e, w)
      | ok params ↦ show_page subject params w
    ]
  ]

  unfoldable pub count : Option Text → W → Reply × W
  count identity w = elim (subject_from_request uuid_valid identity) [
    | err e ↦ (refused e, w)
    | ok subject ↦
        let (r, w') = store.count_unread subject w in
        (elim r [ err e ↦ refused e | ok n ↦ unread n ], w')
  ]

  unfoldable pub mark_read : Option Text → Text → W → Reply × W
  mark_read identity id w = update_state uuid_valid store.mark_read identity id w

  unfoldable pub dismiss : Option Text → Text → W → Reply × W
  dismiss identity id w = update_state uuid_valid store.dismiss identity id w
