-- ===== src/InboxApi/Owners.antt =====
-- internal/inbox/handler.go over internal/store/postgres.go: whose deliveries a request changes.
use csar_notify.Base.{
  Bool, Bool-cases, Dict, GoError, List, Option, Result-cases, Text, arith, codes, inl, inr, none,
  ok, plain, refl, some, subst, true, ℕ, ◌↔◌, ◌≡◌, ◌≢◌,
}
use csar_notify.Domain.{Delivery}
use csar_notify.InboxApi.{InboxStore, Reply, status_ok, updated, refused, update_state}
use csar_notify.Store.{DeliveryRow, find_row}
use csar_notify.PreferencesApi.{subject_from_request, subject_from_request-ok}
use csar_notify.InboxApi
use csar_notify.InboxApi.Postgres.{
  Tables, postgres_inbox, others, Ends, mark_read-Ends, dismiss-Ends,
}

-- The two requests that change a delivery.
pub data Action : Type 0 where
  marks_read dismisses : Action

abbrev pub perform :
    (Text → Bool) → InboxStore Tables → Action → Option Text → Text → Tables → Reply × Tables
perform uuid_valid store marks_read = InboxApi.mark_read uuid_valid store
perform uuid_valid store dismisses = InboxApi.dismiss uuid_valid store

-- The request may change the delivery: it names its owner, and the database answers and finds it.
abbrev pub Granted : (Text → Bool) → Option GoError → Option Text → Text → List DeliveryRow → Type 0
Granted uuid_valid failure identity id rows =
    (subject : Text) × (subject_from_request uuid_valid identity ≡ ok subject)
    × (uuid_valid id ≡ true)
    × (failure ≡ none)
    × (find_row subject id rows ≢ none)

updated-ok : (e : Option GoError) → updated e ≡ status_ok → e ≡ none
unfolding updated
updated-ok none h = refl
updated-ok (some e) h = ground (arith, h)

updated-none : updated none ≡ status_ok
unfolding updated
updated-none = refl

record Answered (uuid_valid : Text → Bool) (failure : Option GoError) (identity : Option Text)
    (id : Text) (t : Tables) (x : Reply × Tables) : Type 0 where
  ok_only : x.0 ≡ status_ok → Granted uuid_valid failure identity id t.deliveries
  ok_where : Granted uuid_valid failure identity id t.deliveries → x.0 ≡ status_ok
  kept : x.0 ≢ status_ok → x.1 ≡ t
  notified : x.1.notifications ≡ t.notifications
  rest :
      (subject : Text)
      → identity ≡ some subject
      → others subject id x.1.deliveries ≡ others subject id t.deliveries

refused-Answered :
    (uuid_valid : Text → Bool) (failure : Option GoError) (identity : Option Text) (id : Text)
    (t : Tables) (e : GoError)
    → ¬ Granted uuid_valid failure identity id t.deliveries
    → Answered uuid_valid failure identity id t (refused e, t)
refused-Answered uuid_valid failure identity id t e n = record {
  ok_only = λ h. cc h;
  ok_where = λ g. absurd (n g);
  kept = λ h. refl;
  notified = refl;
  rest = λ subject h. refl;
}

same_tables :
    (x t : Tables) → x.notifications ≡ t.notifications → x.deliveries ≡ t.deliveries → x ≡ t
same_tables x t n d = cc (n, d)

module _ (uuid_valid : Text → Bool) (failure : Option GoError)
    (fn : Text → Text → Tables → Option GoError × Tables)
    (ends : (subject id : Text) (t : Tables)
      → ((fn subject id t).1.notifications ≡ t.notifications)
        × Ends failure subject id t.deliveries
            ((fn subject id t).0, (fn subject id t).1.deliveries)) where
  ran-Answered :
      (identity : Option Text) (subject id : Text) (t : Tables)
      → subject_from_request uuid_valid identity ≡ ok subject
      → uuid_valid id ≡ true
      → Answered uuid_valid failure identity id t (updated (fn subject id t).0, (fn subject id t).1)
  ran-Answered identity subject id t q valid =
      let (same_notifications, v) = ends subject id t in
      let (is, good) = subject_from_request-ok uuid_valid identity subject q in
      let same_subject : (s : Text)
          → subject_from_request uuid_valid identity ≡ ok s
          → subject ≡ s =
        λ (s : Text) q'. ground (arith, q, q') in
      record {
        ok_only = λ h.
            let (d, f) = v.done (updated-ok (fn subject id t).0 h) in (subject, q, valid, d, f);
        ok_where = λ (s, q', valid', d, f).
            rw
              (v.succeeds d (λ n.
                f (subst (λ (x : Text). find_row x id t.deliveries ≡ none) (same_subject s q') n)))
              updated-none;
        kept = λ h.
            same_tables (fn subject id t).1 t same_notifications
              (v.same (λ e. h (rw e updated-none)));
        notified = same_notifications;
        rest = λ s i.
            subst
              (λ (x : Text). others x id (fn subject id t).1.deliveries ≡ others x id t.deliveries)
              (ground (arith, is, i)) v.rest;
      }

  update_state-Answered :
      (identity : Option Text) (id : Text) (t : Tables)
      → Answered uuid_valid failure identity id t (update_state uuid_valid fn identity id t)
  unfolding update_state
  update_state-Answered identity id t =
      elim (Result-cases (subject_from_request uuid_valid identity)) [
        | inl (e, q) ↦
            rw (q, update_state)
              (refused-Answered uuid_valid failure identity id t e (λ (s, q', b, c, d). cc (q, q')))
        | inr (subject, q) ↦ elim (Bool-cases (uuid_valid id)) [
          | inl valid ↦ rw (q, valid, update_state) (ran-Answered identity subject id t q valid)
          | inr bad ↦
              rw (q, bad, update_state)
                (refused-Answered uuid_valid failure identity id t
                  (plain (codes "notification id must be a valid UUID"))
                  (λ (s, q', b, c, d). cc (bad, b)))
        ]
      ]

perform-Answered :
    (uuid_valid : Text → Bool) (unmarshal : Text → Option (Dict Text))
    (order_by : List Delivery → List Delivery) (failure : Option GoError) (now : ℕ)
    (action : Action) (identity : Option Text) (id : Text) (t : Tables)
    → Answered uuid_valid failure identity id t
        (perform uuid_valid (postgres_inbox unmarshal order_by failure now) action identity id t)
unfolding InboxApi.mark_read InboxApi.dismiss
perform-Answered uuid_valid unmarshal order_by failure now marks_read identity id t =
    update_state-Answered uuid_valid failure
      (postgres_inbox unmarshal order_by failure now).mark_read
      (λ s i u. (refl, mark_read-Ends failure now s i u.deliveries)) identity id t
perform-Answered uuid_valid unmarshal order_by failure now dismisses identity id t =
    update_state-Answered uuid_valid failure (postgres_inbox unmarshal order_by failure now).dismiss
      (λ s i u. (refl, dismiss-Ends failure s i u.deliveries)) identity id t

-- A request to mark a notification as read or to dismiss it is answered with status ok exactly where
-- its gateway subject and its id are valid, the database does not fail, and the subject has that
-- delivery. In every other case no table changes; and where the request changes something, it is
-- among the rows of that subject for that id, every other row staying as and where it was.
pub perform-others :
    (uuid_valid : Text → Bool) (unmarshal : Text → Option (Dict Text))
    (order_by : List Delivery → List Delivery) (failure : Option GoError) (now : ℕ)
    (action : Action) (identity : Option Text) (id : Text) (t t' : Tables) (reply : Reply)
    → perform uuid_valid (postgres_inbox unmarshal order_by failure now) action identity id t
      ≡ (reply, t')
    → (reply ≡ status_ok ↔ Granted uuid_valid failure identity id t.deliveries)
      × (reply ≢ status_ok → t' ≡ t)
      × (t'.notifications ≡ t.notifications)
      × ((subject : Text)
          → identity ≡ some subject
          → others subject id t'.deliveries ≡ others subject id t.deliveries)
perform-others uuid_valid unmarshal order_by failure now action identity id t t' reply h =
    let a = perform-Answered uuid_valid unmarshal order_by failure now action identity id t in
    let v = subst (Answered uuid_valid failure identity id t) h a in
    ((v.ok_only, v.ok_where), v.kept, v.notified, v.rest)
