-- ===== src/WebPush/Outcomes.antt =====
-- internal/provider/webpush/webpush.go: what the answers of the push services make of a send.
use csar_notify.Base.{
  All, Any, Bool, GoError, List, Option, Text, [], arith, codes, false, if◌then◌else◌, inl, inr,
  join_all, join_failure, leb, ltb, none, refl, some, subst, text_eq, trim_space, true, ℕ, ◌&&◌,
  ◌==◌, ◌||◌, ◌↔◌, ◌∙◌, ◌∷◌, ◌≡◌, ◌≢◌,
}
use csar_notify.Domain.{channel_web_push}
use csar_notify.Provider.Errors.{
  is_permanent_channel_only, IsPermanentOn, permanent_send_error, temporary_send_error,
  is_permanent_channel_only_iff,
}
use csar_notify.Provider.Joins.{join_all_permanent_iff}
use csar_notify.WebPush.{
  Subscription, SubscriptionStore, Answer, failed, no_response, answered,
  is_permanent_web_push_failure, web_push_failure_reason, status_failure, status_error, on_answer,
  send_one, send_all,
}

-- What an answer means to the subscription. A 404 or 410 and a success are both no failure, if the
-- endpoint that is gone can be deleted.
pub data Outcome : Type 0 where
  fine permanent temporary : Outcome

abbrev of_delete : Option GoError → Outcome
of_delete none = fine
of_delete (some e) = temporary

abbrev refused : Bool → Outcome
refused true = permanent
refused false = temporary

-- `too_many`: the body's reason is TooManyProviderTokenUpdates.
abbrev pub status_outcome : ℕ → Bool → Option GoError → Outcome
status_outcome status too_many deleted =
    if status == 404
    then of_delete deleted
    else if status == 410
    then of_delete deleted
    else if leb 200 status && ltb status 300
    then fine
    else if status == 400 || status == 403
    then permanent
    else if status == 429
    then refused too_many
    else temporary

abbrev pub outcome : (Text → Option Text) → Answer → Option GoError → Outcome
outcome reason_of (failed e) deleted = temporary
outcome reason_of no_response deleted = fine
outcome reason_of (answered status body) deleted =
    status_outcome status
      (text_eq (web_push_failure_reason reason_of (trim_space body))
        (codes "TooManyProviderTokenUpdates"))
      deleted

abbrev pub IsFailure : Outcome → Type 0
IsFailure fine = ⊥
IsFailure permanent = Unit
IsFailure temporary = Unit

abbrev pub IsNotTemporary : Outcome → Type 0
IsNotTemporary fine = Unit
IsNotTemporary permanent = Unit
IsNotTemporary temporary = ⊥

-- How the consumer reads an error.
abbrev pub kind : Option GoError → Outcome
kind none = fine
kind (some e) = refused (is_permanent_channel_only (some e) channel_web_push)

kind_permanent : (e : GoError) → kind (permanent_send_error channel_web_push (some e)) ≡ permanent
unfolding permanent_send_error is_permanent_channel_only
    csar_notify.Provider.Errors.walk_leaf_errors csar_notify.Provider.Errors.visit_leaf text_eq
kind_permanent e = refl

kind_temporary : (o : Option GoError) → kind (temporary_send_error channel_web_push o) ≡ of_delete o
unfolding temporary_send_error is_permanent_channel_only
    csar_notify.Provider.Errors.walk_leaf_errors csar_notify.Provider.Errors.visit_leaf text_eq
kind_temporary none = refl
kind_temporary (some e) = refl

abbrev keep_some {ℓ} : {A : Type ℓ} → Option A → List A → List A
keep_some none rest = rest
keep_some (some a) rest = a ∷ rest

join_all-keep_some :
    (acc e : Option GoError) (fs : List GoError)
    → join_all (join_failure acc e) fs ≡ join_all acc (keep_some e fs)
unfolding join_failure
join_all-keep_some acc none fs = refl
join_all-keep_some acc (some e) fs = refl

-- The failures and the outcomes tell the same about a send.
abbrev Match : List GoError → List Outcome → Type 0
Match fs os =
    ((fs ≢ []) ↔ Any IsFailure os)
    × (All (IsPermanentOn channel_web_push) fs ↔ All IsNotTemporary os)

refused-IsFailure : (b : Bool) → IsFailure (refused b)
refused-IsFailure true = tt
refused-IsFailure false = tt

refused-IsNotTemporary : (b : Bool) → IsNotTemporary (refused b) ↔ (b ≡ true)
refused-IsNotTemporary true = (λ h. refl, λ h. tt)
refused-IsNotTemporary false = (λ h. absurd h, λ h. cc h)

keep_some-Match :
    (e : Option GoError) (fs : List GoError) (os : List Outcome)
    → Match fs os
    → Match (keep_some e fs) (kind e ∷ os)
keep_some-Match none fs os (a, b) = (
  (λ h. inr (a.0 h), λ h. elim h [ inl x ↦ absurd x | inr x ↦ a.1 x ]),
  (λ h. (tt, b.0 h), λ h. b.1 h.1),
)
keep_some-Match (some e) fs os (a, b) =
    let p = is_permanent_channel_only (some e) channel_web_push in
    let i = is_permanent_channel_only_iff channel_web_push e in
    let r = refused-IsNotTemporary p in
    (
      (λ h. inl (refused-IsFailure p), λ h x. cc x),
      (λ h. (r.1 (i.1 h.0), b.0 h.1), λ h. (i.0 (r.0 h.0), b.1 h.1)),
    )

module _ {W : Type 0} (reason_of : Text → Option Text) (store : SubscriptionStore W)
    (post : Text → Subscription → W → Answer × W) where
  kind-status_failure :
      (status : ℕ) (body : Text)
      → (status == 404) ≡ false
      → (status == 410) ≡ false
      → kind (status_failure reason_of status body)
        ≡ status_outcome status
            (text_eq (web_push_failure_reason reason_of body) (codes "TooManyProviderTokenUpdates"))
            none
  unfolding status_failure is_permanent_web_push_failure
  kind-status_failure status body h g =
      ground (arith, kind_permanent (status_error body), kind_temporary (some (status_error body)))

  kind-on_answer :
      (recipient : Text) (sub : Subscription) (a : Answer) (w : W)
      → kind (on_answer reason_of store post recipient sub a w).0
        ≡ outcome reason_of a (store.delete_push_subscription recipient sub.endpoint w).0
  unfolding on_answer
  kind-on_answer recipient sub (failed e) w = kind_temporary (some e)
  kind-on_answer recipient sub no_response w = refl
  kind-on_answer recipient sub (answered status body) w = ground (
    arith,
    kind-status_failure status (trim_space body),
    kind_temporary (store.delete_push_subscription recipient sub.endpoint w).0,
  )

  -- The outcomes of the rounds, from the answers alone.
  abbrev pub outcomes : Text → Text → List Subscription → W → List Outcome
  outcomes recipient payload [] w = []
  outcomes recipient payload (sub ∷ rest) w =
      let (a, w') = post payload sub w in
      outcome reason_of a (store.delete_push_subscription recipient sub.endpoint w').0
      ∷ outcomes recipient payload rest (on_answer reason_of store post recipient sub a w').1

  -- The errors of the rounds that fail.
  abbrev failures : Text → Text → List Subscription → W → List GoError
  failures recipient payload [] w = []
  failures recipient payload (sub ∷ rest) w =
      let (e, w') = send_one reason_of store post recipient payload sub w in
      keep_some e (failures recipient payload rest w')

  send_all-failures :
      (recipient payload : Text) (subs : List Subscription) (acc : Option GoError) (w : W)
      → (send_all reason_of store post recipient payload subs acc w).0
        ≡ join_all acc (failures recipient payload subs w)
  unfolding send_all join_failure
  send_all-failures recipient payload [] acc w = refl
  send_all-failures recipient payload (sub ∷ rest) acc w =
      let (e, w') = send_one reason_of store post recipient payload sub w in
      send_all-failures recipient payload rest (join_failure acc e) w'
      ∙ join_all-keep_some acc e (failures recipient payload rest w')

  failures-outcomes :
      (recipient payload : Text) (subs : List Subscription) (w : W)
      → Match (failures recipient payload subs w) (outcomes recipient payload subs w)
  unfolding send_one on_answer
  failures-outcomes recipient payload [] w =
      ((λ h. absurd (h refl), λ h. absurd h), (λ h. tt, λ h. tt))
  failures-outcomes recipient payload (sub ∷ rest) w =
      let (a, w') = post payload sub w in
      let r = on_answer reason_of store post recipient sub a w' in
      let later = failures-outcomes recipient payload rest r.1 in
      subst
        (λ (o : Outcome).
          Match (keep_some r.0 (failures recipient payload rest r.1))
            (o ∷ outcomes recipient payload rest r.1))
        (kind-on_answer recipient sub a w')
        (keep_some-Match r.0 (failures recipient payload rest r.1)
          (outcomes recipient payload rest r.1) later)

-- Send reports an error that the consumer reads as permanent for web push exactly if some
-- subscription fails and none fails in a temporary way: a failed call, a failed delete, or a status
-- that is not a success and not one of 400, 403, 404, 410 and 429 with too many token updates.
pub send_all_permanent_iff :
    {W : Type 0} (reason_of : Text → Option Text) (store : SubscriptionStore W)
    (post : Text → Subscription → W → Answer × W) (recipient payload : Text)
    (subs : List Subscription) (w : W)
    → (is_permanent_channel_only
          (send_all reason_of store post recipient payload subs none w).0
          channel_web_push
        ≡ true)
      ↔ (Any IsFailure (outcomes reason_of store post recipient payload subs w)
          × All IsNotTemporary (outcomes reason_of store post recipient payload subs w))
send_all_permanent_iff reason_of store post recipient payload subs w =
    let fs = failures reason_of store post recipient payload subs w in
    let j = join_all_permanent_iff channel_web_push fs in
    let o = failures-outcomes reason_of store post recipient payload subs w in
    let e = send_all-failures reason_of store post recipient payload subs none w in
    rw e (
      λ h. let (some_failed, all) = j.0 h in (o.0.0 some_failed, o.1.0 all),
      λ h. j.1 (o.0.1 h.0, o.1.1 h.1),
    )
