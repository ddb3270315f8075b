-- ===== src/Provider/Joins.antt =====
-- Errors joined by `errors.Join`, as the dispatcher and the web push provider join their failures.
use csar_notify.Base.{
  All, GoError, List, Option, Text, [], also, errors_join, join_all, joined, none, none_left, refl,
  some, true, ◌↔◌, ◌∷◌, ◌≡◌, ◌≢◌,
}
use csar_notify.Provider.Errors.{
  is_permanent_channel_only, is_permanent_channel_only_iff, IsPermanentOn,
}

abbrev PermanentIn : Text → Option GoError → Type 0
PermanentIn channel none = ⊥
PermanentIn channel (some e) = IsPermanentOn channel e

errors_join-PermanentIn :
    (channel : Text) (a f : GoError)
    → PermanentIn channel (errors_join (some a) (some f))
      ↔ (IsPermanentOn channel a × IsPermanentOn channel f)
unfolding errors_join IsPermanentOn
errors_join-PermanentIn channel a f = (λ h. (h.0, h.1.0), λ h. (h.0, (h.1, tt)))

join_all-some :
    (channel : Text) (acc : Option GoError) (a : GoError) (fs : List GoError)
    → acc ≡ some a
    → PermanentIn channel (join_all acc fs)
      ↔ (IsPermanentOn channel a × All (IsPermanentOn channel) fs)
unfolding errors_join
join_all-some channel acc a [] e = rw e (λ h. (h, tt), λ h. h.0)
join_all-some channel acc a (f ∷ fs) e =
    let b = joined (also a (also f none_left)) in
    let here = errors_join-PermanentIn channel a f in
    let rest = join_all-some channel (some b) b fs refl in
    rw e (
      λ h. let (j, r) = rest.0 h in let (x, y) = here.0 j in (x, (y, r)),
      λ h. rest.1 (here.1 (h.0, h.1.0), h.1.1),
    )

join_all-PermanentIn :
    (channel : Text) (fs : List GoError)
    → PermanentIn channel (join_all none fs) ↔ ((fs ≢ []) × All (IsPermanentOn channel) fs)
unfolding errors_join IsPermanentOn
join_all-PermanentIn channel [] = (λ h. absurd h, λ h. absurd (h.0 refl))
join_all-PermanentIn channel (f ∷ fs) =
    let b = joined (also f none_left) in
    let rest = join_all-some channel (some b) b fs refl in
    (λ h. (λ e. cc e, (((rest.0 h).0).0, (rest.0 h).1)), λ h. rest.1 ((h.1.0, tt), h.1.1))

is_permanent-PermanentIn :
    (channel : Text) (o : Option GoError)
    → (is_permanent_channel_only o channel ≡ true) ↔ PermanentIn channel o
is_permanent-PermanentIn channel none =
    (λ h. unfold is_permanent_channel_only in cc h, λ h. absurd h)
is_permanent-PermanentIn channel (some e) = is_permanent_channel_only_iff channel e

-- Failures joined one after the other count as permanent for a channel exactly if there is one and
-- each of them, wrapped or joined itself, is permanent for it.
pub join_all_permanent_iff :
    (channel : Text) (fs : List GoError)
    → (is_permanent_channel_only (join_all none fs) channel ≡ true)
      ↔ ((fs ≢ []) × All (IsPermanentOn channel) fs)
join_all_permanent_iff channel fs =
    let a = is_permanent-PermanentIn channel (join_all none fs) in
    let b = join_all-PermanentIn channel fs in (λ h. b.0 (a.0 h), λ h. a.1 (b.1 h))

join_all_keeps_error : (acc : GoError) (fs : List GoError) → join_all (some acc) fs ≢ none
unfolding errors_join
join_all_keeps_error acc [] = λ e. cc e
join_all_keeps_error acc (f ∷ fs) = join_all_keeps_error (joined (also acc (also f none_left))) fs

-- The join is nil just when there was no failure.
pub join_all-none_iff : (fs : List GoError) → (join_all none fs ≡ none) ↔ (fs ≡ [])
unfolding errors_join
join_all-none_iff [] = (λ h. refl, λ h. refl)
join_all-none_iff (f ∷ fs) =
    (λ h. absurd (join_all_keeps_error (joined (also f none_left)) fs h), λ h. cc h)
