-- ===== src/Base/Errors.antt =====
-- Go's `error` values, as far as the program tells them apart: `*provider.SendError` and the ways in
-- which packages `errors` and `fmt` build on another error. A nil error is `none`.
-- In a text, the quotes of %q are left out.
use mathlib.Core.Path.{◌≡◌, refl}
use mathlib.Core.Logic.{◌⊎◌, inl, inr}
use mathlib.Core.Bool.{Bool}
use mathlib.Core.List.{List, [], ◌∷◌, ◌++◌}
use mathlib.Core.Option.{Option, none, some}
use csar_notify.Base.Strings.{Text}

mutual
  pub data GoError : Type 0 where
    -- errors.New, fmt.Errorf without %w, and the errors of libraries
    plain : Text → GoError
    -- fmt.Errorf("prefix: %w", err), and with a nil err
    wrapped : Text → GoError → GoError
    wrapped_nil : Text → GoError
    -- errors.Join
    joined : GoErrors → GoError
    -- &SendError{Channel, Permanent, Err}
    send_error : Text → Bool → GoError → GoError

  pub data GoErrors : Type 0 where
    none_left : GoErrors
    also : GoError → GoErrors → GoErrors

-- errors.Join of two, which drops nil errors
unfoldable pub errors_join : Option GoError → Option GoError → Option GoError
errors_join none none = none
errors_join none (some e) = some (joined (also e none_left))
errors_join (some e) none = some (joined (also e none_left))
errors_join (some d) (some e) = some (joined (also d (also e none_left)))

-- `if err != nil { acc = errors.Join(acc, err) }`
unfoldable pub join_failure : Option GoError → Option GoError → Option GoError
unfolding errors_join
join_failure acc none = acc
join_failure acc (some e) = errors_join acc (some e)

-- A value, or a non-nil error.
pub data Result (A : Type 0) : Type 0 where
  ok : A → Result A
  err : GoError → Result A

-- errors.Join over several failures, from the left.
abbrev pub join_all : Option GoError → List GoError → Option GoError
join_all acc [] = acc
join_all acc (e ∷ es) = join_all (errors_join acc (some e)) es

pub Result-cases :
    {A : Type 0} (r : Result A) → ((e : GoError) × (r ≡ err e)) ⊎ ((a : A) × (r ≡ ok a))
Result-cases (err e) = inl (e, refl)
Result-cases (ok a) = inr (a, refl)

pub join_all-append :
    (acc : Option GoError) (fs gs : List GoError)
    → join_all (join_all acc fs) gs ≡ join_all acc (fs ++ gs)
join_all-append acc [] gs = refl
join_all-append acc (f ∷ fs) gs = join_all-append (errors_join acc (some f)) fs gs
