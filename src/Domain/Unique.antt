-- ===== src/Domain/Unique.antt =====
-- What `uniqueStrings` and `uniqueChannels` return.
use csar_notify.Base.{
  Distinct, In, List, Text, [], arith, false, is_empty, map, refl, text_eq_iff, trim_space,
  trim_space_idem, true, ◌↔◌, ◌∷◌, ◌≡◌, ◌≢◌,
}
use csar_notify.Domain.{is_seen, unique_loop, unique_strings, unique_channels}

is_seen_iff : (a : Text) (seen : List Text) → (is_seen a seen ≡ true) ↔ In a seen
unfolding is_seen
is_seen_iff a [] = (λ h. cc, λ h. absurd h)
is_seen_iff a (s ∷ seen) = ground (arith, text_eq_iff s a, is_seen_iff a seen)

-- What the loop keeps was not seen before, is not empty, and is a trimmed element.
unique_loop_sound :
    (seen xs : List Text) (a : Text)
    → In a (unique_loop seen xs)
    → (is_seen a seen ≡ false) × (a ≢ []) × In a (map trim_space xs)
unfolding unique_loop is_seen
unique_loop_sound seen [] a h = absurd h
unique_loop_sound seen (x ∷ xs) a h =
    ground (arith, unique_loop_sound seen xs a, unique_loop_sound (trim_space x ∷ seen) xs a)

-- The loop keeps each trimmed element that is not empty and was not seen before.
unique_loop_complete :
    (seen xs : List Text) (a : Text)
    → In a (map trim_space xs)
    → a ≢ []
    → is_seen a seen ≡ false
    → In a (unique_loop seen xs)
unfolding unique_loop is_seen
unique_loop_complete seen [] a h n s = absurd h
unique_loop_complete seen (x ∷ xs) a h n s = ground (
  arith,
  text_eq_iff (trim_space x) a,
  unique_loop_complete seen xs a,
  unique_loop_complete (trim_space x ∷ seen) xs a,
)

unique_loop-Distinct : (seen xs : List Text) → Distinct (unique_loop seen xs)
unfolding unique_loop is_seen
unique_loop-Distinct seen [] = tt
unique_loop-Distinct seen (x ∷ xs) = ground (
  arith,
  text_eq_iff (trim_space x) (trim_space x),
  unique_loop_sound (trim_space x ∷ seen) xs (trim_space x),
  unique_loop-Distinct seen xs,
  unique_loop-Distinct (trim_space x ∷ seen) xs,
)

-- A list is tidy when a pass of the loop has nothing to do.
abbrev Unseen : List Text → List Text → Type 0
Unseen seen [] = Unit
Unseen seen (x ∷ xs) =
    (trim_space x ≡ x) × (is_empty x ≡ false) × (is_seen x seen ≡ false) × Unseen (x ∷ seen) xs

unique_loop-Unseen : (seen xs : List Text) → Unseen seen (unique_loop seen xs)
unfolding unique_loop
unique_loop-Unseen seen [] = tt
unique_loop-Unseen seen (x ∷ xs) = ground (
  arith,
  trim_space_idem x,
  unique_loop-Unseen seen xs,
  unique_loop-Unseen (trim_space x ∷ seen) xs,
)

unique_loop_of_Unseen : (seen xs : List Text) → Unseen seen xs → unique_loop seen xs ≡ xs
unfolding unique_loop
unique_loop_of_Unseen seen [] h = refl
unique_loop_of_Unseen seen (x ∷ xs) h =
    rw h.0 (ground (arith, unique_loop_of_Unseen (x ∷ seen) xs h.3))

pub unique_strings_idem : (xs : List Text) → unique_strings (unique_strings xs) ≡ unique_strings xs
unfolding unique_strings
unique_strings_idem xs = unique_loop_of_Unseen [] (unique_loop [] xs) (unique_loop-Unseen [] xs)

pub unique_channels_idem :
    (xs : List Text) → unique_channels (unique_channels xs) ≡ unique_channels xs
unfolding unique_channels
unique_channels_idem xs = unique_loop_of_Unseen [] (unique_loop [] xs) (unique_loop-Unseen [] xs)

-- `uniqueStrings` returns exactly the trimmed elements that are not empty, and each of them once.
pub unique_strings_exact :
    (xs : List Text)
    → Distinct (unique_strings xs)
      × ((a : Text) → In a (unique_strings xs) ↔ ((a ≢ []) × In a (map trim_space xs)))
unfolding unique_strings is_seen
unique_strings_exact xs =
    (unique_loop-Distinct [] xs, λ a. (kept a, λ h. unique_loop_complete [] xs a h.1 h.0 refl))
  where
    kept : (a : Text) → In a (unique_loop [] xs) → (a ≢ []) × In a (map trim_space xs)
    kept a h = let (_, full, here) = unique_loop_sound [] xs a h in (full, here)
