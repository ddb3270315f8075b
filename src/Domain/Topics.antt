-- ===== src/Domain/Topics.antt =====
-- The topic filters of a preference.
use csar_notify.Base.{
  Any, Bool, Bool-cases, List, Text, [], arith, codes, has_prefix, has_prefix-append,
  has_prefix_split, has_suffix, has_suffix-append, has_suffix_split, inl, inr, refl, subst, text_eq,
  text_eq_iff, trim_space, trim_suffix, trim_suffix-append, true, ◌&&◌, ◌++◌, ◌↔◌, ◌∷◌, ◌≡◌, ◌≢◌,
  ◌⊎◌,
}
use csar_notify.Domain.{filter_matches, any_filter_matches, topic_matches}

-- The filter is the topic, or it is a pattern `p*` of which the topic begins with `p`.
abbrev pub Admits : Text → Text → Type 0
Admits raw topic =
    (trim_space raw ≢ [])
    × ((trim_space raw ≡ topic)
        ⊎ ((p : Text) × (r : Text) × (trim_space raw ≡ p ++ codes "*") × (topic ≡ p ++ r)))

abbrev Extends : Text → Text → Type 0
Extends f topic = (p : Text) × (r : Text) × (f ≡ p ++ codes "*") × (topic ≡ p ++ r)

abbrev wildcard : Text → Text → Bool
wildcard f topic = has_suffix f (codes "*") && has_prefix topic (trim_suffix f (codes "*"))

wildcard-Extends : (f topic : Text) → wildcard f topic ≡ true → Extends f topic
wildcard-Extends f topic h =
    let (p, e) = has_suffix_split f (codes "*") (ground arith) in
    let begins : has_prefix topic p ≡ true =
      rw (trim_suffix-append p (codes "*")) at
        (subst (λ t. has_prefix topic (trim_suffix t (codes "*")) ≡ true) e (ground arith)) in
    let (r, e') = has_prefix_split topic p begins in (p, r, e, e')

Extends-wildcard : (f topic : Text) → Extends f topic → wildcard f topic ≡ true
Extends-wildcard f topic (p, r, e, e') = rw (
  e,
  e',
  has_suffix-append p (codes "*"),
  trim_suffix-append p (codes "*"),
  has_prefix-append p r,
)

-- A filter matches exactly the topics that it admits.
filter_matches_iff : (raw topic : Text) → (filter_matches raw topic ≡ true) ↔ Admits raw topic
unfolding filter_matches
filter_matches_iff raw topic = (
  λ h. (
    λ e. ground arith,
    elim (Bool-cases (text_eq (trim_space raw) topic)) [
      | inl e ↦ inl ((text_eq_iff _ _).0 e)
      | inr e ↦ inr (wildcard-Extends (trim_space raw) topic (ground arith))
    ],
  ),
  λ h. ground (arith, text_eq_iff (trim_space raw) topic, Extends-wildcard (trim_space raw) topic),
)

any_filter_matches_iff :
    (filters : List Text) (topic : Text)
    → (any_filter_matches filters topic ≡ true) ↔ Any (λ f. Admits f topic) filters
unfolding any_filter_matches
any_filter_matches_iff [] topic = (λ h. cc, λ h. absurd h)
any_filter_matches_iff (f ∷ fs) topic =
    ground (arith, filter_matches_iff f topic, any_filter_matches_iff fs topic)

-- A preference without filters takes every topic; any other takes exactly the topics that one of its
-- filters admits.
pub topic_matches_iff :
    (filters : List Text) (topic : Text)
    → (topic_matches filters topic ≡ true) ↔ ((filters ≡ []) ⊎ Any (λ f. Admits f topic) filters)
unfolding topic_matches
topic_matches_iff [] topic = (λ h. inl refl, λ h. refl)
topic_matches_iff (f ∷ fs) topic = ground (arith, any_filter_matches_iff (f ∷ fs) topic)
