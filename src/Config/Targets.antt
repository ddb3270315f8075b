-- ===== src/Config/Targets.antt =====
-- What a configuration of site targets promises to the provider and to the hub.
use csar_notify.Base.{
  Dict, Option-cases, Result-cases, Text, [], arith, codes, false, if◌then◌else◌, inl, inr,
  is_empty, lookup, ok, some, subst, sym, text_eq_iff, text_eq_refl, trim_space, ◌∷◌, ◌≡◌,
}
use csar_notify.Config.{
  SiteProviderConfig, collect_targets, derived_prefix, fill_prefixes, default_of, check_default,
  resolve_targets, effective_targets,
}

-- Every prefix of the list has the property.
abbrev pub PrefixesSolid : Dict Text → Type 0
PrefixesSolid [] = Unit
PrefixesSolid ((name, redis_prefix) ∷ rest) = (is_empty redis_prefix ≡ false) × PrefixesSolid rest

fill_prefixes-PrefixesSolid :
    (base_prefix : Text) (all targets : Dict Text)
    → is_empty base_prefix ≡ false
    → PrefixesSolid (fill_prefixes base_prefix all targets)
unfolding fill_prefixes
fill_prefixes-PrefixesSolid base_prefix all [] h = tt
fill_prefixes-PrefixesSolid [] all (t ∷ rest) h = absurd (ground arith)
fill_prefixes-PrefixesSolid (c ∷ base_prefix) all ((name, redis_prefix) ∷ rest) h =
    (ground arith, fill_prefixes-PrefixesSolid (c ∷ base_prefix) all rest h)

lookup-fill_prefixes :
    (base_prefix name : Text) (all targets : Dict Text) (redis_prefix : Text)
    → lookup name targets ≡ some redis_prefix
    → lookup name (fill_prefixes base_prefix all targets)
      ≡ some (if is_empty redis_prefix then derived_prefix base_prefix all name else redis_prefix)
unfolding fill_prefixes lookup
lookup-fill_prefixes base_prefix name all [] redis_prefix h = absurd (ground arith)
lookup-fill_prefixes base_prefix name all ((other, p) ∷ rest) redis_prefix h =
    ground
      (arith, text_eq_iff other name, lookup-fill_prefixes base_prefix name all rest redis_prefix)

abbrev HasDefault : Dict Text × Text → Type 0
HasDefault (targets, name) = (redis_prefix : Text) × (lookup name targets ≡ some redis_prefix)

check_default_lem :
    (base_prefix name : Text) (targets out : Dict Text) (default_target : Text)
    → is_empty base_prefix ≡ false
    → check_default base_prefix targets name ≡ ok (out, default_target)
    → HasDefault (out, default_target) × PrefixesSolid out
unfolding check_default
check_default_lem base_prefix name targets out default_target b h =
    elim (Option-cases (lookup name targets)) [
      | inl missing ↦ absurd (ground arith)
      | inr (p, there) ↦
          let filled = fill_prefixes base_prefix targets targets in
          let same : out ≡ filled = ground arith in
          let chosen : default_target ≡ name = ground arith in
          (
            (
              if is_empty p then derived_prefix base_prefix targets name else p,
              rw (same, chosen) (lookup-fill_prefixes base_prefix name targets targets p there),
            ),
            subst PrefixesSolid (sym same)
                (fill_prefixes-PrefixesSolid base_prefix targets targets b),
          )
    ]

resolve_targets_lem :
    (base_prefix name : Text) (targets out : Dict Text) (default_target : Text)
    → is_empty base_prefix ≡ false
    → resolve_targets base_prefix name targets ≡ ok (out, default_target)
    → HasDefault (out, default_target) × PrefixesSolid out
unfolding resolve_targets lookup
resolve_targets_lem base_prefix name [] out default_target b h =
    let chosen = if is_empty name then codes "default" else name in
    let same : out ≡ (chosen, base_prefix) ∷ [] = ground arith in
    let named : default_target ≡ chosen = ground arith in
    (
      (base_prefix, rw (same, named) (ground (arith, text_eq_refl chosen))),
      subst PrefixesSolid (sym same) (b, tt),
    )
resolve_targets_lem base_prefix name (t ∷ ts) out default_target b h =
    elim (Result-cases (default_of name (t ∷ ts))) [
      | inl (e, bad) ↦ absurd (ground arith)
      | inr (found, good) ↦
          check_default_lem base_prefix found (t ∷ ts) out default_target b (ground arith)
    ]

-- With a base prefix, where EffectiveTargets succeeds, its default target is one of its targets and
-- none of their prefixes is empty.
pub effective_targets_solid :
    (s : SiteProviderConfig) (base_prefix : Text) (targets : Dict Text) (default_target : Text)
    → is_empty base_prefix ≡ false
    → effective_targets s base_prefix ≡ ok (targets, default_target)
    → ((redis_prefix : Text) × (lookup default_target targets ≡ some redis_prefix))
      × PrefixesSolid targets
unfolding effective_targets
effective_targets_solid s base_prefix targets default_target b h =
    elim (Result-cases (collect_targets [] s.targets)) [
      | inl (e, bad) ↦ absurd (ground arith)
      | inr (collected, good) ↦
          resolve_targets_lem base_prefix (trim_space s.default_target) collected targets
            default_target b (ground arith)
    ]
