-- ===== src/Provider/Errors.antt =====
-- internal/provider/errors.go: permanent and temporary send errors.
use csar_notify.Base.{
  Bool, GoError, GoErrors, Option, Text, also, arith, false, if◌then◌else◌, joined, none, none_left,
  plain, refl, send_error, some, text_eq, text_eq_iff, true, wrapped, wrapped_nil, ◌&&◌, ◌↔◌, ◌≡◌,
}

unfoldable pub permanent_send_error : Text → Option GoError → Option GoError
permanent_send_error channel none = none
permanent_send_error channel (some e) = some (send_error channel true e)

unfoldable pub temporary_send_error : Text → Option GoError → Option GoError
temporary_send_error channel none = none
temporary_send_error channel (some e) = some (send_error channel false e)

-- The two variables that the visitor of `IsPermanentChannelOnly` writes.
pub record Walk : Type 0 where
  pub matched : Bool
  pub only : Bool

unfoldable mutual
  pub walk_leaf_errors : (GoError → Walk → Walk) → GoError → Walk → Walk
  walk_leaf_errors visit (send_error c p e) w = visit (send_error c p e) w
  walk_leaf_errors visit (joined none_left) w = visit (joined none_left) w
  walk_leaf_errors visit (joined (also e es)) w = walk_children visit (also e es) w
  walk_leaf_errors visit (wrapped t e) w = walk_leaf_errors visit e w
  walk_leaf_errors visit (wrapped_nil t) w = visit (wrapped_nil t) w
  walk_leaf_errors visit (plain t) w = visit (plain t) w

  pub walk_children : (GoError → Walk → Walk) → GoErrors → Walk → Walk
  walk_children visit none_left w = w
  walk_children visit (also e es) w = walk_children visit es (walk_leaf_errors visit e w)

-- errors.As(leaf, &sendErr): the first SendError in the tree, its channel and its flag
unfoldable mutual
  pub as_send_error : GoError → Option (Text × Bool)
  as_send_error (send_error c p e) = some (c, p)
  as_send_error (joined es) = first_send_error es
  as_send_error (wrapped t e) = as_send_error e
  as_send_error (wrapped_nil t) = none
  as_send_error (plain t) = none

  pub first_send_error : GoErrors → Option (Text × Bool)
  first_send_error none_left = none
  first_send_error (also e es) = elim (as_send_error e) [
    | some s ↦ some s
    | none ↦ first_send_error es
  ]

abbrev is_permanent_on : Text → Option (Text × Bool) → Bool
is_permanent_on channel none = false
is_permanent_on channel (some (c, permanent)) = text_eq c channel && permanent

-- The visitor.
unfoldable pub visit_leaf : Text → GoError → Walk → Walk
unfolding as_send_error
visit_leaf channel leaf w =
    if is_permanent_on channel (as_send_error leaf)
    then record w { matched = true }
    else record w { only = false }

unfoldable pub is_permanent_channel_only : Option GoError → Text → Bool
is_permanent_channel_only none channel = false
is_permanent_channel_only (some e) channel =
    let w = walk_leaf_errors (visit_leaf channel) e (record { matched = false; only = true }) in
    w.only && w.matched

-- Every leaf of the error is a permanent SendError of the channel, and there is one.
unfoldable mutual
  pub IsPermanentOn : Text → GoError → Type 0
  IsPermanentOn channel (send_error c p e) = (c ≡ channel) × (p ≡ true)
  IsPermanentOn channel (joined none_left) = ⊥
  IsPermanentOn channel (joined (also e es)) = IsPermanentOn channel e × ArePermanentOn channel es
  IsPermanentOn channel (wrapped t e) = IsPermanentOn channel e
  IsPermanentOn channel (wrapped_nil t) = ⊥
  IsPermanentOn channel (plain t) = ⊥

  pub ArePermanentOn : Text → GoErrors → Type 0
  ArePermanentOn channel none_left = Unit
  ArePermanentOn channel (also e es) = IsPermanentOn channel e × ArePermanentOn channel es

abbrev all_permanent : Walk
all_permanent = record { matched = true; only = true }

-- The walk ends with `only` set just where it began so and each leaf is permanent; then it has also
-- set `matched`.
mutual
  unfolding walk_leaf_errors visit_leaf IsPermanentOn

  walk-only :
      (channel : Text) (e : GoError) (w : Walk)
      → (walk_leaf_errors (visit_leaf channel) e w).only ≡ true
      → (w.only ≡ true) × IsPermanentOn channel e
  walk-only channel (send_error c p e) w h = ground (arith, text_eq_iff c channel)
  walk-only channel (joined none_left) w h = ground arith
  walk-only channel (joined (also e es)) w h =
      let (o, rest) = walk_children-only channel es (walk_leaf_errors (visit_leaf channel) e w) h in
      let (o', here) = walk-only channel e w o in (o', (here, rest))
  walk-only channel (wrapped t e) w h = walk-only channel e w h
  walk-only channel (wrapped_nil t) w h = ground arith
  walk-only channel (plain t) w h = ground arith

  walk_children-only :
      (channel : Text) (es : GoErrors) (w : Walk)
      → (walk_children (visit_leaf channel) es w).only ≡ true
      → (w.only ≡ true) × ArePermanentOn channel es
  walk_children-only channel none_left w h = (h, tt)
  walk_children-only channel (also e es) w h =
      let (o, rest) = walk_children-only channel es (walk_leaf_errors (visit_leaf channel) e w) h in
      let (o', here) = walk-only channel e w o in (o', (here, rest))

mutual
  unfolding walk_leaf_errors visit_leaf IsPermanentOn

  walk_all_permanent :
      (channel : Text) (e : GoError) (w : Walk)
      → w.only ≡ true
      → IsPermanentOn channel e
      → walk_leaf_errors (visit_leaf channel) e w ≡ all_permanent
  walk_all_permanent channel (send_error c p e) w o h = ground (arith, text_eq_iff c channel)
  walk_all_permanent channel (joined none_left) w o h = absurd h
  walk_all_permanent channel (joined (also e es)) w o h =
      rw (walk_all_permanent channel e w o h.0) (walk_children-all_permanent channel es h.1)
  walk_all_permanent channel (wrapped t e) w o h = walk_all_permanent channel e w o h
  walk_all_permanent channel (wrapped_nil t) w o h = absurd h
  walk_all_permanent channel (plain t) w o h = absurd h

  walk_children-all_permanent :
      (channel : Text) (es : GoErrors)
      → ArePermanentOn channel es
      → walk_children (visit_leaf channel) es all_permanent ≡ all_permanent
  walk_children-all_permanent channel none_left h = refl
  walk_children-all_permanent channel (also e es) h =
      rw (walk_all_permanent channel e all_permanent refl h.0)
        (walk_children-all_permanent channel es h.1)

-- `IsPermanentChannelOnly` holds of an error exactly if every leaf of its tree of wrapped and joined
-- errors is a permanent send error of the channel.
pub is_permanent_channel_only_iff :
    (channel : Text) (e : GoError)
    → (is_permanent_channel_only (some e) channel ≡ true) ↔ IsPermanentOn channel e
unfolding is_permanent_channel_only
is_permanent_channel_only_iff channel e =
    let start : Walk = record { matched = false; only = true } in
    (
      λ h. (walk-only channel e start (ground arith)).1,
      λ h. ground (arith, walk_all_permanent channel e start refl h),
    )
