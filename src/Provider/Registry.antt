-- ===== src/Provider/Registry.antt =====
-- internal/provider/provider.go: the registry maps a channel to its provider.
use csar_notify.Base.{
  Dict, GoError, List, Option, Text, [], arith, codes, if◌then◌else◌, insert, lookup, lookup-insert,
  none, refl, some, text_eq, wrapped, ◌++◌, ◌∷◌, ◌≡◌,
}
use csar_notify.Provider.{Provider}

-- What the loop of `Close` keeps as the first error.
unfoldable pub keep_first : Text → Option GoError → Option GoError → Option GoError
keep_first name (some f) e = some f
keep_first name none none = none
keep_first name none (some e) = some (wrapped (codes "close provider " ++ name) e)

module _ {W : Type 0} where
  -- The loop of `NewRegistry`; a nil provider is `none`.
  unfoldable pub add_providers : Dict (Provider W) → List (Option (Provider W)) → Dict (Provider W)
  add_providers by_channel [] = by_channel
  add_providers by_channel (none ∷ rest) = add_providers by_channel rest
  add_providers by_channel (some p ∷ rest) = add_providers (insert p.channel p by_channel) rest

  unfoldable pub new_registry : List (Option (Provider W)) → Dict (Provider W)
  unfolding add_providers
  new_registry providers = add_providers [] providers

  -- `Get`, and the same on a nil registry
  unfoldable pub get : Option (Dict (Provider W)) → Text → Option (Provider W)
  get none channel = none
  get (some by_channel) channel = lookup channel by_channel

  -- The loop of `Close`: every provider is closed, and the first error is kept.
  unfoldable pub close_all : Dict (Provider W) → Option GoError → W → Option GoError × W
  close_all [] first_err w = (first_err, w)
  close_all ((c, p) ∷ rest) first_err w =
      let (e, w') = p.close w in close_all rest (keep_first p.name first_err e) w'

  unfoldable pub close : Option (Dict (Provider W)) → W → Option GoError × W
  close none w = (none, w)
  close (some by_channel) w = close_all by_channel none w

  -- The last provider of the list that serves the channel.
  abbrev pub last_for : Text → List (Option (Provider W)) → Option (Provider W)
  last_for channel [] = none
  last_for channel (none ∷ rest) = last_for channel rest
  last_for channel (some p ∷ rest) = elim (last_for channel rest) [
    | some q ↦ some q
    | none ↦ if text_eq p.channel channel then some p else none
  ]

  add_providers_lem :
      (channel : Text) (m : Dict (Provider W)) (ps : List (Option (Provider W)))
      → lookup channel (add_providers m ps)
        ≡ elim (last_for channel ps) [ some p ↦ some p | none ↦ lookup channel m ]
  unfolding add_providers
  add_providers_lem channel m [] = refl
  add_providers_lem channel m (none ∷ ps) = add_providers_lem channel m ps
  add_providers_lem channel m (some p ∷ ps) = ground (
    arith,
    add_providers_lem channel (insert p.channel p m) ps,
    lookup-insert p.channel channel p m,
  )

  -- The registry hands out, for each channel, the last provider that was given for it, and none
  -- where no provider was.
  pub get-new_registry :
      (ps : List (Option (Provider W))) (channel : Text)
      → get (some (new_registry ps)) channel ≡ last_for channel ps
  unfolding get new_registry lookup
  get-new_registry ps channel = ground (arith, add_providers_lem channel [] ps)
