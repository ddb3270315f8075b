-- ===== src/Site.antt =====
-- internal/provider/site/site.go: a delivery row for each notification, and an event on Redis.
-- Outside: the store, `json.Unmarshal` of the preference, `json.Marshal` of the row, and the Redis
-- client, which may be missing. The quotes in the texts of errors are left out.
pub mod Targets
use csar_notify.Base.{
  Dict, GoError, Option, Result, Text, [], codes, err, if◌then◌else◌, insert, is_empty, lookup,
  none, not, ok, plain, some, trim_space, wrapped, ◌++◌, ◌∷◌,
}
use csar_notify.Domain.{Notification, Delivery, channel_site}
use csar_notify.Provider.{Provider}
use csar_notify.Telegram.{entry}

-- type Provider struct; a target is its Redis prefix. `publish` is none without a Redis client.
pub record Site (W : Type 0) : Type 0 where
  pub insert_site_delivery : Text → Notification → W → Result Delivery × W
  pub publish : Option (Text → Text → W → Option GoError × W)
  pub targets : Dict Text
  pub default_target : Text

-- A value that is not empty takes the place of the target so far.
abbrev pub prefer : Text → Text → Text
prefer value target = if is_empty value then target else value

module _ {W : Type 0} (p : Site W) (decode_target : Text → Result Text) where
  -- The target by the preference.
  unfoldable pub preferred : Text → Result Text
  preferred [] = ok p.default_target
  preferred (c ∷ pref_config) = elim (decode_target (c ∷ pref_config)) [
    | err e ↦ err (wrapped (codes "decode site preference") e)
    | ok target ↦ ok (prefer (trim_space target) p.default_target)
  ]

  unfoldable pub check_target : Text → Result Text
  check_target target = elim (lookup target p.targets) [
    | none ↦ err (plain (codes "site target " ++ target ++ codes " is not configured"))
    | some redis_prefix ↦ ok target
  ]

  unfoldable pub resolve_target : Notification → Text → Result Text
  resolve_target n pref_config = elim (preferred pref_config) [
    | err e ↦ err e
    | ok target ↦ check_target (prefer (trim_space (entry (codes "site_target") n.metadata)) target)
  ]

  module _ (marshal : Delivery → Result Text) where
    -- What follows the insert.
    unfoldable pub announce :
        Text
        → Text
        → Delivery
        → Option (Text → Text → W → Option GoError × W)
        → W
        → Option GoError × W
    announce target recipient item none w = (none, w)
    announce target recipient item (some publish) w = elim (marshal item) [
      | err e ↦ (some (wrapped (codes "marshal site event") e), w)
      | ok payload ↦
          let (e, w') = publish (entry target p.targets ++ recipient) payload w in
          (
            elim e [
              | none ↦ none
              | some failure ↦ some (wrapped (codes "publish site event") failure)
            ],
            w',
          )
    ]

    unfoldable pub deliver : Text → Text → Notification → W → Option GoError × W
    deliver target recipient n w =
        let (r, w') = p.insert_site_delivery recipient n w in
        elim r [
          | err e ↦ (some (wrapped (codes "site delivery insert") e), w')
          | ok item ↦ announce target recipient item p.publish w'
        ]

    unfoldable pub send : Notification → Text → Text → W → Option GoError × W
    send n recipient pref_config w = elim (resolve_target n pref_config) [
      | err e ↦ (some e, w)
      | ok target ↦ deliver target recipient n w
    ]

    -- The provider; Close does nothing.
    unfoldable pub site : Provider W
    site = record {
      name = codes "site";
      channel = channel_site;
      send = send;
      close = λ w. (none, w);
    }
