-- ===== src/Site/Targets.antt =====
-- internal/provider/site/site.go: the target of a site event.
use csar_notify.Base.{
  GoError, Option, Result, Text, [], arith, codes, lookup, none, ok, refl, some, trim_space, ◌++◌,
  ◌∷◌, ◌≡◌, ◌≢◌,
}
use csar_notify.Domain.{Notification, Delivery}
use csar_notify.Telegram.{entry}
use csar_notify.Telegram.Bots.{first_of}
use csar_notify.Site.{Site, preferred, check_target, resolve_target, announce, deliver, send}

-- The target that the metadata, the preference and the default ask for, the first of them first.
abbrev pub asked_target : {W : Type 0} → Site W → Notification → Text → Text
asked_target p n target =
    first_of (trim_space (entry (codes "site_target") n.metadata) ∷ trim_space target ∷ [])
      p.default_target

resolve_target_lem :
    {W : Type 0} (p : Site W) (decode_target : Text → Result Text) (n : Notification)
    (pref_config target : Text)
    → pref_config ≢ []
    → decode_target pref_config ≡ ok target
    → resolve_target p decode_target n pref_config
      ≡ check_target p decode_target (asked_target p n target)
unfolding resolve_target preferred
resolve_target_lem p decode_target n [] target h d = absurd (h refl)
resolve_target_lem p decode_target n (c ∷ pref_config) target h d =
    rw (d, resolve_target) (ground arith)

-- A send whose preference decodes changes nothing if the target that is asked for is not configured.
-- Otherwise it inserts one row and, if that succeeds and there is a Redis client, publishes the row on
-- the channel made of that target's prefix and the recipient.
pub send_targets_site :
    {W : Type 0} (p : Site W) (decode_target : Text → Result Text)
    (marshal : Delivery → Result Text) (n : Notification) (recipient pref_config target : Text)
    (w : W) (publish : Text → Text → W → Option GoError × W)
    → pref_config ≢ []
    → decode_target pref_config ≡ ok target
    → p.publish ≡ some publish
    → (lookup (asked_target p n target) p.targets ≡ none
        → (send p decode_target marshal n recipient pref_config w).1 ≡ w)
      × ((redis_prefix payload : Text) (item : Delivery) (w' : W)
          → lookup (asked_target p n target) p.targets ≡ some redis_prefix
          → p.insert_site_delivery recipient n w ≡ (ok item, w')
          → marshal item ≡ ok payload
          → (send p decode_target marshal n recipient pref_config w).1
            ≡ (publish (redis_prefix ++ recipient) payload w').1)
unfolding send check_target deliver announce
send_targets_site p decode_target marshal n recipient pref_config target w publish h d u =
    let r = resolve_target_lem p decode_target n pref_config target h d in
    (
      λ m. rw (r, send) (rw (m, send)),
      λ redis_prefix payload item w' m i s.
          rw (r, send)
            (rw (m, check_target)
              (rw (i, deliver) (rw (u, announce) (rw (s, announce) (ground (arith, m, i)))))),
    )
