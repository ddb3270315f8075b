-- ===== src/Tests/Streams.antt =====
-- Clients of the hub.
use csar_notify.Base.{Dict, In, Text, [], codes, none, refl, ℕ, ◌∷◌, ◌≢◌}
use csar_notify.Hub.{Hub, new_hub, connect, members, receive, unregister, client_key}
use csar_notify.Hub.Safety.{Reach, here, next, connects, hub_never_panics}
use csar_notify.Tests.Data.{ann}

abbrev pub shop : Text
shop = codes "shop"

abbrev pub targets : Dict Text
targets = (shop, codes "shop:") ∷ (codes "main", codes "s") ∷ []

abbrev pub fresh : Hub
fresh = new_hub targets shop

abbrev pub ann_key : Text
ann_key = client_key shop ann

abbrev pub busy : Hub
busy = connect ann_key (connect ann_key fresh)

pub busy_reached : Reach targets shop busy
busy_reached = next (next here (connects ann_key refl)) (connects ann_key refl)

hub_never_panics_example :
    ((channel payload : Text) → receive channel payload busy ≢ none)
    × ((key : Text) (c : ℕ) → In c (members busy key) → unregister key c busy ≢ none)
hub_never_panics_example = hub_never_panics targets shop busy_reached
