-- ===== src/Tests/Domains.antt =====
-- Notifications and filters.
use csar_notify.Base.{Any, List, Text, [], codes, none, true, ◌↔◌, ◌∷◌, ◌≡◌, ◌⊎◌}
use csar_notify.Domain.{topic_matches, validate_notification, normalize}
use csar_notify.Domain.Topics.{Admits, topic_matches_iff}
use csar_notify.Domain.Validation.{IsValid, validate_notification_iff}
use csar_notify.Tests.Data.{known, order}

abbrev filters : List Text
filters = codes "orders.*" ∷ []

topic_matches_iff_example :
    (topic_matches filters (codes "orders.new") ≡ true)
    ↔ ((filters ≡ []) ⊎ Any (λ f. Admits f (codes "orders.new")) filters)
topic_matches_iff_example = topic_matches_iff filters (codes "orders.new")

validate_notification_iff_example :
    (((validate_notification known order).0 ≡ none) ↔ IsValid known (normalize order))
    × ((validate_notification known order).1 ≡ normalize order)
validate_notification_iff_example = validate_notification_iff known order
