-- ===== src/Flow.antt =====
-- How the components work together: a site event on its way from internal/provider/site/site.go over
-- Redis to the streams of internal/sse/hub.go.
pub mod Events
pub mod Publication
pub mod Acceptance
use csar_notify.Base.{Dict, Option, Result, Text, none, some}
use csar_notify.Domain.{Notification, Delivery}
use csar_notify.Hub.{Hub, receive}
use csar_notify.Site.{Site}

abbrev or_same : Hub → Option Hub → Hub
or_same h none = h
or_same h (some h') = h'

-- The site provider of a process whose Redis passes each message on to the one hub, and whose inserts
-- answer with `insert_site_delivery`.
abbrev pub site_over_hub : (Text → Notification → Result Delivery) → Dict Text → Text → Site Hub
site_over_hub insert_site_delivery targets default_target = record {
  insert_site_delivery = λ recipient n h. (insert_site_delivery recipient n, h);
  publish = some (λ channel payload h. (none, or_same h (receive channel payload h)));
  targets = targets;
  default_target = default_target;
}
