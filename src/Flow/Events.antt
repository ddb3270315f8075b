-- ===== src/Flow/Events.antt =====
-- internal/provider/site/site.go and internal/sse/hub.go: which streams a site event reaches.
use csar_notify.Base.{All, Dict, Text, [], ◌++◌, ◌≢◌}
use csar_notify.Domain.{Delivery}
use csar_notify.Hub.{Hub}
use csar_notify.Hub.Routing.{Yields}
use csar_notify.Telegram.{entry}
use csar_notify.Site.{Site}

-- The prefix of the target is not empty, and any other target whose prefix begins the channel has a
-- shorter one.
abbrev pub Routable : Dict Text → Text → Text → Type 0
Routable targets target recipient =
    (entry target targets ≢ [])
    × All (Yields (entry target targets ++ recipient) target (entry target targets)) targets
