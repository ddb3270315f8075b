-- ===== src/Lib.antt =====
-- csar-notify, a notification service in Go, as functions and step relations with theorems on them.
--
-- A notification comes in by POST /ingest, waits in a bounded buffer, is published to RabbitMQ by
-- workers, comes back in batches to the consumer, is dispatched to the channels that each recipient's
-- preferences ask for, and reaches the recipient by a provider: a row and a Redis event for the site,
-- a message of a Telegram bot, or Web Push. The hub passes the Redis events on to connected clients.
--
-- Which file models what:
--   Base       lists, texts, maps, errors and integers of Go: `Text` is a list of code points, `Dict` an
--              association list in the order of a `range`, `GoError` the shape of an error value
--   Domain     internal/domain/types.go: Normalize, ValidateNotification, TopicMatches, uniqueStrings
--   Provider   internal/provider/provider.go (Registry) and errors.go (IsPermanentChannelOnly)
--   Dispatch   internal/dispatch/dispatcher.go: Dispatch, resolveRecipients, resolveChannels
--   Rmq        internal/rmq: consumer.go (CollectBatch, OpenConsumerSession), publisher.go
--              (PublishRaw), connection.go (ConnectionManager with reconnectLoop)
--   Consumer   internal/consumer/runner.go: Run, runSession, decodeBatch, deathCount
--   Pipeline   internal/pipeline/buffer.go: Submit, publishWithRetry, the workers
--   Ingest     internal/ingest/http.go: ServeHTTP
--   Hub        internal/sse/hub.go: register, unregister, broadcast, resolveChannel, ServeHTTP
--   WebPush    internal/provider/webpush/webpush.go: Send
--   Vapid      internal/provider/webpush/auth.go: authorizationHeader with its cache, vapidSubject
--   Telegram   internal/provider/telegram/telegram.go: New, Send, renderMessage
--   Site       internal/provider/site/site.go: Send, resolveTarget
--   Config     internal/config/config.go: LoadFromBytes (Config/Load), EffectiveTargets, EffectiveBots
--   Store      internal/store/postgres.go: InsertSiteDelivery, MarkRead, Dismiss, CountUnread,
--              UpsertPreference, GetPreferences, MergeDefaults; UpsertNotification, ListInbox and
--              ListTopicSubscribers (Store/Listing), and the push subscriptions (Store/Push)
--   PreferencesApi  internal/preferences/handler.go and internal/httpauth/subject.go: list, put
--   InboxApi   internal/inbox/handler.go: list, count, markRead, dismiss
--   PushApi    internal/pushsubscription/handler.go: post, delete
--   Main       cmd/csar-notify/main.go: run, buildProviders, buildTrustFunc; internal/vapid/handler.go
--   Flow       several parts at once: site provider and hub, publish buffer and publisher, ingest and
--              consumer
--   Tests      concrete inputs
-- In each, the definitions stand in the file of the component and the theorems in the files below it.
--
-- State is passed explicitly. A provider or a store is a function on an abstract world `W`; the
-- counters are lists of the labels with which they were incremented. A panic is `none` or a result of
-- its own. Where the program is concurrent, one step is what a mutex or a channel makes atomic: the
-- methods of the hub, the sends and receives of the buffer, the two halves of a request for a VAPID
-- header, and what the reconnect loop does between two receives. Lists of events stand for what the
-- `select` statements receive, in the order in which they are taken.
--
-- What is a parameter, since it is not in the repository: uuid.Parse (`uuid_valid`), encoding/json
-- (`unmarshal`, `encode`, `marshal`, `decode_pref`), strconv.Atoi, the cryptography of VAPID
-- (`Crypto`), the database, Redis, the HTTP, push and AMQP clients, and the broker, whose requeue is
-- taken to keep a message's body and its x-death header.
--
-- Recursion is structural, on lists, on the attempts left (4) and on runs; there is no fuel. Numbers
-- are natural numbers, and `ℤ` where Go's value may be negative; none of them comes near 2^63.
--
-- Not modelled: the metrics' registration (internal/metrics), the trace headers (internal/rmq/trace.go),
-- the migrations' SQL, HTTP middleware, routes and TLS, logging, tracing, histograms, and contexts with
-- their timeouts other than as an event: calls of libraries without logic of the program's own.
mod Base
pub mod Domain
pub mod Provider
pub mod Dispatch
pub mod Rmq
pub mod Consumer
pub mod Pipeline
pub mod Ingest
pub mod Hub
pub mod Vapid
pub mod WebPush
pub mod Telegram
pub mod Site
pub mod Config
pub mod Store
pub mod PreferencesApi
pub mod InboxApi
pub mod PushApi
mod Tests
pub mod Main
pub mod Flow
