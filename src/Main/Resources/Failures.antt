-- ===== src/Main/Resources/Failures.antt =====
-- cmd/csar-notify/main.go: how a start that fails ends.
use csar_notify.Base.{
  All, GoError, In, List, Option, Text, [], arith, codes, false, inl, inr, none, refl, some, ◌++◌,
  ◌↔◌, ◌∷◌, ◌≡◌, ◌≢◌, ◌⊎◌,
}
use csar_notify.Main.{
  Resource, tracer_provider, postgres_pool, redis_client, amqp_connection, publish_buffer,
  app_context, provider_registry, Event, released, hub_started, consumer_started, sidecar_serves,
  http_serves, Startup, Outcome, check, with_resource, then_do, shut_down, serve, run_pipeline,
  run_broker, run,
}
use csar_notify.Main.Resources.{play_from, run-Ends}

-- Where there is an error, the HTTP server was not started.
abbrev Unserved : Outcome → Type 0
Unserved x = x.0 ≢ none → ¬ In http_serves x.1

In-snoc : (log : List Event) (event e : Event) → In e (log ++ event ∷ []) → In e log ⊎ (event ≡ e)
In-snoc [] event e (inl same) = inr same
In-snoc [] event e (inr i) = absurd i
In-snoc (x ∷ log) event e (inl same) = inl (inl same)
In-snoc (x ∷ log) event e (inr i) = elim (In-snoc log event e i) [
  | inl j ↦ inl (inr j)
  | inr same ↦ inr same
]

check-Unserved :
    (text : Text) (e : Option GoError) (x : Outcome) → Unserved x → Unserved (check text e x)
unfolding check
check-Unserved text none x h = h
check-Unserved text (some e) x h = λ n i. absurd i

then_do-Unserved :
    (event : Event) (x : Outcome) → event ≢ http_serves → Unserved x → Unserved (then_do event x)
unfolding then_do
then_do-Unserved event x other h = λ n i. elim i [ inl same ↦ other same | inr j ↦ h n j ]

with_resource-Unserved : (r : Resource) (x : Outcome) → Unserved x → Unserved (with_resource r x)
unfolding with_resource
with_resource-Unserved r x h = λ n i. elim i [
  | inl same ↦ cc same
  | inr j ↦ elim (In-snoc x.1 (released r) http_serves j) [ inl k ↦ h n k | inr same ↦ cc same ]
]

served-Unserved : Unserved (then_do http_serves shut_down)
unfolding then_do shut_down with_resource
served-Unserved = λ n i. n refl

serve-Unserved : (a : Startup) → Unserved (serve a)
unfolding serve
serve-Unserved a =
    then_do-Unserved consumer_started _ (λ e. cc e)
      (check-Unserved (codes "http server") a.http_server _ (
        check-Unserved (codes "health sidecar") a.health_sidecar _
          (then_do-Unserved sidecar_serves _ (λ e. cc e) served-Unserved)))

run_pipeline-Unserved : (a : Startup) → Unserved (run_pipeline a)
unfolding run_pipeline
run_pipeline-Unserved a = with_resource-Unserved publish_buffer _ (
    check-Unserved (codes "resolve site provider targets") a.effective_targets _ (
      with_resource-Unserved app_context _ (
        check-Unserved (codes "start sse hub") a.hub_start _ (
          then_do-Unserved hub_started _ (λ e. cc e)
            (check-Unserved (codes "build providers") a.build_providers _
              (with_resource-Unserved provider_registry (serve a) (serve-Unserved a)))))))

run_broker-Unserved : (a : Startup) → Unserved (run_broker a)
unfolding run_broker
run_broker-Unserved a = check-Unserved (codes "rabbitmq connect") a.rabbitmq_connect _ (
    with_resource-Unserved amqp_connection _ (
      check-Unserved (codes "declare rabbitmq dlq") a.declare_dlq (run_pipeline a)
        (run_pipeline-Unserved a)))

run-Unserved : (a : Startup) → Unserved (run a)
unfolding run
run-Unserved a = check-Unserved (codes "load config") a.load_config _ (
    check-Unserved (codes "init tracer") a.init_tracer _ (
      with_resource-Unserved tracer_provider _ (
        check-Unserved (codes "postgres") a.new_pool _ (
          with_resource-Unserved postgres_pool _ (
            check-Unserved (codes "migrate") a.migrate _ (
              check-Unserved (codes "parse redis url") a.parse_redis_url _ (
                with_resource-Unserved redis_client _ (
                  check-Unserved (codes "redis ping") a.redis_ping (run_broker a)
                    (run_broker-Unserved a)))))))))

abbrev steps : Startup → List (Option GoError)
steps a =
    a.load_config ∷ a.init_tracer ∷ a.new_pool ∷ a.migrate ∷ a.parse_redis_url ∷ a.redis_ping
    ∷ a.rabbitmq_connect ∷ a.declare_dlq ∷ a.effective_targets ∷ a.hub_start ∷ a.build_providers
    ∷ a.http_server ∷ a.health_sidecar ∷ []

-- Every step of the start succeeds.
abbrev pub AllSucceed : Startup → Type 0
AllSucceed a = All (λ (e : Option GoError). e ≡ none) (steps a)

succeeds_iff : (a : Startup) → (run a).0 ≡ none ↔ AllSucceed a
unfolding run run_broker run_pipeline serve shut_down check with_resource then_do
succeeds_iff a = ground arith

-- Whichever steps of the start fail, every resource that run acquires it gives back once, the latest
-- first; the hub, the consumer and the HTTP server start only while what they use is held; and the
-- publish buffer is closed while the AMQP connection is still held, to publish what is left, and
-- after the call that shuts the HTTP server down. An error is returned exactly where a step fails,
-- and then the HTTP server was never started.
pub run-releases :
    (a : Startup)
    → (play_from (run a).1 (some (record { stack = []; serving = false }))
        ≡ some (record { stack = []; serving = false }))
      × ((run a).0 ≡ none ↔ AllSucceed a)
      × ((run a).0 ≢ none → ¬ In http_serves (run a).1)
run-releases a = (run-Ends a, succeeds_iff a, run-Unserved a)
