-- ===== src/Main/Resources.antt =====
-- cmd/csar-notify/main.go: what run holds and gives back, whichever step of the start fails.
pub mod Failures
use csar_notify.Base.{
  Bool, GoError, List, Option, Text, [], ap, codes, drop, false, if◌then◌else◌, none, not, refl,
  some, true, ℕ, ◌&&◌, ◌++◌, ◌==◌, ◌||◌, ◌∙◌, ◌∷◌, ◌≡◌,
}
use csar_notify.Main.{
  Resource, tracer_provider, postgres_pool, redis_client, amqp_connection, publish_buffer,
  app_context, provider_registry, shutdown_context, Event, acquired, released, hub_started,
  consumer_started, sidecar_serves, http_serves, app_cancelled, http_shutdown, sidecar_shutdown,
  Startup, Outcome, check, with_resource, then_do, shut_down, serve, run_pipeline, run_broker, run,
}

abbrev rank : Resource → ℕ
rank tracer_provider = 0
rank postgres_pool = 1
rank redis_client = 2
rank amqp_connection = 3
rank publish_buffer = 4
rank app_context = 5
rank provider_registry = 6
rank shutdown_context = 7

abbrev holds : Resource → List Resource → Bool
holds r [] = false
holds r (s ∷ stack) = rank s == rank r || holds r stack

abbrev holds_all : List Resource → List Resource → Bool
holds_all [] stack = true
holds_all (r ∷ rs) stack = holds r stack && holds_all rs stack

-- What is held, the latest first, and whether the HTTP server was started and has not been told to shut down.
pub record State : Type 0 where
  pub stack : List Resource
  pub serving : Bool

abbrev pub pop : Resource → List Resource → Option (List Resource)
pop r [] = none
pop r (s ∷ stack) = if rank s == rank r then some stack else none

abbrev with_stack : Bool → Option (List Resource) → Option State
with_stack serving none = none
with_stack serving (some stack) = some (record { stack = stack; serving = serving })

-- One event: none where it must not happen. A resource is acquired once, and given back where it is
-- the latest that is held. The buffer, whose workers publish what is left when it is closed, is given
-- back while the AMQP connection is held and the HTTP server, whose requests submit to it, was told to
-- shut down or never started. What runs beside needs what it uses.
abbrev pub play : Event → State → Option State
play (acquired r) s = if holds r s.stack then none else some (record s { stack = r ∷ s.stack })
play (released publish_buffer) s =
    if holds amqp_connection s.stack && not s.serving
    then with_stack s.serving (pop publish_buffer s.stack)
    else none
play (released r) s = with_stack s.serving (pop r s.stack)
play hub_started s = if holds_all (app_context ∷ redis_client ∷ []) s.stack then some s else none
play consumer_started s =
    if holds_all (app_context ∷ amqp_connection ∷ provider_registry ∷ postgres_pool ∷ []) s.stack
    then some s
    else none
play sidecar_serves s = some s
play http_serves s =
    if holds_all (publish_buffer ∷ postgres_pool ∷ app_context ∷ []) s.stack
    then some (record s { serving = true })
    else none
play app_cancelled s = if holds app_context s.stack then some s else none
play http_shutdown s = some (record s { serving = false })
play sidecar_shutdown s = some s

abbrev pub play_from : List Event → Option State → Option State
play_from log none = none
play_from [] (some s) = some s
play_from (event ∷ log) (some s) = play_from log (play event s)

abbrev holding : List Resource → Bool → State
holding stack serving = record { stack = stack; serving = serving }

-- The log runs through from a state, and ends with the same resources and no server.
abbrev Ends : Outcome → List Resource → Bool → Type 0
Ends x stack serving = play_from x.1 (some (holding stack serving)) ≡ some (holding stack false)

nothing : (log : List Event) → play_from log none ≡ none
nothing [] = refl
nothing (event ∷ log) = refl

play_from-append :
    (log more : List Event) (s : Option State)
    → play_from (log ++ more) s ≡ play_from more (play_from log s)
play_from-append [] more none = nothing more
play_from-append [] more (some s) = refl
play_from-append (event ∷ log) more none = nothing more
play_from-append (event ∷ log) more (some s) = play_from-append log more (play event s)

check-Ends :
    (text : Text) (e : Option GoError) (x : Outcome) (stack : List Resource)
    → Ends x stack false
    → Ends (check text e x) stack false
unfolding check
check-Ends text none x stack h = h
check-Ends text (some e) x stack h = refl

then_do-Ends :
    (event : Event) (x : Outcome) (stack : List Resource) (before after : Bool)
    → play event (holding stack before) ≡ some (holding stack after)
    → Ends x stack after
    → Ends (then_do event x) stack before
unfolding then_do
then_do-Ends event x stack before after p h = ap (play_from x.1) p ∙ h

with_resource-Ends :
    (r : Resource) (x : Outcome) (stack : List Resource) (serving : Bool)
    → play (acquired r) (holding stack serving) ≡ some (holding (r ∷ stack) serving)
    → play (released r) (holding (r ∷ stack) false) ≡ some (holding stack false)
    → Ends x (r ∷ stack) serving
    → Ends (with_resource r x) stack serving
unfolding with_resource
with_resource-Ends r x stack serving a b h =
    ap (play_from (x.1 ++ released r ∷ [])) a
    ∙ play_from-append x.1 (released r ∷ []) (some (holding (r ∷ stack) serving))
    ∙ ap (play_from (released r ∷ [])) h
    ∙ ap (play_from []) b

abbrev started : List Resource
started =
    provider_registry ∷ app_context ∷ publish_buffer ∷ amqp_connection ∷ redis_client
    ∷ postgres_pool ∷ tracer_provider ∷ []

abbrev piped : List Resource
piped = publish_buffer ∷ amqp_connection ∷ redis_client ∷ postgres_pool ∷ tracer_provider ∷ []

shut_down-Ends : Ends shut_down started true
unfolding shut_down with_resource then_do
shut_down-Ends = refl

serve-Ends : (a : Startup) → Ends (serve a) started false
unfolding serve
serve-Ends a = then_do-Ends consumer_started _ started false false refl (
    check-Ends (codes "http server") a.http_server _ started (
      check-Ends (codes "health sidecar") a.health_sidecar _ started (
        then_do-Ends sidecar_serves _ started false false refl
          (then_do-Ends http_serves shut_down started false true refl shut_down-Ends))))

run_pipeline-Ends : (a : Startup) → Ends (run_pipeline a) (drop 3 started) false
unfolding run_pipeline
run_pipeline-Ends a = with_resource-Ends publish_buffer _ (drop 3 started) false refl refl (
    check-Ends (codes "resolve site provider targets") a.effective_targets _ (drop 2 started) (
      with_resource-Ends app_context _ (drop 2 started) false refl refl (
        check-Ends (codes "start sse hub") a.hub_start _ (drop 1 started) (
          then_do-Ends hub_started _ (drop 1 started) false false refl (
            check-Ends (codes "build providers") a.build_providers _ (drop 1 started) (
              with_resource-Ends provider_registry (serve a) (drop 1 started) false refl refl
                (serve-Ends a)))))))

run_broker-Ends : (a : Startup) → Ends (run_broker a) (drop 4 started) false
unfolding run_broker
run_broker-Ends a = check-Ends (codes "rabbitmq connect") a.rabbitmq_connect _ (drop 4 started) (
    with_resource-Ends amqp_connection _ (drop 4 started) false refl refl (
      check-Ends (codes "declare rabbitmq dlq") a.declare_dlq (run_pipeline a) (drop 3 started)
        (run_pipeline-Ends a)))

pub run-Ends : (a : Startup) → Ends (run a) [] false
unfolding run
run-Ends a = check-Ends (codes "load config") a.load_config _ [] (
    check-Ends (codes "init tracer") a.init_tracer _ [] (
      with_resource-Ends tracer_provider _ [] false refl refl (
        check-Ends (codes "postgres") a.new_pool _ (drop 6 started) (
          with_resource-Ends postgres_pool _ (drop 6 started) false refl refl (
            check-Ends (codes "migrate") a.migrate _ (drop 5 started) (
              check-Ends (codes "parse redis url") a.parse_redis_url _ (drop 5 started) (
                with_resource-Ends redis_client _ (drop 5 started) false refl refl (
                  check-Ends (codes "redis ping") a.redis_ping (run_broker a) (drop 4 started)
                    (run_broker-Ends a)))))))))
