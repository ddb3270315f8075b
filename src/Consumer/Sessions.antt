-- ===== src/Consumer/Sessions.antt =====
-- The loops of `Run` and `runSession`. What a session's calls return is a list of events.
use csar_notify.Base.{
  All, Bool, GoError, List, Option, Option-cases, Text, [], ap, arith, false, if◌then◌else◌, inl,
  inr, length, min, none, refl, some, subst, suc, sym, zero, ℕ, ℤ, ◌*◌, ◌^◌, ◌∷◌, ◌≡◌, ◌≢◌,
}
use csar_notify.Dispatch.{Dispatcher}
use csar_notify.Domain.{Notification}
use native.Mathlib.Nat.{pow-suc}
use csar_notify.Rmq.{Delivery}
use csar_notify.Consumer.{Progress, handle_batch}

-- A round of `runSession`: the context is done, or BatchConsume returns.
pub data Poll : Type 0 where
  ctx_done : GoError → Poll
  batch : List Delivery → Poll
  broken : GoError → Poll

-- `running`: the events are used up and the session goes on.
pub data SessionEnd : Type 0 where
  running : SessionEnd
  returned : Option GoError → SessionEnd

module _ {W : Type 0} (uuid_valid : Text → Bool) (dispatcher : Dispatcher W)
    (unmarshal : Text → Option Notification) (max_redeliver : ℤ) where
  unfoldable pub session_loop : List Poll → Progress W → SessionEnd × Progress W
  session_loop [] p = (running, p)
  session_loop (ctx_done e ∷ polls) p = (returned (some e), p)
  session_loop (broken e ∷ polls) p = (returned (some e), p)
  session_loop (batch [] ∷ polls) p = session_loop polls p
  session_loop (batch (d ∷ ds) ∷ polls) p =
      session_loop polls (handle_batch uuid_valid dispatcher unmarshal max_redeliver (d ∷ ds) p)

  -- `opened` is the error of OpenConsumerSession.
  unfoldable pub run_session : Option GoError → List Poll → Progress W → SessionEnd × Progress W
  run_session (some e) polls p = (returned (some e), p)
  run_session none polls p = session_loop polls p

-- How one session of `Run` went: what it returned, whether the context was done afterwards or the
-- error is context.Canceled, and whether the context was done
-- during the wait.
pub record Ended : Type 0 where
  pub result : Option GoError
  pub cancelled : Bool
  pub cancelled_waiting : Bool

abbrev pub max_backoff : ℕ
max_backoff = 30

-- The waits of `Run` between sessions, in seconds.
unfoldable pub run_loop : ℕ → List Ended → List ℕ
run_loop backoff [] = []
run_loop backoff (s ∷ rest) = elim s.result [
  | none ↦ run_loop 1 rest
  | some e ↦
      let again = backoff ∷ run_loop (min (backoff * 2) max_backoff) rest in
      if s.cancelled then [] else if s.cancelled_waiting then backoff ∷ [] else again
]

unfoldable pub run : List Ended → List ℕ
unfolding run_loop
run sessions = run_loop 1 sessions

module _ {W : Type 0} (uuid_valid : Text → Bool) (dispatcher : Dispatcher W)
    (unmarshal : Text → Option Notification) (max_redeliver : ℤ) where
  session_loop-error :
      (polls : List Poll) (p : Progress W) (r : Option GoError)
      → (session_loop uuid_valid dispatcher unmarshal max_redeliver polls p).0 ≡ returned r
      → r ≢ none
  unfolding session_loop
  session_loop-error [] p r h = λ e. cc
  session_loop-error (ctx_done e ∷ polls) p r h = λ e. cc
  session_loop-error (broken e ∷ polls) p r h = λ e. cc
  session_loop-error (batch [] ∷ polls) p r h = session_loop-error polls p r h
  session_loop-error (batch (d ∷ ds) ∷ polls) p r h =
      session_loop-error polls
        (handle_batch uuid_valid dispatcher unmarshal max_redeliver (d ∷ ds) p) r h

  -- A session never ends without an error.
  pub run_session_error :
      (opened : Option GoError) (polls : List Poll) (p : Progress W) (r : Option GoError)
      → (run_session uuid_valid dispatcher unmarshal max_redeliver opened polls p).0 ≡ returned r
      → r ≢ none
  unfolding run_session
  run_session_error (some e) polls p r h = λ e. cc
  run_session_error none polls p r h = session_loop-error polls p r h

-- The k-th wait, counted from 0.
abbrev pub delay : ℕ → ℕ
delay k = min (2 ^ k) max_backoff

abbrev pub delays : ℕ → ℕ → List ℕ
delays k zero = []
delays k (suc n) = delay k ∷ delays (suc k) n

-- The session ended with an error while the service goes on.
abbrev pub Failed : Ended → Type 0
Failed s = (s.result ≢ none) × (s.cancelled ≡ false) × (s.cancelled_waiting ≡ false)

delay-suc : (k : ℕ) → min (delay k * 2) max_backoff ≡ delay (suc k)
delay-suc k = omega (arith, pow-suc 2 k)

run_loop-delays :
    (k : ℕ) (ss : List Ended) → All Failed ss → run_loop (delay k) ss ≡ delays k (length ss)
unfolding run_loop
run_loop-delays k [] h = refl
run_loop-delays k (s ∷ ss) h = elim (Option-cases s.result) [
  | inl e ↦ absurd (h.0.0 e)
  | inr (e, failed) ↦
      let rest =
        subst (λ b. run_loop b ss ≡ delays (suc k) (length ss)) (sym (delay-suc k))
          (run_loop-delays (suc k) ss h.1) in
      rw (failed, run_loop) (rw (h.0.1) (rw (h.0.2) (ap (◌∷◌ (delay k)) rest)))
]

-- While every session ends with an error and the service goes on, the waits between them are 1, 2,
-- 4, 8, 16 and from then on 30 seconds, whatever the sessions did before they ended.
pub run-delays : (ss : List Ended) → All Failed ss → run ss ≡ delays 0 (length ss)
unfolding run
run-delays ss h = run_loop-delays 0 ss h
