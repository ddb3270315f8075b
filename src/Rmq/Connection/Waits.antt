-- ===== src/Rmq/Connection/Waits.antt =====
-- internal/rmq/connection.go: how long the loop waits before each dial.
use csar_notify.Base.{
  GoError, In, List, Option, [], ap, arith, inl, inr, min, none, pos, refl, some, suc, zero, ℕ, ℤ,
  ◌*◌, ◌^◌, ◌∙◌, ◌∷◌, ◌≡◌, ◌≤◌,
}
use csar_notify.Rmq.Connection.{
  Manager, watching, waiting, next_delay, dial, after_dial, on_timer, on_lost, rounds,
}
use native.Mathlib.Nat.{pow-suc}

-- The k-th wait from a first delay of `d` milliseconds.
abbrev pub wait : ℕ → ℕ → ℤ
wait d k = pos (min (d * 2 ^ k) 60000)

abbrev pub waits : ℕ → ℕ → ℕ → List ℤ
waits d k zero = []
waits d k (suc n) = wait d k ∷ waits d (suc k) n

-- The dials up to the first that succeeds.
abbrev pub dials : List (Option GoError) → ℕ
dials [] = 0
dials (none ∷ outcomes) = 1
dials (some e ∷ outcomes) = suc (dials outcomes)

next_delay-wait : (d k : ℕ) → next_delay (wait d k) ≡ wait d (suc k)
unfolding next_delay
next_delay-wait d k =
    let twice : d * 2 ^ suc k ≡ d * 2 ^ k * 2 =
      omega (arith, pow-suc 2 k, ap (λ (t : ℕ). d * t) (pow-suc 2 k)) in
    ground (arith, twice)

failed_timer :
    (delay : ℤ) (e : GoError) (m : Manager)
    → (on_timer delay (some e) m).loop ≡ waiting (next_delay delay)
unfolding on_timer after_dial dial
failed_timer delay e m = refl

dialled_timer : (delay : ℤ) (m : Manager) → (on_timer delay none m).loop ≡ watching
unfolding on_timer after_dial dial
dialled_timer delay m = refl

rounds_watching :
    (outcomes : List (Option GoError)) (m : Manager)
    → m.loop ≡ watching
    → rounds outcomes m ≡ ([], m)
unfolding rounds
rounds_watching [] m at = refl
rounds_watching (o ∷ outcomes) m at = ground arith

rounds-waits :
    (outcomes : List (Option GoError)) (d k : ℕ) (m : Manager)
    → m.loop ≡ waiting (wait d k)
    → (rounds outcomes m).0 ≡ waits d k (dials outcomes)
unfolding rounds
rounds-waits [] d k m at = refl
rounds-waits (none ∷ outcomes) d k m at =
    let after = on_timer (wait d k) none m in
    rw (at, rounds)
      (ap (◌∷◌ (wait d k)) (
        ap (λ (r : List ℤ × Manager). r.0)
          (rounds_watching outcomes after (dialled_timer (wait d k) m))))
rounds-waits (some e ∷ outcomes) d k m at =
    let after = on_timer (wait d k) (some e) m in
    rw (at, rounds)
      (ap (◌∷◌ (wait d k)) (
        rounds-waits outcomes d (suc k) after
          (failed_timer (wait d k) e m ∙ ap waiting (next_delay-wait d k))))

rounds_watch :
    (outcomes : List (Option GoError)) (delay : ℤ) (m : Manager)
    → m.loop ≡ waiting delay
    → In none outcomes
    → (rounds outcomes m).1.loop ≡ watching
unfolding rounds
rounds_watch [] delay m at i = absurd i
rounds_watch (none ∷ outcomes) delay m at i =
    let back = dialled_timer delay m in
    let stays = rounds_watching outcomes (on_timer delay none m) back in
    rw (at, rounds) (rw stays back)
rounds_watch (some e ∷ outcomes) delay m at (inl i) = cc i
rounds_watch (some e ∷ outcomes) delay m at (inr i) =
    rw (at, rounds)
      (rounds_watch outcomes (next_delay delay) (on_timer delay (some e) m) (failed_timer delay e m)
        i)

lost-waiting :
    (d : ℕ) (m : Manager)
    → d ≤ 60000
    → m.reconnect_delay ≡ pos d
    → (on_lost m).loop ≡ waiting (wait d 0)
unfolding on_lost
lost-waiting d m h e = ground arith

-- After a lost connection, with a reconnect delay of d milliseconds up to a minute, the waits before
-- the dials are d, 2d, 4d and so on up to a minute each, one for each dial up to the first that
-- succeeds, if one does; and then the loop is back at watching the connection.
pub reconnect_waits :
    (d : ℕ) (outcomes : List (Option GoError)) (m : Manager)
    → d ≤ 60000
    → m.reconnect_delay ≡ pos d
    → ((rounds outcomes (on_lost m)).0 ≡ waits d 0 (dials outcomes))
      × (In none outcomes → (rounds outcomes (on_lost m)).1.loop ≡ watching)
reconnect_waits d outcomes m h e =
    let at = lost-waiting d m h e in
    (rounds-waits outcomes d 0 (on_lost m) at, rounds_watch outcomes (wait d 0) (on_lost m) at)
