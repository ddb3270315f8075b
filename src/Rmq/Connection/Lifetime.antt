-- ===== src/Rmq/Connection/Lifetime.antt =====
-- internal/rmq/connection.go: the connections of a manager while its loop, the broker and the caller of
-- Close take their steps.
use csar_notify.Base.{
  Bool, Bool-cases, GoError, Option, arith, false, inl, inr, none, refl, some, subst, sym, true, ℕ,
  ℤ, ◌∙◌, ◌≡◌, ◌≢◌,
}
use csar_notify.Rmq.Connection.{
  Manager, Loop, not_started, watching, waiting, stopped, new_connection_manager, mark, dial,
  dialled, connected, connect, on_lost, after_dial, on_timer, on_close_ch, ask_close, close_conn,
  finish_close,
}

-- The loop is where it can receive from closeCh.
abbrev pub Listens : Loop → Type 0
Listens not_started = ⊥
Listens watching = Unit
Listens (waiting d) = Unit
Listens stopped = ⊥

pub data Step (m m' : Manager) : Type 0 where
  connects :
      (ctx_error dial_error : Option GoError)
      → m.loop ≡ not_started
      → m' ≡ (connect ctx_error dial_error m).1
      → Step m m'
  -- the broker or the network closes a connection
  breaks : (c : ℕ) → m' ≡ record m { alive = mark m.alive c false } → Step m m'
  notices :
      (c : ℕ) → m.loop ≡ watching → m.conn ≡ some c → m.alive c ≡ false → m' ≡ on_lost m → Step m m'
  retries :
      (delay : ℤ) (dial_error : Option GoError)
      → m.loop ≡ waiting delay
      → m' ≡ on_timer delay dial_error m
      → Step m m'
  asks : ask_close m ≡ some m' → Step m m'
  stops : m.closing ≡ true → Listens m.loop → m' ≡ on_close_ch m → Step m m'
  finishes : m.closing ≡ true → m.loop ≡ stopped → m' ≡ finish_close m → Step m m'

pub data Reach (delay : ℤ) : Manager → Type 0 where
  here : Reach delay (new_connection_manager delay)
  next : {m m' : Manager} → Reach delay m → Step m m' → Reach delay m'

-- No connection is open.
abbrev NoneAlive : Manager → Type 0
NoneAlive m = (c : ℕ) → m.alive c ≡ false

-- At most one connection is open, the current one; none before the first dial, none while the loop
-- waits, and none once Close has returned, when the loop has stopped.
record Inv (m : Manager) : Type 0 where
  current : (c : ℕ) → m.alive c ≡ true → m.conn ≡ some c
  before : m.loop ≡ not_started → NoneAlive m
  between : (d : ℤ) → m.loop ≡ waiting d → NoneAlive m
  after : m.closed ≡ true → (m.loop ≡ stopped) × NoneAlive m

start-Inv : (delay : ℤ) → Inv (new_connection_manager delay)
unfolding new_connection_manager
start-Inv delay = record {
  current = λ c h. cc h;
  before = λ h c. refl;
  between = λ d h c. refl;
  after = λ h. cc h;
}

-- A new connection where none is open.
dialled-current :
    (m : Manager) → NoneAlive m → (c : ℕ) → (dialled m).alive c ≡ true → (dialled m).conn ≡ some c
unfolding dialled
dialled-current m quiet c h = ground (arith, quiet c)

dialled_closed : (m : Manager) → (dialled m).closed ≡ m.closed
unfolding dialled
dialled_closed m = refl

-- Connect and the retries, which dial where none is open.
watch-Inv :
    (m : Manager) → NoneAlive m → ¬ (m.closed ≡ true) → Inv (record (dialled m) { loop = watching })
watch-Inv m quiet open_still = record {
  current = dialled-current m quiet;
  before = λ h. cc h;
  between = λ d h. cc h;
  after = λ h. absurd (open_still (sym (dialled_closed m) ∙ h));
}

still_open : (m : Manager) → Inv m → m.loop ≢ stopped → ¬ (m.closed ≡ true)
still_open m v n h = n (v.after h).0

connects-Inv :
    (m : Manager) (ctx_error dial_error : Option GoError)
    → m.loop ≡ not_started
    → Inv m
    → Inv (connect ctx_error dial_error m).1
unfolding connect connected dial
connects-Inv m (some e) dial_error at v = v
connects-Inv m none (some e) at v = v
connects-Inv m none none at v = watch-Inv m (v.before at) (still_open m v (λ e. cc (at, e)))

retries-Inv :
    (m : Manager) (delay : ℤ) (dial_error : Option GoError)
    → m.loop ≡ waiting delay
    → Inv m
    → Inv (on_timer delay dial_error m)
unfolding on_timer after_dial dial
retries-Inv m delay (some e) at v = record {
  current = v.current;
  before = λ h. cc h;
  between = λ d h. v.between delay at;
  after = λ h. absurd (still_open m v (λ s. cc (at, s)) h);
}
retries-Inv m delay none at v = watch-Inv m (v.between delay at) (still_open m v (λ e. cc (at, e)))

none_of_current : (m : Manager) (c : ℕ) → Inv m → m.conn ≡ some c → m.alive c ≡ false → NoneAlive m
none_of_current m c v e dead d = elim (Bool-cases (m.alive d)) [
  | inr no_more ↦ no_more
  | inl living ↦ ground (arith, v.current d)
]

notices-Inv :
    (m : Manager) (c : ℕ)
    → m.loop ≡ watching
    → m.conn ≡ some c
    → m.alive c ≡ false
    → Inv m
    → Inv (on_lost m)
unfolding on_lost
notices-Inv m c at e dead v = record {
  current = v.current;
  before = λ h. cc h;
  between = λ d h. none_of_current m c v e dead;
  after = λ h. absurd (still_open m v (λ s. cc (at, s)) h);
}

mark-false : (alive : ℕ → Bool) (c d : ℕ) → alive d ≡ false → mark alive c false d ≡ false
mark-false alive c d h = ground arith

breaks-Inv : (m : Manager) (c : ℕ) → Inv m → Inv (record m { alive = mark m.alive c false })
breaks-Inv m c v = record {
  current = λ d h. v.current d (ground arith);
  before = λ h d. mark-false m.alive c d (v.before h d);
  between = λ w h d. mark-false m.alive c d (v.between w h d);
  after = λ h. ((v.after h).0, λ d. mark-false m.alive c d ((v.after h).1 d));
}

stops-Inv : (m : Manager) → Listens m.loop → Inv m → Inv (on_close_ch m)
unfolding on_close_ch
stops-Inv m l v = record {
  current = v.current;
  before = λ h. cc h;
  between = λ d h. cc h;
  after = λ h. (refl, (v.after h).1);
}

close_conn_dead :
    (alive : ℕ → Bool) (conn : Option ℕ) (c : ℕ) → alive c ≡ false → close_conn alive conn c ≡ false
close_conn_dead alive none c h = h
close_conn_dead alive (some d) c h = mark-false alive d c h

close_conn-none : (m : Manager) → Inv m → (c : ℕ) → close_conn m.alive m.conn c ≡ false
close_conn-none m v c = elim (Bool-cases (m.alive c)) [
  | inr dead ↦ close_conn_dead m.alive m.conn c dead
  | inl living ↦ rw (v.current c living) (ground arith)
]

finishes-Inv : (m : Manager) → m.loop ≡ stopped → Inv m → Inv (finish_close m)
unfolding finish_close
finishes-Inv m at v = record {
  current = λ c h. cc (close_conn-none m v c, h);
  before = λ h. cc (at, h);
  between = λ d h. cc (at, h);
  after = λ h. (at, close_conn-none m v);
}

asked : (m : Manager) {m' : Manager} → ask_close m ≡ some m' → record m { closing = true } ≡ m'
unfolding ask_close
asked m e = ground arith

Step-Inv : {m m' : Manager} → Step m m' → Inv m → Inv m'
Step-Inv {m} (connects ctx_error dial_error at same) v =
    subst Inv (sym same) (connects-Inv m ctx_error dial_error at v)
Step-Inv {m} (breaks c same) v = subst Inv (sym same) (breaks-Inv m c v)
Step-Inv {m} (notices c at e dead same) v = subst Inv (sym same) (notices-Inv m c at e dead v)
Step-Inv {m} (retries delay dial_error at same) v =
    subst Inv (sym same) (retries-Inv m delay dial_error at v)
Step-Inv {m} (asks same) v =
    subst Inv (asked m same)
      (record { current = v.current; before = v.before; between = v.between; after = v.after })
Step-Inv {m} (stops c l same) v = subst Inv (sym same) (stops-Inv m l v)
Step-Inv {m} (finishes c at same) v = subst Inv (sym same) (finishes-Inv m at v)

-- Close does not come undone.
Step-closed : {m m' : Manager} → Step m m' → Inv m → m.closed ≡ true → m'.closed ≡ true
unfolding on_lost on_close_ch finish_close
Step-closed {m} (connects ctx_error dial_error at same) v h =
    absurd (still_open m v (λ e. cc (at, e)) h)
Step-closed {m} (breaks c same) v h = rw same h
Step-closed {m} (notices c at e dead same) v h = rw same h
Step-closed {m} (retries delay dial_error at same) v h = absurd (still_open m v (λ e. cc (at, e)) h)
Step-closed {m} (asks same) v h = rw (sym (asked m same)) h
Step-closed {m} (stops c l same) v h = rw same h
Step-closed {m} (finishes c at same) v h = rw same refl

Reach-Inv : (delay : ℤ) {m : Manager} → Reach delay m → Inv m
Reach-Inv delay here = start-Inv delay
Reach-Inv delay (next r st) = Step-Inv st (Reach-Inv delay r)

-- Whenever connections are lost, dialled again or closed, a connection that is open is the current
-- one, so at most one is; and once Close has returned none is open, and a further step does not change
-- that: also a connection that was dialled while Close waited is closed.
pub close_leaves_none :
    (delay : ℤ) {m : Manager}
    → Reach delay m
    → ((c : ℕ) → m.alive c ≡ true → m.conn ≡ some c)
      × (m.closed ≡ true
          → ((c : ℕ) → m.alive c ≡ false)
            × ((m' : Manager) → Step m m' → (c : ℕ) → m'.alive c ≡ false))
close_leaves_none delay {m} r =
    let v = Reach-Inv delay r in
    (v.current, λ h. ((v.after h).1, λ m' st c. ((Step-Inv st v).after (Step-closed st v h)).1 c))
