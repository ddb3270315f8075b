-- ===== src/Rmq/Connection.antt =====
-- internal/rmq/connection.go: the connection manager. A connection is a number, and `alive` tells of
-- each whether it is open; the AMQP client's dialling and its notice of a lost connection are inputs.
-- Durations are in milliseconds; logging is left out. `loop` is where the goroutine of reconnectLoop
-- stands, and `done` is closed where that is `stopped`.
pub mod Waits
pub mod Lifetime
use csar_notify.Base.{
  Bool, GoError, List, Option, [], codes, false, if◌then◌else◌, int_le, negsuc, none, not, plain,
  pos, some, suc, true, wrapped, zero, ℕ, ℤ, ◌*◌, ◌+◌, ◌==◌, ◌∷◌,
}

pub data Loop : Type 0 where
  not_started watching : Loop
  waiting : ℤ → Loop
  stopped : Loop

pub record Manager : Type 0 where
  pub reconnect_delay : ℤ
  pub conn : Option ℕ
  pub alive : ℕ → Bool
  pub next_conn : ℕ
  pub loop : Loop
  -- closeCh is closed
  pub closing : Bool
  -- Close has returned
  pub closed : Bool

abbrev pub default_reconnect_delay : ℤ
default_reconnect_delay = pos 5000

abbrev pub or_default_delay : ℤ → ℤ
or_default_delay (pos zero) = default_reconnect_delay
or_default_delay (pos (suc n)) = pos (suc n)
or_default_delay (negsuc n) = negsuc n

unfoldable pub new_connection_manager : ℤ → Manager
new_connection_manager reconnect_delay = record {
  reconnect_delay = or_default_delay reconnect_delay;
  conn = none;
  alive = λ c. false;
  next_conn = 0;
  loop = not_started;
  closing = false;
  closed = false;
}

abbrev pub mark : (ℕ → Bool) → ℕ → Bool → ℕ → Bool
mark alive c b d = if c == d then b else alive d

-- min(delay*2, 60*time.Second)
abbrev pub double : ℤ → ℤ
double (pos n) = pos (n * 2)
double (negsuc n) = negsuc (n * 2 + 1)

unfoldable pub next_delay : ℤ → ℤ
next_delay delay = if int_le (double delay) (pos 60000) then double delay else pos 60000

-- The current connection is there and open.
abbrev pub is_alive : (ℕ → Bool) → Option ℕ → Bool
is_alive alive none = false
is_alive alive (some c) = alive c

unfoldable pub is_connected : Manager → Bool
is_connected m = is_alive m.alive m.conn

-- Channel, with what the client answers on an open connection
unfoldable pub open_channel : Option GoError → Manager → Option GoError
open_channel answer m =
    if is_connected m then answer else some (plain (codes "amqp: connection not available"))

-- A connection that was dialled takes the place of the one before.
unfoldable pub dialled : Manager → Manager
dialled m = record m {
  conn = some m.next_conn;
  alive = mark m.alive m.next_conn true;
  next_conn = m.next_conn + 1;
}

-- dial: the context's error, and the error of DialConfig
unfoldable pub dial : Option GoError → Option GoError → Manager → Option GoError × Manager
dial (some e) dial_error m = (some e, m)
dial none (some e) m = (some e, m)
dial none none m = (none, dialled m)

-- What Connect does after the dial; the loop starts with a connection.
unfoldable pub connected : Option GoError × Manager → Option GoError × Manager
connected (some e, m) = (some (wrapped (codes "amqp initial connect") e), m)
connected (none, m) = (none, record m { loop = watching })

unfoldable pub connect : Option GoError → Option GoError → Manager → Option GoError × Manager
connect ctx_error dial_error m = connected (dial ctx_error dial_error m)

-- The loop's receive from notifyCh.
unfoldable pub on_lost : Manager → Manager
on_lost m = record m { loop = waiting m.reconnect_delay }

-- The rest of a round after its timer, which waited `delay`.
unfoldable pub after_dial : ℤ → Option GoError × Manager → Manager
after_dial delay (some e, m) = record m { loop = waiting (next_delay delay) }
after_dial delay (none, m) = record m { loop = watching }

unfoldable pub on_timer : ℤ → Option GoError → Manager → Manager
on_timer delay dial_error m = after_dial delay (dial none dial_error m)

-- The inner loop, by the outcomes of its dials: what it waited before each of them, and the manager
-- afterwards. It goes on for as long as a round leaves it waiting.
unfoldable pub rounds : List (Option GoError) → Manager → List ℤ × Manager
rounds [] m = ([], m)
rounds (outcome ∷ outcomes) m = elim m.loop [
  | waiting delay ↦
      let (waits, m') = rounds outcomes (on_timer delay outcome m) in (delay ∷ waits, m')
  | not_started ↦ ([], m)
  | watching ↦ ([], m)
  | stopped ↦ ([], m)
]

-- The loop's receive from closeCh.
unfoldable pub on_close_ch : Manager → Manager
on_close_ch m = record m { loop = stopped }

-- Close up to its wait for `done`; a second close of closeCh panics, `none`.
unfoldable pub ask_close : Manager → Option Manager
ask_close m = if m.closing then none else some (record m { closing = true })

abbrev pub close_conn : (ℕ → Bool) → Option ℕ → ℕ → Bool
close_conn alive none = alive
close_conn alive (some c) = mark alive c false

-- Close after its wait.
unfoldable pub finish_close : Manager → Manager
finish_close m = record m { alive = close_conn m.alive m.conn; closed = true }
