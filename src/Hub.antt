-- ===== src/Hub.antt =====
-- internal/sse/hub.go: the fan-out of Redis messages to connected clients. A Go channel is a number,
-- and its buffer stands in `chans`. The mutex makes each method one step. Redis, the HTTP stream and
-- the log are outside; `uuid.Parse` is the parameter `uuid_valid`.
pub mod Routing
pub mod Members
pub mod Invariant
pub mod Safety
pub mod Delivery
use csar_notify.Base.{
  Bool, Dict, List, Option, Text, [], codes, false, has_prefix, if◌then◌else◌, insert, is_empty,
  length, lookup, ltb, none, not, remove, some, trim_prefix, trim_space, true, ℕ, ◌&&◌, ◌++◌, ◌+◌,
  ◌==◌, ◌||◌, ◌∷◌,
}

abbrev pub chan_size : ℕ
chan_size = 16

pub record Chan : Type 0 where
  pub queue : List Text
  pub is_closed : Bool

-- `next_chan` is the number of the next channel that is made; of the gauge, the increments and the
-- decrements are counted.
pub record Hub : Type 0 where
  pub target_prefixes : Dict Text
  pub default_target : Text
  pub gauge_incs : ℕ
  pub gauge_decs : ℕ
  pub clients : Dict (List ℕ)
  pub chans : ℕ → Chan
  pub next_chan : ℕ

abbrev pub or_default : Dict Text → Dict Text
or_default [] = (codes "default", codes "notify:") ∷ []
or_default (p ∷ ps) = p ∷ ps

abbrev pub fresh_chan : Chan
fresh_chan = record { queue = []; is_closed = false }

-- New
unfoldable pub new_hub : Dict Text → Text → Hub
new_hub target_prefixes default_target = record {
  target_prefixes = or_default target_prefixes;
  default_target = if is_empty default_target then codes "default" else default_target;
  gauge_incs = 0;
  gauge_decs = 0;
  clients = [];
  chans = λ c. fresh_chan;
  next_chan = 0;
}

unfoldable pub client_key : Text → Text → Text
client_key target subject = target ++ (0 ∷ subject)

abbrev pub update {ℓ} : {A : Type ℓ} → (ℕ → A) → ℕ → A → ℕ → A
update f i a j = if i == j then a else f j

-- h.clients[subject], where a missing key is the nil map
abbrev pub members_of : Option (List ℕ) → List ℕ
members_of none = []
members_of (some cs) = cs

unfoldable pub members : Hub → Text → List ℕ
members h subject = members_of (lookup subject h.clients)

-- A set of channels: `set[ch] = struct{}{}` and `delete(set, ch)`.
unfoldable pub has_chan : ℕ → List ℕ → Bool
has_chan c [] = false
has_chan c (d ∷ ds) = c == d || has_chan c ds

unfoldable pub add_chan : ℕ → List ℕ → List ℕ
add_chan c cs = if has_chan c cs then cs else c ∷ cs

unfoldable pub delete_chan : ℕ → List ℕ → List ℕ
delete_chan c [] = []
delete_chan c (d ∷ ds) = let rest = delete_chan c ds in if d == c then rest else d ∷ rest

unfoldable pub register : Text → ℕ → Hub → Hub
register subject ch h = record h {
  clients = insert subject (add_chan ch (members h subject)) h.clients;
  gauge_incs = h.gauge_incs + 1;
}

abbrev pub keep_if_any : Text → List ℕ → Dict (List ℕ) → Dict (List ℕ)
keep_if_any subject [] clients = remove subject clients
keep_if_any subject (c ∷ cs) clients = insert subject (c ∷ cs) clients

-- The clients without `ch`; a subject that is left with none goes.
unfoldable pub drop_client : Text → ℕ → Option (List ℕ) → Dict (List ℕ) → Dict (List ℕ)
drop_client subject ch none clients = clients
drop_client subject ch (some cs) clients = keep_if_any subject (delete_chan ch cs) clients

unfoldable pub without_client : Text → ℕ → Hub → Hub
without_client subject ch h = record h {
  clients = drop_client subject ch (lookup subject h.clients) h.clients;
  chans = update h.chans ch (record { queue = (h.chans ch).queue; is_closed = true });
  gauge_decs = h.gauge_decs + 1;
}

-- The second close of a channel panics: `none`.
unfoldable pub unregister : Text → ℕ → Hub → Option Hub
unregister subject ch h =
    if (h.chans ch).is_closed then none else some (without_client subject ch h)

-- One round of `broadcast`: a send on a closed channel panics, and a full one drops the payload.
unfoldable pub offer : Text → Chan → Option Chan
offer payload c =
    if c.is_closed
    then none
    else some
        (if ltb (length c.queue) chan_size then record c { queue = c.queue ++ payload ∷ [] } else c)

unfoldable pub offer_all : Text → List ℕ → (ℕ → Chan) → Option (ℕ → Chan)
offer_all payload [] chans = some chans
offer_all payload (c ∷ cs) chans = elim (offer payload (chans c)) [
  | none ↦ none
  | some c' ↦ offer_all payload cs (update chans c c')
]

unfoldable pub broadcast : Text → Text → Hub → Option Hub
broadcast subject payload h = elim (offer_all payload (members h subject) h.chans) [
  | none ↦ none
  | some chans ↦ some (record h { chans = chans })
]

-- resolveChannel: the loop keeps the longest prefix so far and its target. Of two prefixes of one
-- channel, the one with more code points has more bytes.
unfoldable pub longest : Text → Dict Text → Text → Text → Text × Text
longest channel [] longest_prefix target = (longest_prefix, target)
longest channel ((name, prefix) ∷ rest) longest_prefix target =
    let better = has_prefix channel prefix && ltb (length longest_prefix) (length prefix) in
    longest channel rest (if better then prefix else longest_prefix)
      (if better then name else target)

unfoldable pub resolve_channel : Text → Hub → Option (Text × Text)
resolve_channel channel h =
    let (longest_prefix, target) = longest channel h.target_prefixes [] [] in
    if is_empty longest_prefix then none else some (target, trim_prefix channel longest_prefix)

-- The round of `Start`'s loop on a message.
unfoldable pub receive : Text → Text → Hub → Option Hub
receive channel payload h = elim (resolve_channel channel h) [
  | none ↦ some h
  | some (target, subject) ↦ broadcast (client_key target subject) payload h
]

-- How ServeHTTP answers before it streams; `streams` has the key and the channel.
pub data Served : Type 0 where
  streaming_unsupported : Served
  missing_identity : Served
  invalid_subject : Served
  unknown_target : Served
  streams : Text → ℕ → Served

abbrev has_key : Option Text → Bool
has_key none = false
has_key (some prefix) = true

-- The making of the channel and its registration.
unfoldable pub connect : Text → Hub → Hub
connect key h =
    register key h.next_chan
      (record h { chans = update h.chans h.next_chan fresh_chan; next_chan = h.next_chan + 1 })

unfoldable pub serve_http : (Text → Bool) → Bool → Option Text → Text → Hub → Served × Hub
serve_http uuid_valid can_flush none query h =
    (if can_flush then missing_identity else streaming_unsupported, h)
serve_http uuid_valid can_flush (some subject) query h =
    let raw = trim_space query in
    let target = if is_empty raw then h.default_target else raw in
    let key = client_key target subject in
    if not can_flush
    then (streaming_unsupported, h)
    else if is_empty subject
    then (missing_identity, h)
    else if not (uuid_valid subject)
    then (invalid_subject, h)
    else if not (has_key (lookup target h.target_prefixes))
    then (unknown_target, h)
    else (streams key h.next_chan, connect key h)
