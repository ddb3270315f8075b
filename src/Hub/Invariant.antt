-- ===== src/Hub/Invariant.antt =====
-- What holds of the clients and channels in every state of the hub.
use csar_notify.Base.{
  Dict, Distinct, In, List, Option-cases, Text, [], arith, false, if◌then◌else◌, inl, inr, length,
  lookup, ltb, refl, some, subst, text_eq_iff, ℕ, ◌++◌, ◌+◌, ◌<◌, ◌∙◌, ◌∷◌, ◌≡◌, ◌≢◌, ◌⊎◌,
}
use csar_notify.Hub.{
  Hub, Chan, chan_size, update, members_of, members, register, unregister, offer, offer_all,
  broadcast, receive, connect, new_hub, fresh_chan, without_client, resolve_channel, client_key,
}
use csar_notify.Hub.Members.{
  In-add_chan, In-delete_chan, add_chan-Distinct, delete_chan-Distinct, members-register,
  members-drop_client,
}

-- Every registered channel was made by the hub and is open, and is registered once, under one key.
pub record Inv (h : Hub) : Type 0 where
  pub is_open : (k : Text) (c : ℕ) → In c (members h k) → (h.chans c).is_closed ≡ false
  pub made : (k : Text) (c : ℕ) → In c (members h k) → c < h.next_chan
  pub once : (k : Text) → Distinct (members h k)
  pub one_key : (k j : Text) (c : ℕ) → In c (members h k) → In c (members h j) → k ≡ j

pub new_hub-Inv :
    (targets : Dict Text) (default_target : Text) → Inv (new_hub targets default_target)
unfolding new_hub members lookup
new_hub-Inv targets default_target = record {
  is_open = λ k c i. absurd i;
  made = λ k c i. absurd i;
  once = λ k. tt;
  one_key = λ k j c i i'. absurd i;
}

-- A client of `connect` is in the key's set or was registered before.
connect_cases :
    (key k : Text) (h : Hub) (c : ℕ)
    → In c (members (connect key h) k)
    → ((c ≡ h.next_chan) × (key ≡ k)) ⊎ In c (members h k)
unfolding connect members
connect_cases key k h c i =
    let made = record h {
      chans = update h.chans h.next_chan fresh_chan;
      next_chan = h.next_chan + 1;
    } in
    ground (
      arith,
      members-register k key h.next_chan made,
      In-add_chan c h.next_chan (members h key),
      text_eq_iff key k,
    )

connect_fields :
    (key : Text) (h : Hub)
    → ((connect key h).next_chan ≡ h.next_chan + 1)
      × ((connect key h).chans ≡ update h.chans h.next_chan fresh_chan)
unfolding connect register
connect_fields key h = (refl, refl)

connect-Distinct :
    (key k : Text) (h : Hub)
    → ((j : Text) → Distinct (members h j))
    → Distinct (members (connect key h) k)
unfolding connect members
connect-Distinct key k h d =
    let made = record h {
      chans = update h.chans h.next_chan fresh_chan;
      next_chan = h.next_chan + 1;
    } in
    ground (
      arith,
      members-register k key h.next_chan made,
      add_chan-Distinct h.next_chan (members h key) (d key),
      d k,
    )

pub connect-Inv : (key : Text) (h : Hub) → Inv h → Inv (connect key h)
connect-Inv key h v = record {
  is_open = λ k c i.
      rw ((connect_fields key h).1) (ground (arith, connect_cases key k h c i, v.is_open k c));
  made = λ k c i.
      rw ((connect_fields key h).0) (ground (arith, connect_cases key k h c i, v.made k c));
  once = λ k. connect-Distinct key k h v.once;
  one_key = λ k j c i i'. ground (
    arith,
    connect_cases key k h c i,
    connect_cases key j h c i',
    v.made k c,
    v.made j c,
    v.one_key k j c,
  );
}

members-without_client :
    (key k : Text) (ch c : ℕ) (h : Hub)
    → In c (members (without_client key ch h) k)
    → In c (members h k) × (key ≡ k → c ≢ ch)
unfolding without_client members
members-without_client key k ch c h i = ground (
  arith,
  members-drop_client k key ch h.clients,
  In-delete_chan c ch (members_of (lookup key h.clients)),
  text_eq_iff key k,
)

without_client-Distinct :
    (key k : Text) (ch : ℕ) (h : Hub)
    → ((j : Text) → Distinct (members h j))
    → Distinct (members (without_client key ch h) k)
unfolding without_client members
without_client-Distinct key k ch h d = ground (
  arith,
  members-drop_client k key ch h.clients,
  delete_chan-Distinct ch (members_of (lookup key h.clients)) (d key),
  d k,
)

-- No other client is touched.
still_there :
    (key k : Text) (ch c : ℕ) (h : Hub)
    → Inv h
    → In ch (members h key)
    → In c (members (without_client key ch h) k)
    → In c (members h k) × (c ≢ ch)
still_there key k ch c h v here i =
    let (before, other) = members-without_client key k ch c h i in
    (before, λ e. other (v.one_key key k ch here (subst (λ x. In x (members h k)) e before)) e)

chans-without_client :
    (key : Text) (ch c : ℕ) (h : Hub)
    → c ≢ ch
    → ((without_client key ch h).chans c ≡ h.chans c)
      × ((without_client key ch h).next_chan ≡ h.next_chan)
unfolding without_client
chans-without_client key ch c h n = ground arith

pub without_client-Inv :
    (key : Text) (ch : ℕ) (h : Hub) → Inv h → In ch (members h key) → Inv (without_client key ch h)
without_client-Inv key ch h v here = record {
  is_open = λ k c i.
      let (before, other) = still_there key k ch c h v here i in
      rw ((chans-without_client key ch c h other).0) (v.is_open k c before);
  made = λ k c i.
      let (before, other) = still_there key k ch c h v here i in
      rw ((chans-without_client key ch c h other).1) (v.made k c before);
  once = λ k. without_client-Distinct key k ch h v.once;
  one_key = λ k j c i i'.
      v.one_key k j c (still_there key k ch c h v here i).0 (still_there key j ch c h v here i').0;
}

offer-some :
    (payload : Text) (c : Chan)
    → c.is_closed ≡ false
    → (c' : Chan) × (offer payload c ≡ some c') × (c'.is_closed ≡ c.is_closed)
unfolding offer
offer-some payload c h = (
  (if ltb (length c.queue) chan_size then record c { queue = c.queue ++ payload ∷ [] } else c),
  ground arith,
  ground arith,
)

pub update_keeps :
    (chans : ℕ → Chan) (d : ℕ) (c' : Chan)
    → c'.is_closed ≡ (chans d).is_closed
    → (c : ℕ) → (update chans d c' c).is_closed ≡ (chans c).is_closed
update_keeps chans d c' same c = ground arith

offer_all-some :
    (payload : Text) (cs : List ℕ) (chans : ℕ → Chan)
    → ((c : ℕ) → In c cs → (chans c).is_closed ≡ false)
    → (chans' : ℕ → Chan) × (offer_all payload cs chans ≡ some chans')
      × ((c : ℕ) → (chans' c).is_closed ≡ (chans c).is_closed)
unfolding offer_all
offer_all-some payload [] chans h = (chans, refl, λ c. refl)
offer_all-some payload (d ∷ ds) chans h =
    let (c', sent, same) = offer-some payload (chans d) (h d (inl refl)) in
    let keep = update_keeps chans d c' same in
    let (chans', all_sent, still) =
      offer_all-some payload ds (update chans d c') (λ c i. keep c ∙ h c (inr i)) in
    (chans', rw (sent, offer_all) all_sent, λ c. still c ∙ keep c)

-- A broadcast does not panic, and it leaves the clients and their channels as they are but for what
-- is queued.
broadcast-some :
    (subject payload : Text) (h : Hub)
    → Inv h
    → (h' : Hub) × (broadcast subject payload h ≡ some h') × Inv h'
unfolding broadcast members
broadcast-some subject payload h v =
    let (chans', sent, same) =
      offer_all-some payload (members h subject) h.chans (λ c i. v.is_open subject c i) in
    (
      record h { chans = chans' },
      rw (sent, broadcast),
      record {
        is_open = λ k c i. same c ∙ v.is_open k c i;
        made = v.made;
        once = v.once;
        one_key = v.one_key;
      },
    )

pub receive-some :
    (channel payload : Text) (h : Hub)
    → Inv h
    → (h' : Hub) × (receive channel payload h ≡ some h') × Inv h'
unfolding receive
receive-some channel payload h v = elim (Option-cases (resolve_channel channel h)) [
  | inl e ↦ (h, rw (e, receive), v)
  | inr ((target, subject), e) ↦
      let (h', sent, v') = broadcast-some (client_key target subject) payload h v in
      (h', rw (e, receive) sent, v')
]

pub unregister-some :
    (key : Text) (c : ℕ) (h : Hub)
    → Inv h
    → In c (members h key)
    → unregister key c h ≡ some (without_client key c h)
unfolding unregister
unregister-some key c h v i = rw (v.is_open key c i)
