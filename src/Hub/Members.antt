-- ===== src/Hub/Members.antt =====
-- The sets of channels, and what registering and unregistering make of them.
use csar_notify.Base.{
  Dict, Distinct, In, List, Option-cases, Text, [], arith, if◌then◌else◌, inl, inr, lookup,
  lookup-insert, lookup-remove, text_eq, text_eq_iff, true, ℕ, ◌↔◌, ◌∷◌, ◌≡◌, ◌≢◌, ◌⊎◌,
}
use csar_notify.Hub.{
  Hub, members_of, members, add_chan, delete_chan, register, keep_if_any, drop_client, has_chan,
}

pub In-add_chan : (a c : ℕ) (cs : List ℕ) → In a (add_chan c cs) → (a ≡ c) ⊎ In a cs
unfolding add_chan
In-add_chan a c cs h = ground arith

pub In-delete_chan : (a c : ℕ) (cs : List ℕ) → In a (delete_chan c cs) → (a ≢ c) × In a cs
unfolding delete_chan
In-delete_chan a c [] h = absurd h
In-delete_chan a c (d ∷ ds) h = ground (arith, In-delete_chan a c ds)

has_chan_iff : (c : ℕ) (cs : List ℕ) → (has_chan c cs ≡ true) ↔ In c cs
unfolding has_chan
has_chan_iff c [] = ground arith
has_chan_iff c (d ∷ ds) = ground (arith, has_chan_iff c ds)

pub add_chan-Distinct : (c : ℕ) (cs : List ℕ) → Distinct cs → Distinct (add_chan c cs)
unfolding add_chan
add_chan-Distinct c cs d = ground (arith, has_chan_iff c cs)

pub delete_chan-Distinct : (c : ℕ) (cs : List ℕ) → Distinct cs → Distinct (delete_chan c cs)
unfolding delete_chan
delete_chan-Distinct c [] d = tt
delete_chan-Distinct c (x ∷ xs) d =
    ground (arith, delete_chan-Distinct c xs d.1, In-delete_chan x c xs)

pub members-register :
    (k subject : Text) (ch : ℕ) (h : Hub)
    → members (register subject ch h) k
      ≡ (if text_eq subject k then add_chan ch (members h subject) else members h k)
unfolding members register
members-register k subject ch h =
    ground (
      arith,
      lookup-insert subject k (add_chan ch (members_of (lookup subject h.clients))) h.clients,
    )

members-keep_if_any :
    (k subject : Text) (cs : List ℕ) (clients : Dict (List ℕ))
    → members_of (lookup k (keep_if_any subject cs clients))
      ≡ (if text_eq subject k then cs else members_of (lookup k clients))
members-keep_if_any k subject [] clients = ground (arith, lookup-remove subject k clients)
members-keep_if_any k subject (c ∷ cs) clients =
    ground (arith, lookup-insert subject k (c ∷ cs) clients)

pub members-drop_client :
    (k subject : Text) (ch : ℕ) (clients : Dict (List ℕ))
    → members_of (lookup k (drop_client subject ch (lookup subject clients) clients)) ≡ (
        if text_eq subject k
        then delete_chan ch (members_of (lookup subject clients))
        else members_of (lookup k clients))
unfolding drop_client delete_chan
members-drop_client k subject ch clients = elim (Option-cases (lookup subject clients)) [
  | inl e ↦ rw (e, drop_client) (ground (arith, e, text_eq_iff subject k))
  | inr (cs, e) ↦ rw (e, drop_client) (members-keep_if_any k subject (delete_chan ch cs) clients)
]
