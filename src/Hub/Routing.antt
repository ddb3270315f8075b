-- ===== src/Hub/Routing.antt =====
-- Which clients a Redis message goes to.
use csar_notify.Base.{
  All, Bool-cases, Dict, In, Text, [], ap, arith, has_prefix, has_prefix-append, inl, inr, length,
  ltb, refl, some, trim_prefix-append, true, ◌&&◌, ◌++◌, ◌<◌, ◌∷◌, ◌≡◌, ◌≢◌, ◌⊎◌,
}
use csar_notify.Hub.{Hub, longest, resolve_channel, client_key}

-- A prefix that matches is shorter than `p`, or it is the entry of `p` itself.
abbrev pub Yields : Text → Text → Text → Text × Text → Type 0
Yields channel name p (n, q) =
    has_prefix channel q ≡ true → (length q < length p) ⊎ ((n ≡ name) × (q ≡ p))

longest_kept :
    (channel name p : Text) (entries : Dict Text)
    → All (Yields channel name p) entries
    → longest channel entries p name ≡ (p, name)
unfolding longest
longest_kept channel name p [] h = refl
longest_kept channel name p ((n, q) ∷ rest) h =
    ground (arith, h.0, longest_kept channel name p rest h.1)

longest_found :
    (channel name p : Text) (entries : Dict Text) (l t : Text)
    → All (Yields channel name p) entries
    → has_prefix channel p ≡ true
    → length l < length p
    → In (name, p) entries
    → longest channel entries l t ≡ (p, name)
unfolding longest
longest_found channel name p [] l t h m s i = absurd i
longest_found channel name p ((n, q) ∷ rest) l t h m s (inl e) = ground (
  arith,
  ap (λ (x : Text × Text). x.0) e,
  ap (λ (x : Text × Text). x.1) e,
  longest_kept channel name p rest h.1,
)
longest_found channel name p ((n, q) ∷ rest) l t h m s (inr i) =
    elim (Bool-cases (has_prefix channel q && ltb (length l) (length q))) [
      | inr same ↦ rw same (longest_found channel name p rest l t h.1 m s i)
      | inl better ↦ rw better (elim (h.0 (ground arith)) [
        | inl shorter ↦ longest_found channel name p rest q n h.1 m shorter i
        | inr own ↦ rw (own.0, own.1) (longest_kept channel name p rest h.1)
      ])
    ]

-- A message that is published for a subject under the prefix of a target is routed to that target
-- and subject, in whatever order the targets are visited, provided that any other target's prefix
-- that also matches the channel is shorter. The prefix is not empty.
pub resolve_channel_own :
    (h : Hub) (name p subject : Text)
    → In (name, p) h.target_prefixes
    → p ≢ []
    → All (Yields (p ++ subject) name p) h.target_prefixes
    → resolve_channel (p ++ subject) h ≡ some (name, subject)
unfolding resolve_channel
resolve_channel_own h name [] subject i full y = absurd (full refl)
resolve_channel_own h name (c ∷ p) subject i full y =
    rw
      (longest_found ((c ∷ p) ++ subject) name (c ∷ p) h.target_prefixes [] [] y
        (has_prefix-append (c ∷ p) subject) (omega arith) i)
      (rw (trim_prefix-append (c ∷ p) subject))

-- Two streams have the same key only if they have the same target and the same subject, for target
-- names without the NUL that separates the two.
pub client_key_injective :
    (t t' s s' : Text)
    → All (λ c. c ≢ 0) t
    → All (λ c. c ≢ 0) t'
    → client_key t s ≡ client_key t' s'
    → (t ≡ t') × (s ≡ s')
unfolding client_key
client_key_injective [] [] s s' n n' e = ground arith
client_key_injective [] (c ∷ t') s s' n n' e = absurd (n'.0 (ground arith))
client_key_injective (c ∷ t) [] s s' n n' e = absurd (n.0 (ground arith))
client_key_injective (c ∷ t) (d ∷ t') s s' n n' e =
    let rest = client_key_injective t t' s s' n.1 n'.1 (ground arith) in ground (arith, rest)
