-- ===== src/Hub/Delivery.antt =====
-- Who gets a broadcast.
use csar_notify.Base.{
  Dict, Distinct, In, List, Text, [], ap, arith, false, if◌then◌else◌, inl, inr, length, ltb, refl,
  some, subst, sym, ℕ, ◌++◌, ◌∙◌, ◌∷◌, ◌≡◌, ◌≢◌,
}
use csar_notify.Hub.{Hub, Chan, chan_size, update, members, offer, offer_all, broadcast}
use csar_notify.Hub.Safety.{Reach, Reach-Inv}

-- The channel after it was offered the payload: a full one stays as it is.
abbrev pub offered : Text → Chan → Chan
offered payload c =
    if ltb (length c.queue) chan_size then record c { queue = c.queue ++ payload ∷ [] } else c

offer_open :
    (payload : Text) (c : Chan) → c.is_closed ≡ false → offer payload c ≡ some (offered payload c)
unfolding offer
offer_open payload c h = ground arith

abbrev offers : Text → List ℕ → (ℕ → Chan) → ℕ → Chan
offers payload [] chans = chans
offers payload (c ∷ cs) chans = offers payload cs (update chans c (offered payload (chans c)))

offered_open : (payload : Text) (c : Chan) → (offered payload c).is_closed ≡ c.is_closed
offered_open payload c = ground arith

offer_all_open :
    (payload : Text) (cs : List ℕ) (chans : ℕ → Chan)
    → ((c : ℕ) → (In c cs) → (chans c).is_closed ≡ false)
    → offer_all payload cs chans ≡ some (offers payload cs chans)
unfolding offer_all
offer_all_open payload [] chans h = refl
offer_all_open payload (d ∷ ds) chans h =
    rw (offer_open payload (chans d) (h d (inl refl)), offer_all)
      (offer_all_open payload ds (update chans d (offered payload (chans d)))
        (λ c i. ground (arith, h c (inr i), h d (inl refl), offered_open payload (chans d))))

offers_other :
    (payload : Text) (cs : List ℕ) (chans : ℕ → Chan) (c : ℕ)
    → ¬ In c cs
    → offers payload cs chans c ≡ chans c
offers_other payload [] chans c n = refl
offers_other payload (d ∷ ds) chans c n =
    offers_other payload ds (update chans d (offered payload (chans d))) c (λ i. n (inr i))
    ∙ ground (arith, n)

update_at : (chans : ℕ → Chan) (x : ℕ) (v : Chan) (c : ℕ) → x ≡ c → update chans x v c ≡ v
update_at chans x v c e = ground arith

update_other : (chans : ℕ → Chan) (x : ℕ) (v : Chan) (c : ℕ) → x ≢ c → update chans x v c ≡ chans c
update_other chans x v c n = ground arith

offers_member :
    (payload : Text) (cs : List ℕ) (chans : ℕ → Chan) (c : ℕ)
    → Distinct cs
    → In c cs
    → offers payload cs chans c ≡ offered payload (chans c)
offers_member payload [] chans c d i = absurd i
offers_member payload (x ∷ xs) chans c d (inl e) =
    offers_other payload xs (update chans x (offered payload (chans x))) c
      (subst (λ (v : ℕ). ¬ In v xs) e d.0)
    ∙ update_at chans x (offered payload (chans x)) c e
    ∙ ap (λ (v : ℕ). offered payload (chans v)) e
offers_member payload (x ∷ xs) chans c d (inr i) =
    offers_member payload xs (update chans x (offered payload (chans x))) c d.1 i
    ∙ ap (offered payload) (
        update_other chans x (offered payload (chans x)) c
          (λ e. d.0 (subst (λ (v : ℕ). In v xs) (sym e) i)))

-- In every state that the hub reaches, a broadcast queues the payload once for each client of the
-- subject, unless that client's queue is full, which stays as it is, and touches no other channel.
pub broadcast_reaches :
    (targets : Dict Text) (default_target : Text) {h : Hub} (subject payload : Text)
    → Reach targets default_target h
    → (h' : Hub) × (broadcast subject payload h ≡ some h')
      × ((c : ℕ) → In c (members h subject) → h'.chans c ≡ offered payload (h.chans c))
      × ((c : ℕ) → ¬ In c (members h subject) → h'.chans c ≡ h.chans c)
unfolding broadcast
broadcast_reaches targets default_target {h} subject payload r =
    let v = Reach-Inv targets default_target r in
    let cs = members h subject in
    (
      record h { chans = offers payload cs h.chans },
      rw (offer_all_open payload cs h.chans (λ c i. v.is_open subject c i), broadcast),
      λ c i. offers_member payload cs h.chans c (v.once subject) i,
      λ c n. offers_other payload cs h.chans c n,
    )
