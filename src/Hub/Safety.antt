-- ===== src/Hub/Safety.antt =====
-- internal/sse/hub.go: the states that the hub reaches, and panics.
use csar_notify.Base.{Dict, In, List, Text, none, refl, some, subst, sym, ℕ, ◌∙◌, ◌∷◌, ◌≡◌, ◌≢◌}
use csar_notify.Hub.{Hub, update, members, unregister, receive, connect, new_hub}
use csar_notify.Hub.Invariant.{
  Inv, new_hub-Inv, connect-Inv, without_client-Inv, update_keeps, receive-some, unregister-some,
}

-- What happens to a hub: a client connects, one that is connected leaves, a message arrives, or a
-- client takes what is queued for it.
pub data Step (h h' : Hub) : Type 0 where
  connects : (key : Text) → h' ≡ connect key h → Step h h'
  leaves : (key : Text) (c : ℕ) → In c (members h key) → unregister key c h ≡ some h' → Step h h'
  arrives : (channel payload : Text) → receive channel payload h ≡ some h' → Step h h'
  reads :
      (c : ℕ) (payload : Text) (rest : List Text)
      → (h.chans c).queue ≡ payload ∷ rest
      → h' ≡ record h {
        chans = update h.chans c (record { queue = rest; is_closed = (h.chans c).is_closed });
      }
      → Step h h'

pub data Reach (targets : Dict Text) (default_target : Text) : Hub → Type 0 where
  here : Reach targets default_target (new_hub targets default_target)
  next : {h h' : Hub} → Reach targets default_target h → Step h h' → Reach targets default_target h'

eq_of_some : {A : Type 0} {a b : A} → some a ≡ some b → a ≡ b
eq_of_some e = cc e

Step-Inv : {h h' : Hub} → Step h h' → Inv h → Inv h'
unfolding members
Step-Inv {h} (connects key e) v = subst Inv (sym e) (connect-Inv key h v)
Step-Inv {h} (leaves key c i e) v =
    subst Inv (eq_of_some (sym (unregister-some key c h v i) ∙ e)) (without_client-Inv key c h v i)
Step-Inv {h} (arrives channel payload e) v =
    let (h'', e', v') = receive-some channel payload h v in subst Inv (eq_of_some (sym e' ∙ e)) v'
Step-Inv {h} (reads c payload rest q e) v =
    let same =
      update_keeps h.chans c (record { queue = rest; is_closed = (h.chans c).is_closed }) refl in
    subst Inv (sym e) (record {
      is_open = λ k d i. same d ∙ v.is_open k d i;
      made = v.made;
      once = v.once;
      one_key = v.one_key;
    })

pub Reach-Inv :
    (targets : Dict Text) (default_target : Text) {h : Hub} → Reach targets default_target h → Inv h
Reach-Inv targets default_target here = new_hub-Inv targets default_target
Reach-Inv targets default_target (next r s) = Step-Inv s (Reach-Inv targets default_target r)

-- In every state that the hub reaches, however clients come and go and messages arrive, no message
-- makes it send on a closed channel, and no client's leaving closes a channel twice.
pub hub_never_panics :
    (targets : Dict Text) (default_target : Text) {h : Hub}
    → Reach targets default_target h
    → ((channel payload : Text) → receive channel payload h ≢ none)
      × ((key : Text) (c : ℕ) → In c (members h key) → unregister key c h ≢ none)
hub_never_panics targets default_target {h} r =
    let v = Reach-Inv targets default_target r in
    (
      λ channel payload e. let (h', e', _) = receive-some channel payload h v in cc (e, e'),
      λ key c i e. cc (e, unregister-some key c h v i),
    )
