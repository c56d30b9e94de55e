-- ===== src/Orchestration/Repair/States.antt =====
-- The states that a repair plan goes through: internal/orchestration/transition.go.
use adro.Prelude.{
  ◌≡◌, refl, true, false, List, [], ◌∷◌, ◌++◌, some, arith, last_or, last_or-concat, eq_iff, ap,
  sym,
}
use adro.Orchestration.Projection.{
  RepairLifecycle, planned, dispatched, patched, verifying, verified, exhausted, RepairPlan,
}
use adro.Orchestration.Repair.Lifecycle.{
  same_state, transition_allowed, settled_history, set_repair_state,
}

-- Each state is allowed after the one before it.
abbrev pub Chain : RepairLifecycle → List RepairLifecycle → Type 0
Chain s [] = Unit
Chain s (h ∷ hs) = (transition_allowed s h ≡ true) × Chain h hs

-- A history as `PlanProjection.Validate` asks for it: from `planned` to the present state.
abbrev pub IsHistory : RepairLifecycle → List RepairLifecycle → Type 0
IsHistory state [] = ⊥
IsHistory state (h ∷ hs) = (h ≡ planned) × Chain h hs × (last_or h hs ≡ state)

same_state_eq : (a b : RepairLifecycle) → same_state a b ≡ true → a ≡ b
unfolding same_state
same_state_eq (RepairLifecycle.unknown s) (RepairLifecycle.unknown t) h =
    ap RepairLifecycle.unknown ((eq_iff s t).0 h)
same_state_eq planned b h = ground arith
same_state_eq _ b h = ground arith

same_state_refl : (a : RepairLifecycle) → same_state a a ≡ true
unfolding same_state
same_state_refl (RepairLifecycle.unknown s) = (eq_iff s s).1 refl
same_state_refl planned = refl
same_state_refl _ = refl

Chain-concat :
    (s next : RepairLifecycle) (hs : List RepairLifecycle)
    → Chain s hs
    → transition_allowed (last_or s hs) next ≡ true
    → Chain s (hs ++ next ∷ [])
Chain-concat s next [] c h = (h, tt)
Chain-concat s next (x ∷ hs) c h = (c.0, Chain-concat x next hs c.1 h)

settled_history_lem :
    (state : RepairLifecycle) (hs : List RepairLifecycle)
    → IsHistory state hs
    → settled_history state hs ≡ hs
unfolding settled_history
settled_history_lem state (h ∷ hs) k = ground (arith, same_state_refl state)
settled_history_lem state [] k = absurd k

IsHistory-concat :
    (state next : RepairLifecycle) (hs : List RepairLifecycle)
    → IsHistory state hs
    → transition_allowed state next ≡ true
    → IsHistory next (hs ++ next ∷ [])
IsHistory-concat state next [] k h = absurd k
IsHistory-concat state next (x ∷ hs) k h =
    (k.0, Chain-concat x next hs k.1 (rw k.2 h), last_or-concat x next hs)

never_to_unset :
    (s : RepairLifecycle)
    → same_state s RepairLifecycle.unset ≡ false
    → transition_allowed s RepairLifecycle.unset ≡ false
unfolding same_state transition_allowed
never_to_unset planned h = refl
never_to_unset dispatched h = refl
never_to_unset patched h = refl
never_to_unset verifying h = refl
never_to_unset verified h = refl
never_to_unset RepairLifecycle.failed h = refl
never_to_unset exhausted h = refl
never_to_unset RepairLifecycle.unset h = h
never_to_unset (RepairLifecycle.unknown s) h = refl

Chain-not_unset :
    (s : RepairLifecycle) (hs : List RepairLifecycle)
    → same_state s RepairLifecycle.unset ≡ false
    → Chain s hs
    → same_state (last_or s hs) RepairLifecycle.unset ≡ false
Chain-not_unset s [] k c = k
Chain-not_unset s (x ∷ hs) k c =
    Chain-not_unset x hs (ground (arith, never_to_unset s k, same_state_eq x RepairLifecycle.unset))
      c.1

not_unset :
    (state : RepairLifecycle) (hs : List RepairLifecycle)
    → IsHistory state hs
    → same_state state RepairLifecycle.unset ≡ false
unfolding same_state
not_unset state [] k = absurd k
not_unset state (h ∷ hs) k = rw (sym k.2) (Chain-not_unset h hs (rw k.0 refl) k.1)

-- Where `setRepairState` succeeds on a plan whose history starts with `planned`, takes only allowed
-- steps and ends with its state, the new plan has such a history too, its state is the new one, and
-- the step to it was allowed.
pub set_repair_state-IsHistory :
    (r r' : RepairPlan) (next : RepairLifecycle)
    → IsHistory r.state r.state_history
    → set_repair_state r next ≡ some r'
    → IsHistory r'.state r'.state_history
      × (r'.state ≡ next)
      × (transition_allowed r.state next ≡ true)
unfolding set_repair_state
set_repair_state-IsHistory r r' next k h = ground (
  arith,
  not_unset r.state r.state_history k,
  settled_history_lem r.state r.state_history k,
  IsHistory-concat r.state next r.state_history k,
  same_state_eq r.state next,
)
