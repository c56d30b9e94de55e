-- ===== src/Orchestration/Repair/Lifecycle.antt =====
-- States of a repair plan: `setRepairState` and what it calls, of internal/orchestration/transition.go.
use adro.Prelude.{
  Bool, true, false, ◌||◌, not, String, str_eq, List, [], ◌∷◌, ◌++◌, Option, none, some,
  if◌then◌else◌, any, last_or,
}
use adro.Orchestration.Paths.{member}
use adro.Orchestration.Projection.{
  RepairLifecycle, planned, dispatched, patched, verifying, verified, exhausted, RepairPlan,
}

-- `a == b` on lifecycle states
unfoldable pub same_state : RepairLifecycle → RepairLifecycle → Bool
same_state planned planned = true
same_state dispatched dispatched = true
same_state patched patched = true
same_state verifying verifying = true
same_state verified verified = true
same_state RepairLifecycle.failed RepairLifecycle.failed = true
same_state exhausted exhausted = true
same_state RepairLifecycle.unset RepairLifecycle.unset = true
same_state (RepairLifecycle.unknown s) (RepairLifecycle.unknown t) = str_eq s t
same_state _ _ = false

-- `validRepairLifecycle`
unfoldable pub valid_repair_lifecycle : RepairLifecycle → Bool
valid_repair_lifecycle RepairLifecycle.unset = false
valid_repair_lifecycle (RepairLifecycle.unknown s) = false
valid_repair_lifecycle _ = true

next_states : RepairLifecycle → List RepairLifecycle
next_states planned = dispatched ∷ RepairLifecycle.failed ∷ exhausted ∷ []
next_states dispatched = patched ∷ RepairLifecycle.failed ∷ exhausted ∷ []
next_states patched = verifying ∷ RepairLifecycle.failed ∷ exhausted ∷ []
next_states verifying = verified ∷ RepairLifecycle.failed ∷ exhausted ∷ []
next_states RepairLifecycle.failed = planned ∷ exhausted ∷ []
next_states _ = []

-- `repairLifecycleTransitionAllowed`
unfoldable pub transition_allowed : RepairLifecycle → RepairLifecycle → Bool
unfolding same_state next_states
transition_allowed from to =
    if same_state from to then true else any (same_state to) (next_states from)

-- The history once it holds the present state, as `setRepairState` mends it.
unfoldable pub settled_history : RepairLifecycle → List RepairLifecycle → List RepairLifecycle
unfolding same_state
settled_history state [] = state ∷ []
settled_history state (h ∷ hs) =
    if same_state (last_or h hs) state then h ∷ hs else (h ∷ hs) ++ state ∷ []

-- `setRepairState`: `none` where Go returns false, which leaves the plan as it was.
unfoldable pub set_repair_state : RepairPlan → RepairLifecycle → Option RepairPlan
unfolding valid_repair_lifecycle same_state transition_allowed settled_history
set_repair_state r next =
    if not (valid_repair_lifecycle next)
    then none
    else if same_state r.state RepairLifecycle.unset
    then some (record r { state = next; state_history = r.state_history ++ next ∷ [] })
    else if not (transition_allowed r.state next)
    then none
    else if same_state r.state next
    then some (record r { state_history = settled_history r.state r.state_history })
    else some (record r {
      state = next;
      state_history = settled_history r.state r.state_history ++ next ∷ [];
    })

append_fresh : List String → List String → List String → List String
append_fresh seen acc [] = acc
append_fresh seen acc (v ∷ vs) =
    if str_eq v "" || member v seen
    then append_fresh seen acc vs
    else append_fresh (v ∷ seen) (acc ++ v ∷ []) vs

-- `appendUnique` of transition.go
unfoldable pub append_unique : List String → List String → List String
unfolding append_fresh
append_unique values additions = append_fresh [] [] (values ++ additions)
