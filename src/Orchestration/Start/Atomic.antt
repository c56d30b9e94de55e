-- ===== src/Orchestration/Start/Atomic.antt =====
-- A start that fails has written nothing: `StartAttempt` of internal/orchestration/transition.go.
use adro.Prelude.{
  ◌≡◌, ◌≢◌, refl, ◌⊎◌, inl, inr, Bool, true, false, List, [], ◌∷◌, Option, none, some, arith,
  String, str_eq, Bool-cases, Option-cases, if◌then◌else◌,
}
use adro.Prelude.Int.{ℤ, pos, ltb_ℤ, add64}
use adro.Prelude.Assoc.{lookup, insert}
use adro.Prelude.Text.{sort_texts}
use adro.Prelude.Assoc.{keys}
use mathlib.Core.Path.{subst}
use mathlib.Core.Option.{some-injective}
use adro.Orchestration.Graph.{WorkflowGraph, WorkflowNode}
use adro.Orchestration.Projection.{
  Time, RepairLifecycle, planned, dispatched, verifying, Lease, ContextEnvelope, NodeAttempt,
  NodeProjection, RepairPlan, PlanProjection, RequirementExecutionPlan, TransitionInput, Error,
  unknown_node, ok, err, now_or,
}
use adro.Orchestration.Repair.{
  same_state, valid_repair_lifecycle, set_repair_state, transition_allowed,
}
use adro.Orchestration.Finish.{Finished}
use adro.Orchestration.Route.{node_definition}
use adro.Orchestration.Start.Dispatch.{targets, verifies, first_dispatch, repair_plan_for_dispatch}
use adro.Orchestration.Start.Checks.{
  Check, proceed, again, refuse, plan_check, key_check, node_check, attempt_check,
}
use adro.Orchestration.Start.Attempt.{
  assignment, new_attempt, join_repair, write_attempt, start_node, start_attempt, answer, refused,
  is_repair_kind,
}

none≢some : {x : String × RepairLifecycle} → none ≢ some x
none≢some h = cc

ok≢err : {a : NodeAttempt} {e : Error} → ok a ≢ err e
ok≢err h = cc

some≢none : {r : RepairPlan} → some r ≢ none
some≢none h = cc

-- The plan with this ID is stored, and an attempt with this state may join it.
abbrev CanJoin : PlanProjection → String × RepairLifecycle → Type 0
CanJoin p (id, s) =
    (r : RepairPlan) × (lookup id p.repair_plans ≡ some r)
    × ((a : NodeAttempt) → a.repair_state ≡ s → join_repair r a ≢ none)

targets-allowed :
    (p : PlanProjection) (g : WorkflowGraph) (node : String) (r : RepairPlan)
    → targets p g node r ≡ true
    → (transition_allowed r.state dispatched ≡ true)
      × (same_state r.state RepairLifecycle.unset ≡ false)
unfolding targets transition_allowed same_state
targets-allowed p g node r h = ground arith

verifies-allowed :
    (p : PlanProjection) (g : WorkflowGraph) (node : String) (r : RepairPlan)
    → verifies p g node r ≡ true
    → (transition_allowed r.state verifying ≡ true)
      × (same_state r.state RepairLifecycle.unset ≡ false)
unfolding verifies transition_allowed same_state
verifies-allowed p g node r h = ground arith

set_repair_state_allowed :
    (r : RepairPlan) (next : RepairLifecycle)
    → valid_repair_lifecycle next ≡ true
    → transition_allowed r.state next ≡ true
    → set_repair_state r next ≢ none
unfolding set_repair_state
set_repair_state_allowed r next valid allowed h = ground arith

targets-CanJoin :
    (p : PlanProjection) (g : WorkflowGraph) (node id : String) (r : RepairPlan)
    → lookup id p.repair_plans ≡ some r
    → targets p g node r ≡ true
    → CanJoin p (id, dispatched)
unfolding join_repair valid_repair_lifecycle
targets-CanJoin p g node id r found h = (
  r,
  found,
  (λ a state.
      rw (join_repair, state)
        (set_repair_state_allowed (record r { target_attempt_id = a.id }) dispatched refl
          (targets-allowed p g node r h).0)),
)

verifies-CanJoin :
    (p : PlanProjection) (g : WorkflowGraph) (node id : String) (r : RepairPlan)
    → lookup id p.repair_plans ≡ some r
    → verifies p g node r ≡ true
    → CanJoin p (id, verifying)
unfolding join_repair valid_repair_lifecycle
verifies-CanJoin p g node id r found h = (
  r,
  found,
  (λ a state.
      rw (join_repair, state)
        (set_repair_state_allowed
          (record r { verification_attempts = insert a.node_id a.id r.verification_attempts })
          verifying refl (verifies-allowed p g node r h).0)),
)

first_dispatch-CanJoin :
    (p : PlanProjection) (g : WorkflowGraph) (node : String) (ids : List String)
    (x : String × RepairLifecycle)
    → first_dispatch p g node ids ≡ some x
    → CanJoin p x
unfolding first_dispatch
first_dispatch-CanJoin p g node [] x h = absurd (none≢some h)
first_dispatch-CanJoin p g node (id ∷ ids) x h = elim (Option-cases (lookup id p.repair_plans)) [
  | inl absent ↦ first_dispatch-CanJoin p g node ids x (rw (first_dispatch, absent) at h)
  | inr (r, found) ↦ elim (Bool-cases (targets p g node r)) [
    | inl target ↦
        subst (CanJoin p)
          (some-injective (id, dispatched) x (rw (first_dispatch, found, target) at h))
          (targets-CanJoin p g node id r found target)
    | inr other ↦ elim (Bool-cases (verifies p g node r)) [
      | inl check ↦
          subst (CanJoin p)
            (some-injective (id, verifying) x (rw (first_dispatch, found, other, check) at h))
            (verifies-CanJoin p g node id r found check)
      | inr neither ↦
          first_dispatch-CanJoin p g node ids x (rw (first_dispatch, found, other, neither) at h)
    ]
  ]
]

repair_plan_for_dispatch-CanJoin :
    (p : PlanProjection) (g : WorkflowGraph) (node : String) (x : String × RepairLifecycle)
    → repair_plan_for_dispatch p g node ≡ some x
    → CanJoin p x
unfolding repair_plan_for_dispatch
repair_plan_for_dispatch-CanJoin p g node x h =
    first_dispatch-CanJoin p g node (sort_texts (keys p.repair_plans)) x h

-- There is no plan to join, or it can be joined.
abbrev JoinsIfAny : PlanProjection → String × RepairLifecycle → Type 0
JoinsIfAny p x = (str_eq x.0 "" ≡ true) ⊎ CanJoin p x

CanJoin-planned :
    (p : PlanProjection) (id : String) (s : RepairLifecycle)
    → CanJoin p (id, s)
    → CanJoin p (id, planned)
unfolding join_repair
CanJoin-planned p id s (r, found, joins) =
    (r, found, (λ a state. rw (join_repair, state) (λ h. some≢none h)))

assigned :
    (p : PlanProjection) (repairing : Bool) (o : Option (String × RepairLifecycle))
    → ((x : String × RepairLifecycle) → o ≡ some x → CanJoin p x)
    → JoinsIfAny p (
        let found : String × RepairLifecycle = elim o [
          | none ↦ ("", RepairLifecycle.unset)
          | some (id, s) ↦ (id, s)
        ] in
        if repairing then (found.0, planned) else found)
assigned p true none k = inl refl
assigned p false none k = inl refl
assigned p true (some (id, s)) k = inr (CanJoin-planned p id s (k (id, s) refl))
assigned p false (some (id, s)) k = inr (k (id, s) refl)

assignment-JoinsIfAny :
    (p : PlanProjection) (g : WorkflowGraph) (definition : WorkflowNode) (node : String)
    → JoinsIfAny p (assignment p g definition node)
unfolding assignment
assignment-JoinsIfAny p g definition node =
    assigned p (is_repair_kind definition.kind) (repair_plan_for_dispatch p g node)
      (repair_plan_for_dispatch-CanJoin p g node)

write_attempt_ok :
    (p : PlanProjection) (n : NodeProjection) (a : NodeAttempt) (hash : String) {e : Error}
    → JoinsIfAny p (a.repair_plan_id, a.repair_state)
    → (write_attempt p n a hash).1 ≢ err e
unfolding write_attempt
write_attempt_ok p n a hash (inl free) h = ok≢err (rw (write_attempt, free) at h)
write_attempt_ok p n a hash (inr (r, found, joins)) h = elim (Option-cases (join_repair r a)) [
  | inl refuses ↦ joins a refl refuses
  | inr (r', joined) ↦ ground (arith, found, joined)
]

refused_error :
    (p : PlanProjection) (o : Option Error) (go : Finished) {e : Error}
    → (go.1 ≡ err e → go.0 ≡ p)
    → (refused p o go).1 ≡ err e
    → (refused p o go).0 ≡ p
unfolding refused
refused_error p none go k h = k h
refused_error p (some x) go k h = refl

answer_error :
    (p : PlanProjection) (c : Check) (go : Finished) {e : Error}
    → (go.1 ≡ err e → go.0 ≡ p)
    → (answer p c go).1 ≡ err e
    → (answer p c go).0 ≡ p
unfolding answer
answer_error p proceed go k h = k h
answer_error p (again a) go k h = refl
answer_error p (refuse x) go k h = refl

at_node_error :
    (p : PlanProjection) (o : Option NodeProjection) (go : NodeProjection → Finished) {e : Error}
    → ((n : NodeProjection) → (go n).1 ≡ err e → (go n).0 ≡ p)
    → (elim o as (λ _. Finished) [ none ↦ (p, err unknown_node) | some n ↦ go n ]).1 ≡ err e
    → (elim o as (λ _. Finished) [ none ↦ (p, err unknown_node) | some n ↦ go n ]).0 ≡ p
at_node_error p none go k h = refl
at_node_error p (some n) go k h = k n h

start_node_error :
    (plan : RequirementExecutionPlan) (node id : String) (given : ℤ) (lease : Lease)
    (e : ContextEnvelope) (i : TransitionInput) (now : Time) (p : PlanProjection)
    (n : NodeProjection) {x : Error}
    → (start_node plan node id given lease e i now p n).1 ≡ err x
    → (start_node plan node id given lease e i now p n).0 ≡ p
unfolding start_node new_attempt
start_node_error plan node id given lease e i now p n =
    let definition = node_definition plan.graph_snapshot node in
    let number = if ltb_ℤ given (pos 1) then add64 n.attempt_no (pos 1) else given in
    let repair = assignment p plan.graph_snapshot definition node in
    let a = new_attempt plan node id number lease e i now n.current_attempt repair in
    refused_error p (node_check p node n definition e now) _ (
      answer_error p (attempt_check plan p node n id number lease i now)
        (write_attempt p n a i.payload_hash)
        (λ h. absurd (
          write_attempt_ok p n a i.payload_hash
            (assignment-JoinsIfAny p plan.graph_snapshot definition node) h)))

-- `StartAttempt` is atomic: where it gives an error, at whatever test or in the repair step, the
-- projection is the one that it was called on.
pub start_error_keeps :
    (envelope_valid : ContextEnvelope → Bool) (clock : Time) (plan : RequirementExecutionPlan)
    (node id : String) (given : ℤ) (lease : Lease) (e : ContextEnvelope) (i : TransitionInput)
    (p : PlanProjection) {x : Error}
    → (start_attempt envelope_valid clock plan node id given lease e i p).1 ≡ err x
    → (start_attempt envelope_valid clock plan node id given lease e i p).0 ≡ p
unfolding start_attempt start_node
start_error_keeps envelope_valid clock plan node id given lease e i p =
    let now = now_or clock i.now in
    refused_error p (plan_check envelope_valid plan p e i now) _ (
      answer_error p (key_check p i) _ (
        at_node_error p (lookup node p.nodes) (start_node plan node id given lease e i now p)
          (λ n. start_node_error plan node id given lease e i now p n)))
