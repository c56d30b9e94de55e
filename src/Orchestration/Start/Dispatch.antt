-- ===== src/Orchestration/Start/Dispatch.antt =====
-- Which repair plan an attempt works for: `repairPlanForDispatch` of internal/orchestration/transition.go.
use adro.Prelude.{
  Bool, true, false, ◌&&◌, ◌||◌, not, String, str_eq, List, [], ◌∷◌, Option, none, some,
  if◌then◌else◌,
}
use adro.Prelude.Assoc.{lookup, lookup_or, keys}
use adro.Prelude.Text.{sort_texts}
use adro.Orchestration.Graph.{WorkflowGraph}
use adro.Orchestration.Paths.{member}
use adro.Orchestration.Projection.{
  RepairLifecycle, planned, dispatched, patched, verifying, RepairPlan, PlanProjection,
}
use adro.Orchestration.Repair.{same_state, retryable_provider_attempt, repair_ready_from}

-- The target of a plan is to be dispatched: for the first time, or after the provider failed.
unfoldable pub targets : PlanProjection → WorkflowGraph → String → RepairPlan → Bool
unfolding same_state retryable_provider_attempt repair_ready_from
targets p g node r =
    let again =
      str_eq r.target_node_id node
      && same_state r.state dispatched
      && retryable_provider_attempt p r.target_attempt_id in
    str_eq r.target_node_id node
    && ((same_state r.state planned && str_eq r.target_attempt_id "") || again)
    && (again || repair_ready_from p g node r.repair_node_id r.id false)

-- A verification of a plan is to be dispatched.
unfoldable pub verifies : PlanProjection → WorkflowGraph → String → RepairPlan → Bool
unfolding same_state retryable_provider_attempt repair_ready_from
verifies p g node r =
    let attempt = lookup_or "" node r.verification_attempts in
    let declared =
      member node r.verification_node_ids
      && (same_state r.state patched || same_state r.state verifying)
      && not (str_eq r.target_attempt_id "") in
    let again = declared && retryable_provider_attempt p attempt in
    (declared
      && repair_ready_from p g node r.target_node_id r.id true
      && (str_eq attempt "" || again))
    || again

-- The loop over the sorted IDs.
unfoldable pub first_dispatch :
    PlanProjection → WorkflowGraph → String → List String → Option (String × RepairLifecycle)
unfolding targets verifies
first_dispatch p g node [] = none
first_dispatch p g node (id ∷ ids) =
    let rest = first_dispatch p g node ids in
    elim (lookup id p.repair_plans) [
      | none ↦ rest
      | some r ↦
          if targets p g node r
          then some (id, dispatched)
          else if verifies p g node r
          then some (id, verifying)
          else rest
    ]

-- `repairPlanForDispatch`
unfoldable pub repair_plan_for_dispatch :
    PlanProjection → WorkflowGraph → String → Option (String × RepairLifecycle)
unfolding first_dispatch sort_texts
repair_plan_for_dispatch p g node = first_dispatch p g node (sort_texts (keys p.repair_plans))
