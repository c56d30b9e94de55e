-- ===== src/Orchestration/Stored.antt =====
-- The validation of a projection that is stored, and the projection of a new plan: `Validate` and
-- `NewProjection` of internal/orchestration/transition.go. A test is true where the code gives no
-- error.
pub mod Fresh
use adro.Prelude.{
  ℕ, zero, suc, ◌+◌, Bool, true, false, not, ◌&&◌, ◌||◌, String, str_eq, List, [], ◌∷◌, Option,
  none, some, if◌then◌else◌, any, all, find, length, ltb, is_empty, ◌==◌, last_or,
}
use adro.Prelude.Int.{ℤ, pos, ltb_ℤ, eqb_ℤ, is_neg}
use adro.Prelude.Text.{is_blank}
use adro.Prelude.Assoc.{Assoc, lookup, lookup_or, insert}
use adro.Orchestration.Graph.{WorkflowNode, WorkflowGraph}
use adro.Orchestration.Paths.{member}
use adro.Orchestration.Projection.{
  AttemptStatus, PlanStatus, RepairLifecycle, planned, dispatched, patched, verifying, verified,
  NodeAttempt, NodeProjection, RepairPlan, PlanProjection, RequirementExecutionPlan, same_status,
  zero_projection,
}
use adro.Orchestration.Repair.{
  same_state, valid_repair_lifecycle, transition_allowed, all_repairs_verified,
}
use adro.Orchestration.Validate.{validate_graph}

unfoldable pub is_live_plan : PlanStatus → Bool
is_live_plan PlanStatus.ready = true
is_live_plan PlanStatus.running = true
is_live_plan PlanStatus.waiting = true
is_live_plan PlanStatus.terminal = true
is_live_plan _ = false

abbrev pub is_set {ℓ} : {A : Type ℓ} → Option A → Bool
is_set none = false
is_set (some _) = true

-- What the status of a stored attempt asks of its times.
unfoldable pub times_valid : NodeAttempt → Bool
times_valid a = elim a.status [
  | AttemptStatus.running ↦ not (a.lease.expires_at == 0) && is_set a.started_at
  | AttemptStatus.waiting ↦ not (is_set a.finished_at)
  | AttemptStatus.passed ↦ is_set a.finished_at
  | AttemptStatus.failed ↦ is_set a.finished_at
  | AttemptStatus.cancelled ↦ is_set a.finished_at
  | AttemptStatus.timed_out ↦ is_set a.finished_at
  | _ ↦ false
]

unfoldable pub attempt_valid : PlanProjection → String × NodeAttempt → Bool
unfolding times_valid same_state valid_repair_lifecycle
attempt_valid p (id, a) =
    str_eq a.id id
    && str_eq a.plan_id p.plan_id
    && not (str_eq a.node_id "")
    && not (ltb_ℤ a.attempt_no (pos 1))
    && not (str_eq a.input_manifest.session_id "")
    && not (str_eq a.input_manifest.manifest_digest "")
    && times_valid a
    && (same_state a.repair_state RepairLifecycle.unset || valid_repair_lifecycle a.repair_state)

-- Each ID is named, and each once.
unfoldable pub distinct_named : List String → List String → Bool
distinct_named earlier [] = true
distinct_named earlier (id ∷ ids) =
    not (is_blank id) && not (member id earlier) && distinct_named (id ∷ earlier) ids

unfoldable pub steps_allowed : RepairLifecycle → List RepairLifecycle → Bool
unfolding transition_allowed
steps_allowed from [] = true
steps_allowed from (next ∷ rest) = transition_allowed from next && steps_allowed next rest

unfoldable pub history_valid : RepairPlan → Bool
unfolding steps_allowed same_state
history_valid r = elim r.state_history [
  | [] ↦ false
  | first ∷ rest ↦
      same_state first planned
      && same_state (last_or first rest) r.state
      && steps_allowed first rest
]

-- The stored attempt is of the node and passes the test.
unfoldable pub attempt_at : PlanProjection → String → String → (AttemptStatus → Bool) → Bool
attempt_at p id node test = elim (lookup id p.attempts) [
  | none ↦ false
  | some a ↦ str_eq a.node_id node && test a.status
]

abbrev pub is_passed : AttemptStatus → Bool
is_passed status = same_status status AttemptStatus.passed

abbrev pub is_running : AttemptStatus → Bool
is_running status = same_status status AttemptStatus.running

unfoldable pub in_states : RepairLifecycle → List RepairLifecycle → Bool
unfolding same_state
in_states state states = any (same_state state) states

unfoldable pub target_valid : PlanProjection → RepairPlan → Bool
unfolding in_states attempt_at same_status
target_valid p r =
    let test : AttemptStatus → Bool = λ status.
      if in_states r.state (dispatched ∷ []) then is_running status else is_passed status in
    if in_states r.state (dispatched ∷ patched ∷ verifying ∷ verified ∷ [])
    then not (str_eq r.target_attempt_id "")
      && attempt_at p r.target_attempt_id r.target_node_id test
    else true

unfoldable pub checks_valid : PlanProjection → RepairPlan → Bool
unfolding in_states attempt_at same_status
checks_valid p r =
    let test : AttemptStatus → Bool =
      λ status. not (in_states r.state (verifying ∷ [])) || is_running status || is_passed status in
    if in_states r.state (verifying ∷ verified ∷ [])
    then not (is_empty r.verification_attempts)
      && all
          (λ e.
            member e.0 r.verification_node_ids && not (is_blank e.1) && attempt_at p e.1 e.0 test)
          r.verification_attempts
    else true

unfoldable pub verdict_valid : PlanProjection → RepairPlan → Bool
unfolding in_states attempt_at same_status lookup_or
verdict_valid p r =
    if in_states r.state (verified ∷ [])
    then not (str_eq r.target_attempt_id "")
      && not (ltb (length r.verification_attempts) (length r.verification_node_ids))
      && all
          (λ node.
            lookup_or false node r.verified_nodes
            && attempt_at p (lookup_or "" node r.verification_attempts) node is_passed)
          r.verification_node_ids
    else true

unfoldable pub repair_valid : PlanProjection → String × RepairPlan → Bool
unfolding distinct_named history_valid attempt_at target_valid checks_valid verdict_valid
    valid_repair_lifecycle same_status
repair_valid p (id, r) =
    str_eq r.id id
    && str_eq r.plan_id p.plan_id
    && not (str_eq r.repair_node_id "")
    && not (str_eq r.repair_attempt_id "")
    && not (str_eq r.target_node_id "")
    && not (is_empty r.verification_node_ids)
    && not (ltb_ℤ r.max_rounds (pos 1))
    && not (ltb_ℤ r.round (pos 1))
    && valid_repair_lifecycle r.state
    && not (ltb_ℤ r.max_rounds r.round)
    && distinct_named [] r.verification_node_ids
    && member r.repair_attempt_id r.repair_attempt_ids
    && attempt_at p r.repair_attempt_id r.repair_node_id is_passed
    && history_valid r
    && target_valid p r
    && checks_valid p r
    && verdict_valid p r

unfoldable pub is_node_status : AttemptStatus → Bool
is_node_status AttemptStatus.unset = false
is_node_status (AttemptStatus.unknown _) = false
is_node_status _ = true

unfoldable pub node_entry_valid : PlanProjection → String × NodeProjection → Bool
unfolding is_node_status attempt_at same_status
node_entry_valid p (id, n) =
    let test : AttemptStatus → Bool = λ status.
      (not (is_running n.status) || is_running status)
      && (not (same_status n.status AttemptStatus.waiting)
          || same_status status AttemptStatus.waiting) in
    str_eq n.node_id id
    && is_node_status n.status
    && (str_eq n.current_attempt "" || attempt_at p n.current_attempt id test)

-- `Validate`: the maps of a projection are never nil here.
unfoldable pub validate_projection : PlanProjection → Bool
unfolding is_live_plan attempt_valid repair_valid node_entry_valid all_repairs_verified
validate_projection p =
    let succeeded : Bool = elim p.status [
      | PlanStatus.terminal ↦ str_eq p.terminal_outcome "succeeded"
      | _ ↦ false
    ] in
    not (str_eq p.plan_id "")
    && not (ltb_ℤ p.revision (pos 1))
    && is_live_plan p.status
    && not (is_neg p.token_usage)
    && not (is_neg p.tool_calls)
    && not (is_neg p.cost_cents)
    && all (attempt_valid p) p.attempts
    && all (repair_valid p) p.repair_plans
    && not (succeeded && not (all_repairs_verified p))
    && all (node_entry_valid p) p.nodes

-- The nodes of a new plan: the entries are ready.
unfoldable pub fresh_nodes :
    List String → List WorkflowNode → Assoc NodeProjection → Assoc NodeProjection
fresh_nodes entries [] nodes = nodes
fresh_nodes entries (n ∷ ns) nodes = fresh_nodes entries ns (
    insert n.id
      (record zero_projection {
        node_id = n.id;
        status = if member n.id entries then AttemptStatus.ready else AttemptStatus.pending;
      })
      nodes)

-- The projection of a plan at which nothing has happened.
unfoldable pub fresh_projection : RequirementExecutionPlan → PlanProjection
unfolding fresh_nodes
fresh_projection plan = record {
  plan_id = plan.id;
  revision = plan.revision;
  status = plan.status;
  terminal_outcome = "";
  nodes = fresh_nodes plan.graph_snapshot.entry_node_ids plan.graph_snapshot.nodes [];
  attempts = [];
  traversals = [];
  decisions = [];
  repair_plans = [];
  idempotency = [];
  token_usage = pos 0;
  tool_calls = pos 0;
  cost_cents = pos 0;
}

-- `NewProjection`; an error is `none`.
unfoldable pub new_projection : RequirementExecutionPlan → Option PlanProjection
unfolding is_live_plan fresh_projection validate_graph
new_projection plan =
    if str_eq plan.id ""
    then none
    else if not (is_live_plan plan.status)
        || str_eq plan.plan_hash ""
        || ltb_ℤ plan.revision (pos 1)
    then none
    else if not (validate_graph plan.graph_snapshot)
    then none
    else some (fresh_projection plan)
