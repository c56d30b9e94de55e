-- ===== src/Orchestration/Finish/Commit.antt =====
-- The writes of `FinishAttempt`, its routing and its rollback: internal/orchestration/transition.go.
use adro.Prelude.{
  Bool, ◌&&◌, ◌||◌, not, String, str_eq, List, [], ◌∷◌, none, some, if◌then◌else◌, any,
}
use adro.Prelude.Int.{add64}
use adro.Prelude.Assoc.{lookup, lookup_or, insert, delete}
use adro.Orchestration.Graph.{WorkflowNode, WorkflowEdge}
use adro.Orchestration.Projection.{
  Time, AttemptStatus, NodeAttempt, NodeProjection, zero_projection, PlanProjection,
  RequirementExecutionPlan, TransitionInput, Result, ok, err, same_status, is_setback, now_or,
}
use adro.Orchestration.Route.{route}
use adro.Orchestration.Finish.Checks.{result_usage, edge_satisfied, Usage}
use adro.Orchestration.Finish.Contract.{stamp}

-- The writes before the routing.
unfoldable pub commit_attempt :
    PlanProjection
    → String
    → String
    → String
    → NodeAttempt
    → NodeProjection
    → Usage
    → PlanProjection
commit_attempt p id key hash a n out = record p {
  attempts = insert id a p.attempts;
  nodes = insert a.node_id (record n { status = a.status }) p.nodes;
  token_usage = add64 p.token_usage out.tokens;
  tool_calls = add64 p.tool_calls out.tools;
  cost_cents = add64 p.cost_cents out.cost;
  idempotency = if str_eq key "" then p.idempotency else insert key hash p.idempotency;
}

-- A join that short-circuits is opened, unless it runs or has passed.
unfoldable pub open_join : WorkflowNode → PlanProjection → PlanProjection
unfolding same_status
open_join n p =
    let j = lookup_or zero_projection n.id p.nodes in
    if same_status j.status AttemptStatus.running || same_status j.status AttemptStatus.passed
    then p
    else record p { nodes = insert n.id (record j { status = AttemptStatus.ready }) p.nodes }

-- The loops that open short-circuit joins after a setback.
unfoldable pub short_circuit :
    List WorkflowNode → List WorkflowEdge → NodeAttempt → PlanProjection → PlanProjection
unfolding open_join edge_satisfied
short_circuit [] es a p = p
short_circuit (n ∷ ns) es a p =
    let hit =
      str_eq n.join_failure_policy "short_circuit"
      && any (λ e. str_eq e.from a.node_id && str_eq e.target n.id && edge_satisfied e a) es in
    short_circuit ns es a (if hit then open_join n p else p)

-- The completion is one that `route` is called for.
unfoldable pub is_routed : AttemptStatus → String → Bool
unfolding same_status is_setback
is_routed s event =
    same_status s AttemptStatus.passed
    || is_setback s
    || (same_status s AttemptStatus.waiting
        && not (str_eq event "waiting")
        && not (str_eq event "approval"))

-- What is put back when the routing fails. `before` is the projection after the repair step.
unfoldable pub roll_back :
    PlanProjection → PlanProjection → String → String → NodeAttempt → PlanProjection
roll_back before p id key a = record p {
  attempts = insert id (lookup_or a id before.attempts) p.attempts;
  nodes = insert a.node_id (lookup_or zero_projection a.node_id before.nodes) p.nodes;
  status = before.status;
  traversals = before.traversals;
  decisions = before.decisions;
  repair_plans = before.repair_plans;
  idempotency = if str_eq key "" then p.idempotency else elim (lookup key before.idempotency) [
    | none ↦ delete key p.idempotency
    | some h ↦ insert key h p.idempotency
  ];
}

-- The reason code of the result is kept in the attempt's repair plan.
unfoldable pub note_reason : NodeAttempt → PlanProjection → PlanProjection
note_reason a p =
    if str_eq a.repair_plan_id "" then p else elim (lookup a.repair_plan_id p.repair_plans) [
      | none ↦ p
      | some r ↦ record p {
        repair_plans =
            insert a.repair_plan_id (record r { last_reason_code = a.result.reason_code })
              p.repair_plans;
      }
    ]

abbrev pub Finished : Type 0
Finished = PlanProjection × Result NodeAttempt

-- From the prepared attempt on: the writes, the joins, the routing and the rollback.
unfoldable pub settle :
    Time
    → RequirementExecutionPlan
    → TransitionInput
    → String
    → String
    → String
    → NodeProjection
    → PlanProjection
    → NodeAttempt
    → Finished
unfolding commit_attempt short_circuit is_routed roll_back note_reason stamp result_usage
settle clock plan i id key hash n before prepared =
    let a = stamp prepared (now_or clock i.now) in
    let written = commit_attempt before id key hash a n (result_usage i.result) in
    let joined =
      if is_setback a.status
      then short_circuit plan.graph_snapshot.nodes plan.graph_snapshot.edges a written
      else written in
    let routed =
      if is_routed a.status i.event
      then route clock plan a (record i { now = now_or clock i.now }) joined
      else (joined, none) in
    elim routed.1 [
      | some e ↦ (roll_back before routed.0 id key a, err e)
      | none ↦ (note_reason a routed.0, ok a)
    ]
