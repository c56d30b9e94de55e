-- ===== src/Orchestration/Route/Follow.antt =====
-- Following edges: the fan-out and the end of `route` of internal/orchestration/transition.go. A write before an error stays, so the projection stands beside the error.
use adro.Prelude.{
  Bool, true, false, String, str_eq, List, [], ◌∷◌, ◌++◌, Option, none, some, if◌then◌else◌,
}
use adro.Prelude.Int.{pos, leb_ℤ, is_pos, add64}
use adro.Prelude.Assoc.{lookup_or, insert}
use adro.Prelude.Text.{◌<>◌}
use adro.Orchestration.Graph.{WorkflowEdge}
use adro.Orchestration.Projection.{
  AttemptStatus, NodeAttempt, FeedbackDecision, zero_projection, PlanProjection,
  RequirementExecutionPlan, TransitionInput, Error, loop_exhausted, same_status,
}
use adro.Orchestration.Repair.{append_unique}

abbrev pub Routed : Type 0
Routed = PlanProjection × Option Error

-- `p.Traversals[e.ID]++` on a bounded edge, of a map that is not nil; the flag is false where the
-- limit is passed.
unfoldable pub count_traversal : PlanProjection → WorkflowEdge → PlanProjection × Bool
count_traversal p e =
    if is_pos e.max_traversals
    then (let n = add64 (lookup_or (pos 0) e.id p.traversals) (pos 1) in
        (record p { traversals = insert e.id n p.traversals }, leb_ℤ n e.max_traversals))
    else (p, true)

-- The target of a followed edge is opened, unless it runs. A fan-out also clears the retry time.
unfoldable pub open_target : Bool → PlanProjection → WorkflowEdge → PlanProjection
unfolding same_status
open_target clears p e =
    let t = lookup_or zero_projection e.target p.nodes in
    if same_status t.status AttemptStatus.running then p else record p {
      nodes =
          insert e.target
            (record t {
              status = AttemptStatus.ready;
              retry_at = if clears then none else t.retry_at;
              ready_edge_ids = append_unique t.ready_edge_ids (e.id ∷ []);
            })
            p.nodes;
    }

decision :
    String
    → String
    → PlanProjection
    → RequirementExecutionPlan
    → NodeAttempt
    → WorkflowEdge
    → FeedbackDecision
decision key reason p plan a e = record {
  id = "";
  plan_id = plan.id;
  source_attempt = a.id;
  source_node = a.node_id;
  target_node = e.target;
  edge_id = e.id;
  structured_result = a.result;
  evidence_ids = a.result.evidence_ids;
  reason = reason;
  loop_count = lookup_or (pos 0) e.id p.traversals;
  idempotency_key = key;
}

-- A decision is recorded where the input carries an idempotency key.
unfoldable pub record_decision :
    String
    → String
    → PlanProjection
    → RequirementExecutionPlan
    → NodeAttempt
    → TransitionInput
    → WorkflowEdge
    → PlanProjection
unfolding decision
record_decision key reason p plan a input e =
    if str_eq input.idempotency_key ""
    then p
    else record p { decisions = p.decisions ++ decision key reason p plan a e ∷ [] }

-- The loop over the edges of a fan-out.
unfoldable pub fan_out :
    RequirementExecutionPlan
    → NodeAttempt
    → TransitionInput
    → List WorkflowEdge
    → PlanProjection
    → Routed
unfolding count_traversal open_target record_decision
fan_out plan a input [] p = (p, none)
fan_out plan a input (e ∷ es) p =
    let counted = count_traversal p e in
    let next = fan_out plan a input es (
      record_decision (input.idempotency_key <> ":" <> e.id) "fan-out predicate matched"
        (open_target true counted.0 e) plan a input e) in
    if counted.1 then next else (counted.0, some loop_exhausted)

-- The end of `route`: one edge is followed.
unfoldable pub follow_edge :
    RequirementExecutionPlan
    → NodeAttempt
    → TransitionInput
    → PlanProjection
    → WorkflowEdge
    → Routed
unfolding count_traversal open_target record_decision
follow_edge plan a input p e =
    let counted = count_traversal p e in
    if counted.1
    then (
      record_decision input.idempotency_key "predicate matched" (open_target false counted.0 e) plan
          a input e,
      none,
    )
    else (counted.0, some loop_exhausted)
