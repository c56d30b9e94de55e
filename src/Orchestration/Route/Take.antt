-- ===== src/Orchestration/Route/Take.antt =====
-- `route` of internal/orchestration/transition.go: retries, exits and the choice among the edges that match.
use adro.Prelude.{
  ℕ, zero, suc, ◌+◌, ◌-◌, ◌*◌, Bool, false, ◌&&◌, ◌||◌, not, String, str_eq, List, [], ◌∷◌, none,
  some, if◌then◌else◌, all, is_empty, length, keep, find, ltb,
}
use adro.Prelude.Int.{ℤ, pos, ltb_ℤ, eqb_ℤ, is_pos, add64, pos_part, neg_part}
use adro.Prelude.Assoc.{lookup_or, insert}
use adro.Orchestration.Graph.{WorkflowNode, WorkflowEdge, WorkflowGraph, zero_node}
use adro.Orchestration.Paths.{member}
use adro.Orchestration.Projection.{
  Time, AttemptStatus, PlanStatus, NodeAttempt, zero_projection, PlanProjection,
  RequirementExecutionPlan, TransitionInput, ambiguous_transition, evidence_required, same_status,
  now_or,
}
use adro.Orchestration.Repair.{all_repairs_verified, repair_verification_pending}
use adro.Orchestration.Route.Match.{retry_allowed, match_edges, best_edge, edges, fails}
use adro.Orchestration.Route.Follow.{Routed, fan_out, follow_edge}

-- The node's definition in the frozen graph; `WorkflowNode{}` where it has none.
unfoldable pub node_definition : WorkflowGraph → String → WorkflowNode
node_definition g id = elim (find (λ n. str_eq n.id id) g.nodes) [ none ↦ zero_node | some n ↦ n ]

abbrev pub hours : ℕ → ℤ
hours n = pos (n * 3600000000000)

-- The loop that doubles the backoff: one round for each earlier retry, up to a day.
backoff_loop : ℕ → ℤ → ℤ
backoff_loop zero d = d
backoff_loop (suc rounds) d =
    let more = backoff_loop rounds (add64 d d) in
    if not (is_pos d && ltb_ℤ d (hours 24))
    then d
    else if ltb_ℤ (hours 12) d
    then hours 24
    else more

-- The backoff before retry number `count`.
unfoldable pub retry_backoff_of : ℤ → ℤ → ℤ
unfolding backoff_loop
retry_backoff_of base count = backoff_loop (pos_part count - 1) base

-- `now.Add(d)`
unfoldable pub add_time : Time → ℤ → Time
add_time t d = t + pos_part d - neg_part d

-- A retry of the node is scheduled.
unfoldable pub schedule_retry : PlanProjection → WorkflowNode → NodeAttempt → Time → PlanProjection
unfolding retry_backoff_of add_time
schedule_retry p n a now =
    let s = lookup_or zero_projection a.node_id p.nodes in
    let count = add64 s.retry_count (pos 1) in
    record p {
      nodes =
          insert a.node_id
            (record s {
              retry_count = count;
              retry_at = some (add_time now (retry_backoff_of n.retry_policy.backoff count));
              status = AttemptStatus.ready;
            })
            p.nodes;
      status = PlanStatus.running;
    }

-- The retry policy leaves the attempt another try.
unfoldable pub has_retry : WorkflowNode → NodeAttempt → TransitionInput → Bool
unfolding same_status retry_allowed
has_retry n a input =
    (same_status a.status AttemptStatus.failed || same_status a.status AttemptStatus.timed_out)
    && retry_allowed n a input
    && ltb_ℤ a.attempt_no n.retry_policy.max_attempts
    && ltb_ℤ (pos 1) n.retry_policy.max_attempts

unfoldable pub finish_plan : PlanProjection → String → PlanProjection
finish_plan p outcome = record p { status = PlanStatus.terminal; terminal_outcome = outcome }

unfoldable pub exit_outcome : AttemptStatus → String
exit_outcome AttemptStatus.passed = "succeeded"
exit_outcome AttemptStatus.cancelled = "cancelled"
exit_outcome AttemptStatus.timed_out = "timed_out"
exit_outcome _ = "failed"

-- An exit node with no edge to follow.
unfoldable pub leave_graph : PlanProjection → NodeAttempt → Routed
unfolding same_status finish_plan exit_outcome
leave_graph p a =
    if is_empty a.result.evidence_ids
    then (p, some evidence_required)
    else if all_repairs_verified p
    then (finish_plan p (exit_outcome a.status), none)
    else if same_status a.status AttemptStatus.passed && repair_verification_pending p
    then (record p { status = PlanStatus.running }, none)
    else (finish_plan p "failed", none)

-- A node that is no exit, with no edge to follow: a setback ends the plan.
unfoldable pub strand : AttemptStatus → PlanProjection → PlanProjection
unfolding finish_plan
strand AttemptStatus.timed_out p = finish_plan p "timed_out"
strand AttemptStatus.cancelled p = finish_plan p "cancelled"
strand AttemptStatus.failed p = finish_plan p "failed"
strand _ p = p

-- No edge matches.
unfoldable pub no_edge :
    RequirementExecutionPlan → NodeAttempt → TransitionInput → Time → PlanProjection → Routed
unfolding node_definition has_retry schedule_retry leave_graph strand
no_edge plan a input now p =
    let n = node_definition plan.graph_snapshot a.node_id in
    if has_retry n a input
    then (schedule_retry p n a now, none)
    else if member a.node_id plan.graph_snapshot.exit_node_ids
    then leave_graph p a
    else (strand a.status p, none)

-- What follows from the edges that match.
unfoldable pub take_edges :
    RequirementExecutionPlan
    → NodeAttempt
    → TransitionInput
    → Time
    → PlanProjection
    → List WorkflowEdge
    → Routed
unfolding no_edge follow_edge fan_out best_edge
take_edges plan a input now p [] = no_edge plan a input now p
take_edges plan a input now p (e ∷ []) = follow_edge plan a input p e
take_edges plan a input now p (e ∷ f ∷ es) =
    let many = e ∷ f ∷ es in
    let best = best_edge e (f ∷ es) in
    if all (λ x. x.fan_out) many
    then fan_out plan a input many p
    else if ltb 1 (length (keep (λ x. eqb_ℤ x.priority best.priority) many))
    then (p, some ambiguous_transition)
    else follow_edge plan a input p best

-- The attempt was timed out by the plan's deadline.
unfoldable pub past_deadline : NodeAttempt → Bool
unfolding same_status
past_deadline a =
    same_status a.status AttemptStatus.timed_out
    && elim a.failure_reason [ none ↦ false | some f ↦ str_eq f.code "plan_deadline_exceeded" ]

-- `route`; `clock` is what `time.Now` reads.
unfoldable pub route :
    Time → RequirementExecutionPlan → NodeAttempt → TransitionInput → PlanProjection → Routed
unfolding past_deadline finish_plan match_edges take_edges
route clock plan a input p =
    if past_deadline a
    then (finish_plan p "timed_out", none)
    else elim (match_edges plan.graph_snapshot.edges a input.event) [
      | fails x ↦ (p, some x)
      | edges es ↦ take_edges plan a input (now_or clock input.now) p es
    ]
