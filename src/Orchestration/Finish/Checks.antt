-- ===== src/Orchestration/Finish/Checks.antt =====
-- The tests of `FinishAttempt` before it writes, of internal/orchestration/transition.go, and `edgeSatisfied` of scheduler.go.
use adro.Prelude.{
  ◌-◌, ◌^◌, Bool, false, ◌&&◌, ◌||◌, not, String, str_eq, List, [], ◌∷◌, Option, none, some,
  if◌then◌else◌, any, all, is_empty, ◌==◌, ltb, leb,
}
use adro.Prelude.Int.{ℤ, pos, negsuc, ltb_ℤ, is_pos, add64}
use adro.Prelude.Assoc.{values}
use adro.Prelude.Text.{is_blank, equal_fold}
use adro.Orchestration.Value.{usage_int64}
use adro.Orchestration.Predicate.{evaluate_predicate, holds, invalid}
use adro.Orchestration.Graph.{WorkflowNode, WorkflowEdge}
use adro.Orchestration.Paths.{member}
use adro.Orchestration.Projection.{
  Time, AttemptStatus, StructuredResult, NodeAttempt, PlanProjection, RequirementExecutionPlan,
  TransitionInput, same_status,
}
use adro.Orchestration.Route.{event_matches, result_fields}

-- Tokens, tool calls and cost: `resultUsage`.
pub record Usage : Type 0 where
  pub tokens : ℤ
  pub tools : ℤ
  pub cost : ℤ

unfoldable pub result_usage : StructuredResult → Usage
result_usage r = record {
  tokens = usage_int64 r.fields "tokens";
  tools = usage_int64 r.fields "tool_calls";
  cost = usage_int64 r.fields "cost_cents";
}

-- What the attempts of a node have used, and the new output with it.
unfoldable pub node_usage : String → List NodeAttempt → Usage → Usage
unfolding result_usage
node_usage id [] acc = acc
node_usage id (a ∷ as_) acc =
    let used = result_usage a.result in
    node_usage id as_ (
      if str_eq a.node_id id
      then record {
        tokens = add64 acc.tokens (add64 a.input_manifest.token_estimate used.tokens);
        tools = add64 acc.tools used.tools;
        cost = add64 acc.cost used.cost;
      }
      else acc)

-- `limit > 0 && used > limit`
unfoldable pub over : ℤ → ℤ → Bool
over limit used = is_pos limit && ltb_ℤ limit used

-- `now.Sub(start)`, at most the longest duration.
unfoldable pub elapsed : Time → Time → ℤ
elapsed start now =
    if leb start now
    then (if ltb (now - start) (2 ^ 63) then pos (now - start) else pos (2 ^ 63 - 1))
    else (if leb (start - now) (2 ^ 63) then negsuc (start - now - 1) else negsuc (2 ^ 63 - 1))

-- The budgets of the plan and of the node.
unfoldable pub budget_error :
    RequirementExecutionPlan → PlanProjection → NodeAttempt → WorkflowNode → Usage → Time → Bool
unfolding over elapsed node_usage
budget_error plan p a n out now =
    let b = plan.policy_snapshot.budget in
    let local =
      node_usage a.node_id (values p.attempts)
        (record { tokens = pos 0; tools = pos 0; cost = pos 0 }) in
    over b.tokens (add64 p.token_usage out.tokens)
    || over b.tool_calls (add64 p.tool_calls out.tools)
    || over b.cost_cents (add64 p.cost_cents out.cost)
    || over n.budget.tokens (add64 local.tokens out.tokens)
    || over n.budget.tool_calls (add64 local.tools out.tools)
    || over n.budget.cost_cents (add64 local.cost out.cost)
    || elim a.started_at [ none ↦ false | some t ↦ over n.budget.duration (elapsed t now) ]

-- The evidence that an event other than a wait must carry.
unfoldable pub evidence_missing : TransitionInput → Bool
evidence_missing i =
    not (str_eq i.event "waiting")
    && not (str_eq i.event "approval")
    && (is_empty i.result.evidence_ids || any is_blank i.result.evidence_ids)

-- The lease has run out on a running attempt, and this is no timeout.
unfoldable pub lease_expired : NodeAttempt → TransitionInput → Time → Bool
unfolding same_status
lease_expired a i now =
    same_status a.status AttemptStatus.running
    && not (a.lease.expires_at == 0)
    && leb a.lease.expires_at now
    && not (str_eq i.event "timeout")

-- The status that an event leads to.
unfoldable pub event_status : String → Option AttemptStatus
event_status e =
    if member e ("success" ∷ "passed" ∷ "pass" ∷ [])
    then some AttemptStatus.passed
    else if member e ("failure" ∷ "failed" ∷ "fail" ∷ "bug" ∷ [])
    then some AttemptStatus.failed
    else if member e ("timeout" ∷ "timed_out" ∷ [])
    then some AttemptStatus.timed_out
    else if member e ("cancel" ∷ "cancelled" ∷ [])
    then some AttemptStatus.cancelled
    else if member e ("approval" ∷ "approved" ∷ "waiting" ∷ [])
    then some AttemptStatus.waiting
    else if str_eq e "approval_granted"
    then some AttemptStatus.passed
    else if str_eq e "approval_denied"
    then some AttemptStatus.failed
    else none

of_status : AttemptStatus → String → String
of_status AttemptStatus.passed outcome = "success"
of_status AttemptStatus.failed outcome = if equal_fold outcome "bug" then "bug" else "failure"
of_status AttemptStatus.timed_out outcome = "timeout"
of_status AttemptStatus.cancelled outcome = "cancel"
of_status AttemptStatus.waiting outcome = "waiting"
of_status _ outcome = ""

-- The event that stands for an attempt's status.
unfoldable pub status_event : NodeAttempt → String
unfolding of_status
status_event a = of_status a.status a.result.outcome

-- `edgeSatisfied` of scheduler.go
unfoldable pub edge_satisfied : WorkflowEdge → NodeAttempt → Bool
unfolding status_event
edge_satisfied e a =
    event_matches e.on a.status (status_event a) a.result.outcome
    && elim (evaluate_predicate e.predicate (result_fields a.result)) [
      | invalid x ↦ false
      | holds b ↦ b
    ]
    && all (λ r. member r a.result.evidence_ids) e.required_evidence
