-- ===== src/Orchestration/Start/Checks.antt =====
-- The tests of `StartAttempt` before it writes, in the code's order: internal/orchestration/transition.go.
use adro.Prelude.{
  Bool, false, true, ◌&&◌, ◌||◌, not, String, str_eq, List, [], ◌∷◌, Option, none, some,
  if◌then◌else◌, any, find, keep, length, ◌==◌, ltb, leb,
}
use adro.Prelude.Int.{ℤ, pos, ltb_ℤ, leb_ℤ, eqb_ℤ, is_pos, add64}
use adro.Prelude.Assoc.{lookup, values}
use adro.Prelude.Text.{is_blank}
use adro.Orchestration.Graph.{WorkflowNode}
use adro.Orchestration.Projection.{
  Time, AttemptStatus, PlanStatus, Lease, ContextEnvelope, NodeAttempt, NodeProjection,
  PlanProjection, RequirementExecutionPlan, TransitionInput, Error, stale_attempt,
  invalid_transition, lease_lost, idempotency_conflict, deadline_exceeded, budget_exceeded,
  retry_backoff, incomplete_envelope, invalid_envelope, node_not_ready, attempt_id_required,
  same_status,
}
use adro.Orchestration.Finish.{over}

-- Whether the start goes on, is the repetition of an earlier one, or is refused.
pub data Check : Type 0 where
  proceed : Check
  again : NodeAttempt → Check
  refuse : Error → Check

-- The running attempts that pass a test.
unfoldable pub count_running : (NodeAttempt → Bool) → PlanProjection → ℤ
unfolding same_status
count_running test p =
    pos (
      length (keep (λ a. test a && same_status a.status AttemptStatus.running) (values p.attempts)))

-- `limit > 0 && count >= limit`
unfoldable pub full : ℤ → ℤ → Bool
full limit count = is_pos limit && leb_ℤ limit count

is_startable : PlanStatus → Bool
is_startable PlanStatus.ready = true
is_startable PlanStatus.running = true
is_startable _ = false

unfoldable pub envelope_complete : ContextEnvelope → Bool
envelope_complete e = not (
    is_blank e.session_id
    || is_blank e.manifest_digest
    || is_blank e.selection_digest
    || is_blank e.replay_key
    || not (is_pos e.token_budget)
    || ltb_ℤ e.token_budget e.token_estimate)

-- The tests of the plan and the envelope.
unfoldable pub plan_check :
    (ContextEnvelope → Bool)
    → RequirementExecutionPlan
    → PlanProjection
    → ContextEnvelope
    → TransitionInput
    → Time
    → Option Error
unfolding is_startable over full count_running envelope_complete
plan_check envelope_valid plan p e i now =
    let b = plan.policy_snapshot.budget in
    if not (str_eq p.plan_id plan.id)
    then some invalid_transition
    else if not (is_startable plan.status)
    then some invalid_transition
    else if not (plan.deadline == 0) && leb plan.deadline now
    then some deadline_exceeded
    else if over b.tokens (add64 p.token_usage e.token_estimate)
    then some budget_exceeded
    else if full b.concurrent (count_running (λ a. true) p)
    then some budget_exceeded
    else if not (envelope_complete e)
    then some incomplete_envelope
    else if not (envelope_valid e)
    then some invalid_envelope
    else if not (eqb_ℤ i.plan_revision (pos 0)) && not (eqb_ℤ i.plan_revision p.revision)
    then some stale_attempt
    else none

-- The key has been used: the same payload gives the attempt that was started with it.
unfoldable pub key_check : PlanProjection → TransitionInput → Check
key_check p i =
    if str_eq i.idempotency_key "" then proceed else elim (lookup i.idempotency_key p.idempotency) [
      | none ↦ proceed
      | some h ↦
          if not (str_eq h i.payload_hash)
          then refuse idempotency_conflict
          else elim (find (λ a. str_eq a.idempotency_key i.idempotency_key) (values p.attempts)) [
            | none ↦ proceed
            | some a ↦ again a
          ]
    ]

-- The estimates of the attempts of a node, summed.
unfoldable pub estimate_of : String → List NodeAttempt → ℤ → ℤ
estimate_of node [] acc = acc
estimate_of node (a ∷ as_) acc =
    estimate_of node as_
      (if str_eq a.node_id node then add64 acc a.input_manifest.token_estimate else acc)

unfoldable pub may_start : AttemptStatus → Bool
may_start AttemptStatus.ready = true
may_start AttemptStatus.failed = true
may_start AttemptStatus.timed_out = true
may_start _ = false

-- The tests of the node.
unfoldable pub node_check :
    PlanProjection → String → NodeProjection → WorkflowNode → ContextEnvelope → Time → Option Error
unfolding over full count_running estimate_of may_start
node_check p node n definition e now =
    let used = estimate_of node (values p.attempts) (pos 0) in
    if elim n.retry_at [ none ↦ false | some t ↦ ltb now t ]
    then some retry_backoff
    else if over definition.budget.tokens (add64 used e.token_estimate)
    then some budget_exceeded
    else if over definition.context_policy.max_tokens e.token_estimate
    then some budget_exceeded
    else if full definition.budget.concurrent (count_running (λ a. str_eq a.node_id node) p)
    then some budget_exceeded
    else if not (may_start n.status)
    then some node_not_ready
    else none

-- The node's current attempt still runs.
unfoldable pub is_busy : PlanProjection → NodeProjection → Bool
unfolding same_status
is_busy p n = not (str_eq n.current_attempt "") && elim (lookup n.current_attempt p.attempts) [
  | none ↦ false
  | some a ↦ same_status a.status AttemptStatus.running
]

-- An attempt of the node has this number.
unfoldable pub number_taken : RequirementExecutionPlan → PlanProjection → String → ℤ → Bool
number_taken plan p node number =
    any (λ a. str_eq a.plan_id plan.id && str_eq a.node_id node && eqb_ℤ a.attempt_no number)
      (values p.attempts)

unfoldable pub lease_refused : Lease → TransitionInput → Time → Bool
lease_refused l i now =
    (not (eqb_ℤ i.lease_token (pos 0)) && not (eqb_ℤ l.fencing_token i.lease_token))
    || (not (l.expires_at == 0) && leb l.expires_at now)

-- The tests of the new attempt.
unfoldable pub attempt_check :
    RequirementExecutionPlan
    → PlanProjection
    → String
    → NodeProjection
    → String
    → ℤ
    → Lease
    → TransitionInput
    → Time
    → Check
unfolding is_busy number_taken lease_refused
attempt_check plan p node n id number lease i now =
    if is_busy p n
    then refuse invalid_transition
    else if is_blank id
    then refuse attempt_id_required
    else elim (lookup id p.attempts) [
      | some a ↦
          if str_eq a.idempotency_key i.idempotency_key && not (str_eq i.idempotency_key "")
          then again a
          else refuse invalid_transition
      | none ↦
          if number_taken plan p node number
          then refuse invalid_transition
          else if lease_refused lease i now
          then refuse lease_lost
          else proceed
    ]
