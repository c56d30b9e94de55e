-- ===== src/Orchestration/Finish/Attempt.antt =====
-- `FinishAttempt` of internal/orchestration/transition.go. The parameter `payload_hash` is `transitionPayloadHash`: a hash of the JSON text of the event, the result and the failure.
use adro.Prelude.{◌&&◌, ◌||◌, not, String, str_eq, none, some, if◌then◌else◌}
use adro.Prelude.Int.{pos, eqb_ℤ}
use adro.Prelude.Assoc.{lookup}
use adro.Prelude.Text.{trim_space}
use adro.Orchestration.Projection.{
  Time, AttemptStatus, NodeAttempt, NodeProjection, PlanProjection, RequirementExecutionPlan,
  TransitionInput, Error, stale_attempt, invalid_transition, lease_lost, idempotency_conflict,
  evidence_required, budget_exceeded, ok, err, same_status, now_or,
}
use adro.Orchestration.Route.{node_definition}
use adro.Orchestration.Finish.Checks.{
  result_usage, budget_error, evidence_missing, lease_expired, event_status,
}
use adro.Orchestration.Finish.Contract.{with_result, repair_step}
use adro.Orchestration.Finish.Commit.{Finished, settle}

-- The tests between the lookup and the writes, in the code's order. `replay` is the answer to an
-- input that was handled before.
pub data Gate : Type 0 where
  pass : Gate
  replay : Gate
  reject : Error → Gate

-- The key has been used: the same payload on an ended attempt is a replay.
unfoldable pub replay_gate : PlanProjection → NodeAttempt → TransitionInput → String → String → Gate
unfolding same_status
replay_gate p a i key hash = if str_eq key "" then pass else elim (lookup key p.idempotency) [
  | none ↦ pass
  | some old ↦
      if not (str_eq old "") && not (str_eq old hash)
      then reject idempotency_conflict
      else if not (same_status a.status AttemptStatus.running)
          && (not (same_status a.status AttemptStatus.waiting) || not (str_eq i.event "waiting"))
      then replay
      else pass
]

unfoldable pub state_gate :
    RequirementExecutionPlan → PlanProjection → NodeAttempt → TransitionInput → Time → Gate
unfolding same_status lease_expired evidence_missing budget_error result_usage
state_gate plan p a i now =
    if not (same_status a.status AttemptStatus.running)
      && not (same_status a.status AttemptStatus.waiting)
    then reject invalid_transition
    else if not (eqb_ℤ i.lease_token (pos 0)) && not (eqb_ℤ a.lease.fencing_token i.lease_token)
    then reject lease_lost
    else if lease_expired a i now
    then reject lease_lost
    else if evidence_missing i
    then reject evidence_required
    else if budget_error plan p a (node_definition plan.graph_snapshot a.node_id)
        (result_usage i.result) now
    then reject budget_exceeded
    else pass

unfoldable pub finish_gate :
    RequirementExecutionPlan
    → PlanProjection
    → NodeAttempt
    → TransitionInput
    → String
    → String
    → Time
    → Gate
unfolding replay_gate state_gate
finish_gate plan p a i key hash now = elim (replay_gate p a i key hash) [
  | replay ↦ replay
  | reject e ↦ reject e
  | pass ↦ state_gate plan p a i now
]

-- The event's status and the repair step, then the writes.
unfoldable pub complete :
    Time
    → RequirementExecutionPlan
    → TransitionInput
    → String
    → String
    → String
    → NodeProjection
    → PlanProjection
    → NodeAttempt
    → Finished
unfolding event_status with_result repair_step settle
complete clock plan i id key hash n p a = elim (event_status i.event) [
  | none ↦ (p, err invalid_transition)
  | some s ↦
      let prepared =
        repair_step plan (node_definition plan.graph_snapshot a.node_id) p (with_result a i s) in
      elim prepared.1 [
        | err e ↦ (prepared.0, err e)
        | ok b ↦ settle clock plan i id key hash n prepared.0 b
      ]
]

unfoldable pub finish_current :
    (TransitionInput → String)
    → Time
    → RequirementExecutionPlan
    → String
    → TransitionInput
    → PlanProjection
    → NodeAttempt
    → NodeProjection
    → Finished
unfolding finish_gate complete
finish_current payload_hash clock plan id i p a n =
    let key = trim_space i.idempotency_key in
    let hash =
      if not (str_eq key "") && str_eq i.payload_hash "" then payload_hash i else i.payload_hash in
    elim (finish_gate plan p a i key hash (now_or clock i.now)) [
      | replay ↦ (p, ok a)
      | reject e ↦ (p, err e)
      | pass ↦ complete clock plan i id key hash n p a
    ]

-- `FinishAttempt`
unfoldable pub finish_attempt :
    (TransitionInput → String)
    → Time
    → RequirementExecutionPlan
    → String
    → TransitionInput
    → PlanProjection
    → Finished
unfolding finish_current
finish_attempt payload_hash clock plan id i p = elim (lookup id p.attempts) [
  | none ↦ (p, err stale_attempt)
  | some a ↦
      if not (eqb_ℤ i.plan_revision (pos 0)) && not (eqb_ℤ i.plan_revision p.revision)
      then (p, err stale_attempt)
      else elim (lookup a.node_id p.nodes) [
        | none ↦ (p, err stale_attempt)
        | some n ↦
            if not (str_eq n.current_attempt id)
            then (p, err stale_attempt)
            else finish_current payload_hash clock plan id i p a n
      ]
]
