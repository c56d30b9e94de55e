-- ===== src/Orchestration/Finish/Guards.antt =====
-- What a completion has passed: the tests of `FinishAttempt`, internal/orchestration/transition.go.
use adro.Prelude.{
  ◌≡◌, ◌≢◌, refl, ◌⊎◌, inl, inr, Bool, true, false, not, ◌&&◌, some, arith, String, str_eq,
  Bool-cases, Option-cases, eq_iff, any, is_empty, ◌<◌,
}
use adro.Prelude.Int.{ℤ, pos, eqb_ℤ, ltb_ℤ, is_pos, add64}
use adro.Prelude.Assoc.{lookup}
use adro.Prelude.Text.{is_blank}
use adro.Orchestration.Value.{usage_int64}
use adro.Orchestration.Graph.{WorkflowNode}
use adro.Orchestration.Projection.{
  Time, AttemptStatus, NodeAttempt, NodeProjection, PlanProjection, RequirementExecutionPlan,
  TransitionInput, ok, err, Error, now_or, same_status,
}
use adro.Orchestration.Finish.Checks.{
  evidence_missing, lease_expired, budget_error, result_usage, over, Usage,
}
use adro.Orchestration.Finish.Commit.{Finished}
use adro.Orchestration.Finish.Attempt.{
  Gate, pass, replay, reject, replay_gate, state_gate, finish_gate, finish_current, finish_attempt,
}
use adro.Orchestration.Route.{node_definition}

-- What `FinishAttempt` asks of an open attempt before it writes.
pub record IsAdmitted (plan : RequirementExecutionPlan) (p : PlanProjection) (a : NodeAttempt)
    (i : TransitionInput) (now : Time) : Type 0 where
  pub token : (i.lease_token ≡ pos 0) ⊎ (a.lease.fencing_token ≡ i.lease_token)
  pub lease :
      (a.status ≡ AttemptStatus.waiting)
      ⊎ ((a.lease.expires_at ≡ 0) ⊎ ((now < a.lease.expires_at) ⊎ (i.event ≡ "timeout")))
  pub evidence :
      (i.event ≡ "waiting")
      ⊎ ((i.event ≡ "approval")
          ⊎ ((is_empty i.result.evidence_ids ≡ false)
              × (any is_blank i.result.evidence_ids ≡ false)))
  pub tokens :
      is_pos plan.policy_snapshot.budget.tokens ≡ true
      → ltb_ℤ plan.policy_snapshot.budget.tokens
          (add64 p.token_usage (usage_int64 i.result.fields "tokens"))
        ≡ false

eqb_ℤ_eq : (x y : ℤ) → eqb_ℤ x y ≡ true → x ≡ y
eqb_ℤ_eq x y h = ground arith

over_all :
    (plan : RequirementExecutionPlan) (p : PlanProjection) (a : NodeAttempt) (n : WorkflowNode)
    (out : Usage) (now : Time)
    → budget_error plan p a n out now ≡ false
    → over plan.policy_snapshot.budget.tokens (add64 p.token_usage out.tokens) ≡ false
unfolding budget_error
over_all plan p a n out now h = ground arith

token_budget :
    (plan : RequirementExecutionPlan) (p : PlanProjection) (a : NodeAttempt) (i : TransitionInput)
    (now : Time)
    → state_gate plan p a i now ≡ pass
    → is_pos plan.policy_snapshot.budget.tokens ≡ true
    → ltb_ℤ plan.policy_snapshot.budget.tokens
        (add64 p.token_usage (usage_int64 i.result.fields "tokens"))
      ≡ false
unfolding state_gate over result_usage
token_budget plan p a i now h positive =
    let node = node_definition plan.graph_snapshot a.node_id in
    let fits : budget_error plan p a node (result_usage i.result) now ≡ false = ground arith in
    ground (arith, over_all plan p a node (result_usage i.result) now fits)

state_gate-IsAdmitted :
    (plan : RequirementExecutionPlan) (p : PlanProjection) (a : NodeAttempt) (i : TransitionInput)
    (now : Time)
    → state_gate plan p a i now ≡ pass
    → IsAdmitted plan p a i now
unfolding state_gate lease_expired evidence_missing same_status
state_gate-IsAdmitted plan p a i now h = record {
  token =
      ground (arith, eqb_ℤ_eq i.lease_token (pos 0), eqb_ℤ_eq a.lease.fencing_token i.lease_token);
  lease = ground (arith, eq_iff i.event "timeout");
  evidence = ground (arith, eq_iff i.event "waiting", eq_iff i.event "approval");
  tokens = token_budget plan p a i now h;
}

running_not_replayed :
    (p : PlanProjection) (a : NodeAttempt) (i : TransitionInput) (key hash : String)
    → a.status ≡ AttemptStatus.running
    → replay_gate p a i key hash ≢ replay
unfolding replay_gate same_status
running_not_replayed p a i key hash r h = ground arith

then_pass :
    (g s : Gate)
    → g ≢ replay
    → (elim g as (λ _. Gate) [ replay ↦ replay | reject e ↦ reject e | pass ↦ s ]) ≡ pass
    → s ≡ pass
then_pass replay s k h = absurd (k refl)
then_pass (reject e) s k h = cc
then_pass pass s k h = h

not_replay :
    (g s : Gate)
    → g ≢ replay
    → s ≢ replay
    → (elim g as (λ _. Gate) [ replay ↦ replay | reject e ↦ reject e | pass ↦ s ]) ≢ replay
not_replay replay s k m h = k refl
not_replay (reject e) s k m h = cc
not_replay pass s k m h = m h

state_not_replay :
    (plan : RequirementExecutionPlan) (p : PlanProjection) (a : NodeAttempt) (i : TransitionInput)
    (now : Time)
    → state_gate plan p a i now ≢ replay
unfolding state_gate
state_not_replay plan p a i now h = ground arith

finish_gate_pass :
    (plan : RequirementExecutionPlan) (p : PlanProjection) (a : NodeAttempt) (i : TransitionInput)
    (key hash : String) (now : Time)
    → a.status ≡ AttemptStatus.running
    → (finish_gate plan p a i key hash now ≡ pass → IsAdmitted plan p a i now)
      × (finish_gate plan p a i key hash now ≢ replay)
unfolding finish_gate
finish_gate_pass plan p a i key hash now r =
    let k = running_not_replayed p a i key hash r in
    (
      (λ h. state_gate-IsAdmitted plan p a i now (then_pass _ _ k h)),
      not_replay _ _ k (state_not_replay plan p a i now),
    )

gate_passes :
    (p : PlanProjection) (a b : NodeAttempt) (g : Gate) (c : Finished)
    → g ≢ replay
    → (elim g as (λ _. Finished) [ replay ↦ (p, ok a) | reject x ↦ (p, err x) | pass ↦ c ]).1 ≡ ok b
    → g ≡ pass
gate_passes p a b replay c k f = absurd (k refl)
gate_passes p a b (reject x) c k f = cc
gate_passes p a b pass c k f = refl

finish_current-IsAdmitted :
    (payload_hash : TransitionInput → String) (clock : Time) (plan : RequirementExecutionPlan)
    (id : String) (i : TransitionInput) (p : PlanProjection) (a b : NodeAttempt)
    (n : NodeProjection)
    → a.status ≡ AttemptStatus.running
    → (finish_current payload_hash clock plan id i p a n).1 ≡ ok b
    → IsAdmitted plan p a i (now_or clock i.now)
unfolding finish_current
finish_current-IsAdmitted payload_hash clock plan id i p a b n r f =
    let g = finish_gate_pass plan p a i _ _ (now_or clock i.now) r in
    g.0 (gate_passes p a b _ _ g.1 f)

err≢ok : {e : Error} {b : NodeAttempt} → (err e ≢ ok b)
err≢ok h = cc

abbrev is_stale : TransitionInput → PlanProjection → Bool
is_stale i p = not (eqb_ℤ i.plan_revision (pos 0)) && not (eqb_ℤ i.plan_revision p.revision)

-- The input is for the present revision or for any, and the attempt is its node's current one.
pub record IsCurrent (i : TransitionInput) (p : PlanProjection) (a : NodeAttempt) (id : String)
    : Type 0 where
  pub revision : (i.plan_revision ≡ pos 0) ⊎ (i.plan_revision ≡ p.revision)
  pub node : (n : NodeProjection) × (lookup a.node_id p.nodes ≡ some n) × (n.current_attempt ≡ id)

-- A completion of a running attempt that succeeds was of its node's current attempt and of the
-- present revision or of none; its lease token was 0 or the lease's; the lease had no end, had not
-- ended, or the event was "timeout"; the evidence was there, none of it blank, unless the event was
-- "waiting" or "approval"; and the plan's token budget, where it is above 0, holds the usage with it.
pub finish_is_guarded :
    (payload_hash : TransitionInput → String) (clock : Time) (plan : RequirementExecutionPlan)
    (id : String) (i : TransitionInput) (p : PlanProjection) (a b : NodeAttempt)
    → lookup id p.attempts ≡ some a
    → a.status ≡ AttemptStatus.running
    → (finish_attempt payload_hash clock plan id i p).1 ≡ ok b
    → IsAdmitted plan p a i (now_or clock i.now) × IsCurrent i p a id
unfolding finish_attempt
finish_is_guarded payload_hash clock plan id i p a b found r f = elim (Bool-cases (is_stale i p)) [
  | inl stale ↦ absurd (err≢ok (rw (finish_attempt, found, stale) at f))
  | inr fresh ↦ elim (Option-cases (lookup a.node_id p.nodes)) [
    | inl lost ↦ absurd (err≢ok (rw (finish_attempt, found, fresh, lost) at f))
    | inr (n, known) ↦ elim (Bool-cases (not (str_eq n.current_attempt id))) [
      | inl other ↦ absurd (err≢ok (rw (finish_attempt, found, fresh, known, other) at f))
      | inr current ↦ (
        finish_current-IsAdmitted payload_hash clock plan id i p a b n r
            (rw (finish_attempt, found, fresh, known, current) at f),
        record {
          revision =
              ground (arith, eqb_ℤ_eq i.plan_revision (pos 0), eqb_ℤ_eq i.plan_revision p.revision);
          node = (n, known, ground (arith, eq_iff n.current_attempt id));
        },
      )
    ]
  ]
]
