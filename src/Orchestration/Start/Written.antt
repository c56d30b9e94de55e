-- ===== src/Orchestration/Start/Written.antt =====
-- The writes of a start that passes: `StartAttempt` of internal/orchestration/transition.go.
use adro.Prelude.{
  ◌≡◌, ◌≢◌, refl, ap, ◌∙◌, ◌⊎◌, inl, inr, Bool, true, false, [], none, some, arith, String, str_eq,
  Bool-cases, Option-cases, if◌then◌else◌, ◌<◌,
}
use adro.Prelude.Int.{ltb_ℤ, is_pos, add64}
use adro.Prelude.Assoc.{lookup, insert, lookup-insert, lookup-insert_self}
use adro.Orchestration.Projection.{
  Time, AttemptStatus, ContextEnvelope, NodeAttempt, NodeProjection, PlanProjection,
  RequirementExecutionPlan, TransitionInput, Error, ok, err,
}
use adro.Orchestration.Finish.{over, state_text}
use adro.Orchestration.Start.Checks.{
  plan_check, count_running, full, is_busy, may_start, envelope_complete,
}
use adro.Orchestration.Start.Attempt.{join_repair, occupy, write_attempt}

pub err≢ok : {x : Error} {b : NodeAttempt} → err x ≢ ok b
err≢ok h = cc

pub ok-injective : {a b : NodeAttempt} → ok a ≡ ok b → a ≡ b
ok-injective h = cc

-- A new attempt `b` of the node, from `p` to `q`.
pub record IsStarted (p q : PlanProjection) (node : String) (b : NodeAttempt) : Type 0 where
  pub fresh : lookup b.id p.attempts ≡ none
  pub attempts :
      (j : String) → lookup j q.attempts ≡ (if str_eq b.id j then some b else lookup j p.attempts)
  pub running : b.status ≡ AttemptStatus.running
  pub ready :
      (n : NodeProjection) × (lookup node p.nodes ≡ some n)
      × (may_start n.status ≡ true)
      × (is_busy p n ≡ false)
  pub current :
      (n : NodeProjection) × (lookup node q.nodes ≡ some n)
      × (n.status ≡ AttemptStatus.running)
      × (n.current_attempt ≡ b.id)
  pub usage : q.token_usage ≡ add64 p.token_usage b.input_manifest.token_estimate

-- The bounds of the plan that a start is within.
pub record IsAllowed (plan : RequirementExecutionPlan) (p : PlanProjection) (e : ContextEnvelope)
    (now : Time) : Type 0 where
  pub deadline : (plan.deadline ≡ 0) ⊎ (now < plan.deadline)
  pub tokens :
      is_pos plan.policy_snapshot.budget.tokens ≡ true
      → ltb_ℤ plan.policy_snapshot.budget.tokens (add64 p.token_usage e.token_estimate) ≡ false
  pub concurrent :
      is_pos plan.policy_snapshot.budget.concurrent ≡ true
      → ltb_ℤ (count_running (λ a. true) p) plan.policy_snapshot.budget.concurrent ≡ true
  pub envelope : envelope_complete e ≡ true

pub plan_check-IsAllowed :
    (envelope_valid : ContextEnvelope → Bool) (plan : RequirementExecutionPlan) (p : PlanProjection)
    (e : ContextEnvelope) (i : TransitionInput) (now : Time)
    → plan_check envelope_valid plan p e i now ≡ none
    → IsAllowed plan p e now
unfolding plan_check over full
plan_check-IsAllowed envelope_valid plan p e i now h = record {
  deadline = ground arith;
  tokens = ground arith;
  concurrent = ground arith;
  envelope = ground arith;
}

module _ (p : PlanProjection) (n : NodeProjection) (a : NodeAttempt)
    (found : lookup a.node_id p.nodes ≡ some n) (fresh : lookup a.id p.attempts ≡ none)
    (running : a.status ≡ AttemptStatus.running) (may : may_start n.status ≡ true)
    (idle : is_busy p n ≡ false) where
  occupy-IsStarted :
      (q : PlanProjection)
      → q.attempts ≡ insert a.id a p.attempts
      → q.token_usage ≡ p.token_usage
      → IsStarted p (occupy q n a) a.node_id a
  unfolding occupy
  occupy-IsStarted q attempts usage = record {
    fresh = fresh;
    attempts = λ j. ap (lookup j) attempts ∙ lookup-insert a.id j a p.attempts;
    running = running;
    ready = (n, found, may, idle);
    current = (
      record n {
        status = AttemptStatus.running;
        current_attempt = a.id;
        attempt_no = a.attempt_no;
        retry_at = none;
        ready_edge_ids = [];
      },
      lookup-insert_self a.node_id _ q.nodes,
      refl,
      refl,
    );
    usage = ap (λ u. add64 u a.input_manifest.token_estimate) usage;
  }

  abbrev booked : String → PlanProjection
  booked hash = record p {
    attempts = insert a.id a p.attempts;
    idempotency =
        if str_eq a.idempotency_key ""
        then p.idempotency
        else insert a.idempotency_key hash p.idempotency;
  }

  pub write_attempt-IsStarted :
      (hash : String) (b : NodeAttempt)
      → (write_attempt p n a hash).1 ≡ ok b
      → (a ≡ b) × IsStarted p (write_attempt p n a hash).0 a.node_id a
  unfolding write_attempt
  write_attempt-IsStarted hash b h = elim (Bool-cases (str_eq a.repair_plan_id "")) [
    | inl free ↦
        rw (write_attempt, free)
          (ok-injective (rw (write_attempt, free) at h), occupy-IsStarted (booked hash) refl refl)
    | inr bound ↦ elim (Option-cases (lookup a.repair_plan_id p.repair_plans)) [
      | inl lost ↦
          rw (write_attempt, bound, lost)
            (
              ok-injective (rw (write_attempt, bound, lost) at h),
              occupy-IsStarted (booked hash) refl refl,
            )
      | inr (r, stored) ↦ elim (Option-cases (join_repair r a)) [
        | inl refuses ↦ absurd (err≢ok (rw (write_attempt, bound, stored, refuses) at h))
        | inr (r', joined) ↦
            rw (write_attempt, bound, stored, joined)
              (
                ok-injective (rw (write_attempt, bound, stored, joined) at h),
                occupy-IsStarted
                    (record (booked hash) {
                      repair_plans =
                          insert a.repair_plan_id
                            (record r' { last_reason_code = state_text a.repair_state })
                            p.repair_plans;
                    })
                    refl refl,
              )
      ]
    ]
  ]
