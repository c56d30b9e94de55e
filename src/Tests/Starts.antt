-- ===== src/Tests/Starts.antt =====
-- Concrete starts of an attempt: internal/orchestration/transition.go.
use adro.Prelude.{◌≡◌, refl, true, some, [], ◌∷◌, Bool}
use adro.Prelude.Int.{pos}
use adro.Orchestration.Projection.{
  AttemptStatus, NodeAttempt, PlanProjection, TransitionInput, ContextEnvelope, Error, err,
  deadline_exceeded, RequirementExecutionPlan, Lease,
}
use adro.Orchestration.Start.{start_attempt}
use adro.Orchestration.Start.Atomic.{start_error_keeps}
use adro.Tests.Data.{plan, attempt, reviewing, input, at_node}

abbrev any_envelope : ContextEnvelope → Bool
any_envelope e = true

abbrev envelope : ContextEnvelope
envelope = (attempt "a3" "report" AttemptStatus.running).input_manifest

abbrev lease : Lease
lease = (attempt "a3" "report" AttemptStatus.running).lease

abbrev reporting : PlanProjection
reporting = record (reviewing (pos 0)) {
  nodes = ("report", at_node "report" AttemptStatus.ready "") ∷ [];
}

abbrev opening : TransitionInput
opening = record (input "a3" "") { idempotency_key = "open" }

abbrev expired : RequirementExecutionPlan
expired = record plan { deadline = 400 }

abbrev late : Error
late = deadline_exceeded

refuses :
    (start_attempt any_envelope 1 expired "report" "a3" (pos 0) lease envelope opening reporting).1
    ≡ err late
unfolding start_attempt
refuses = refl

start_error_keeps_example :
    (start_attempt any_envelope 1 expired "report" "a3" (pos 0) lease envelope opening reporting).0
    ≡ reporting
start_error_keeps_example =
    start_error_keeps any_envelope 1 expired "report" "a3" (pos 0) lease envelope opening reporting
      refuses

abbrev started : NodeAttempt
started = record (attempt "a3" "report" AttemptStatus.running) {
  idempotency_key = "open";
  attempt_no = pos 2;
  run_id = "";
  session_id = "";
  work_dir = "";
  started_at = some 500;
  result = record { outcome = ""; reason_code = ""; fields = []; summary = ""; evidence_ids = [] };
}
