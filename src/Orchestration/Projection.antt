-- ===== src/Orchestration/Projection.antt =====
-- The state that the reducer of internal/orchestration/transition.go works on, with the types of
-- internal/orchestration/model.go that it holds.
use adro.Prelude.{
  ◌≡◌, refl, ◌⊎◌, inl, inr, ℕ, Bool, true, false, String, List, [], Option, none, if◌then◌else◌,
  ◌==◌, str_eq,
}
use adro.Prelude.Int.{ℤ, pos}
use adro.Prelude.Assoc.{Assoc}
use adro.Orchestration.Value.{Fields}
use adro.Orchestration.Graph.{VersionedRef, Budget, ToolPolicy, WorkflowGraph}

-- A time in nanoseconds since the zero `time.Time`; 0 is `IsZero`.
abbrev pub Time : Type 0
Time = ℕ

-- `unset` is the empty text of a zero value.
pub data AttemptStatus : Type 0 where
  pending ready running waiting passed failed cancelled timed_out unset : AttemptStatus
  unknown : String → AttemptStatus

pub data PlanStatus : Type 0 where
  draft validating ready waiting running terminal : PlanStatus
  unknown : String → PlanStatus

pub data RepairLifecycle : Type 0 where
  planned dispatched patched verifying verified failed exhausted unset : RepairLifecycle
  unknown : String → RepairLifecycle

pub record Lease : Type 0 where
  pub key : String
  pub owner : String
  pub fencing_token : ℤ
  pub expires_at : Time

pub record StructuredResult : Type 0 where
  pub outcome : String
  pub reason_code : String
  pub fields : Fields
  pub summary : String
  pub evidence_ids : List String

pub record FailureReason : Type 0 where
  pub code : String
  pub message : String
  pub retryable : Bool

-- What the reducer reads of harness.ContextEnvelope: its blocks are left out.
pub record ContextEnvelope : Type 0 where
  pub session_id : String
  pub manifest_digest : String
  pub token_budget : ℤ
  pub token_estimate : ℤ
  pub selection_digest : String
  pub replay_key : String

pub record NodeAttempt : Type 0 where
  pub id : String
  pub plan_id : String
  pub node_id : String
  pub attempt_no : ℤ
  pub run_id : String
  pub session_id : String
  pub work_dir : String
  pub lease : Lease
  pub idempotency_key : String
  pub input_manifest : ContextEnvelope
  pub output_artifacts : List String
  pub result : StructuredResult
  pub repair_state : RepairLifecycle
  pub repair_plan_id : String
  pub status : AttemptStatus
  pub failure_reason : Option FailureReason
  pub parent_attempt_id : String
  pub retry_of : String
  pub child_plan_id : String
  pub started_at : Option Time
  pub finished_at : Option Time

pub record FeedbackDecision : Type 0 where
  pub id : String
  pub plan_id : String
  pub source_attempt : String
  pub source_node : String
  pub target_node : String
  pub edge_id : String
  pub structured_result : StructuredResult
  pub evidence_ids : List String
  pub reason : String
  pub loop_count : ℤ
  pub idempotency_key : String

pub record RepairPlan : Type 0 where
  pub id : String
  pub plan_id : String
  pub repair_node_id : String
  pub repair_attempt_id : String
  pub repair_attempt_ids : List String
  pub target_node_id : String
  pub verification_node_ids : List String
  pub source_attempt_ids : List String
  pub scope : List String
  pub max_rounds : ℤ
  pub round : ℤ
  pub state : RepairLifecycle
  pub state_history : List RepairLifecycle
  pub target_attempt_id : String
  pub verification_attempts : Assoc String
  pub verified_nodes : Assoc Bool
  pub patch_artifact_ids : List String
  pub verification_artifact_ids : List String
  pub last_reason_code : String

pub record NodeProjection : Type 0 where
  pub node_id : String
  pub status : AttemptStatus
  pub current_attempt : String
  pub attempt_no : ℤ
  pub retry_at : Option Time
  pub retry_count : ℤ
  pub ready_edge_ids : List String

-- `NodeProjection{}`
abbrev pub zero_projection : NodeProjection
zero_projection = record {
  node_id = "";
  status = AttemptStatus.unset;
  current_attempt = "";
  attempt_no = pos 0;
  retry_at = none;
  retry_count = pos 0;
  ready_edge_ids = [];
}

pub record PlanProjection : Type 0 where
  pub plan_id : String
  pub revision : ℤ
  pub status : PlanStatus
  pub terminal_outcome : String
  pub nodes : Assoc NodeProjection
  pub attempts : Assoc NodeAttempt
  pub traversals : Assoc ℤ
  pub decisions : List FeedbackDecision
  pub repair_plans : Assoc RepairPlan
  pub idempotency : Assoc String
  pub token_usage : ℤ
  pub tool_calls : ℤ
  pub cost_cents : ℤ

pub record PolicySnapshot : Type 0 where
  pub digest : String
  pub tool_policy : ToolPolicy
  pub budget : Budget
  pub captured_at : Time

pub record ContextRef : Type 0 where
  pub session_id : String
  pub manifest_digest : String
  pub replay_key : String

pub record RequirementExecutionPlan : Type 0 where
  pub id : String
  pub requirement_id : String
  pub workspace_id : String
  pub graph_snapshot : WorkflowGraph
  pub selected_ref : VersionedRef
  pub policy_snapshot : PolicySnapshot
  pub context_root : ContextRef
  pub plan_hash : String
  pub status : PlanStatus
  pub revision : ℤ
  pub idempotency_key : String
  pub deadline : Time
  pub created_at : Time
  pub parent_plan_id : String
  pub parent_attempt_id : String

pub record TransitionInput : Type 0 where
  pub plan_revision : ℤ
  pub attempt_id : String
  pub lease_token : ℤ
  pub event : String
  pub result : StructuredResult
  pub failure : Option FailureReason
  pub output_artifacts : List String
  pub idempotency_key : String
  pub payload_hash : String
  pub now : Time

pub data Error : Type 0 where
  stale_attempt invalid_transition ambiguous_transition loop_exhausted lease_lost : Error
  idempotency_conflict evidence_required deadline_exceeded budget_exceeded : Error
  retry_backoff edge_evidence_missing predicate_invalid unknown_node owner_required : Error
  incomplete_envelope invalid_envelope node_not_ready attempt_id_required : Error

pub data Result {ℓ} (A : Type ℓ) : Type ℓ where
  ok : A → Result A
  err : Error → Result A

pub Result-cases {ℓ} :
    {A : Type ℓ} (r : Result A) → ((a : A) × (r ≡ ok a)) ⊎ ((e : Error) × (r ≡ err e))
Result-cases (ok a) = inl (a, refl)
Result-cases (err e) = inr (e, refl)

-- `a == b` on attempt statuses
unfoldable pub same_status : AttemptStatus → AttemptStatus → Bool
same_status AttemptStatus.pending AttemptStatus.pending = true
same_status AttemptStatus.ready AttemptStatus.ready = true
same_status AttemptStatus.running AttemptStatus.running = true
same_status AttemptStatus.waiting AttemptStatus.waiting = true
same_status AttemptStatus.passed AttemptStatus.passed = true
same_status AttemptStatus.failed AttemptStatus.failed = true
same_status AttemptStatus.cancelled AttemptStatus.cancelled = true
same_status AttemptStatus.timed_out AttemptStatus.timed_out = true
same_status AttemptStatus.unset AttemptStatus.unset = true
same_status (AttemptStatus.unknown s) (AttemptStatus.unknown t) = str_eq s t
same_status _ _ = false

-- Failed, timed out or cancelled.
unfoldable pub is_setback : AttemptStatus → Bool
is_setback AttemptStatus.failed = true
is_setback AttemptStatus.timed_out = true
is_setback AttemptStatus.cancelled = true
is_setback _ = false

-- `now`, or the clock's reading where `now` is the zero time
abbrev pub now_or : Time → Time → Time
now_or clock now = if now == 0 then clock else now
