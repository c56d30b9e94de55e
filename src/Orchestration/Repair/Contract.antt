-- ===== src/Orchestration/Repair/Contract.antt =====
-- What a repair plan is made from and when it may be dispatched: internal/orchestration/transition.go.
use adro.Prelude.{
  Bool, false, ◌&&◌, ◌||◌, not, String, str_eq, List, [], ◌∷◌, none, some, if◌then◌else◌, any, all,
  is_empty,
}
use adro.Prelude.Int.{pos, ltb_ℤ}
use adro.Prelude.Assoc.{lookup, has_key}
use adro.Prelude.Text.{trim_space, ◌<>◌}
use adro.Orchestration.Value.{text_value, text_list, string_slice_value, int_value}
use adro.Orchestration.Graph.{EdgeEvent, WorkflowEdge, WorkflowGraph}
use adro.Orchestration.Paths.{member, repair_path_exists, same_event}
use adro.Orchestration.Projection.{
  AttemptStatus, planned, NodeAttempt, RepairPlan, NodeProjection, PlanProjection,
  RequirementExecutionPlan, invalid_transition, Result, ok, err, same_status,
}

abbrev provider_codes : List String
provider_codes =
    "provider_failed" ∷ "provider_timeout" ∷ "provider_result_missing"
    ∷ "provider_tool_evidence_missing" ∷ "upstream_error" ∷ "timeout" ∷ "lease_expired" ∷ []

-- `isRetryableRepairProviderFailure`
unfoldable pub is_retryable_provider_failure : NodeAttempt → Bool
unfolding same_status
is_retryable_provider_failure a =
    (same_status a.status AttemptStatus.failed || same_status a.status AttemptStatus.timed_out)
    && elim a.failure_reason [ none ↦ false | some f ↦ f.retryable && member f.code provider_codes ]

-- `retryableRepairProviderAttempt`
unfoldable pub retryable_provider_attempt : PlanProjection → String → Bool
unfolding is_retryable_provider_failure
retryable_provider_attempt p id =
    not (str_eq id "")
    && elim (lookup id p.attempts) [ none ↦ false | some a ↦ is_retryable_provider_failure a ]

-- The marker of a target that a new round reopens.
abbrev pub target_marker : String → String
target_marker id = "repair:" <> id <> ":target"

-- The edge is a success edge into the node, and one of those that opened it.
abbrev opened_by : NodeProjection → String → WorkflowEdge → Bool
opened_by n node_id e =
    member e.id n.ready_edge_ids && str_eq e.target node_id && same_event e.on EdgeEvent.success

-- `repairReadyFrom`
unfoldable pub repair_ready_from :
    PlanProjection → WorkflowGraph → String → String → String → Bool → Bool
unfolding same_event
repair_ready_from p g node_id from repair_id verification = elim (lookup node_id p.nodes) [
  | none ↦ false
  | some n ↦
      (not verification && member (target_marker repair_id) n.ready_edge_ids)
      || any (λ e. opened_by n node_id e && str_eq e.from from) g.edges
      || (verification
          && any (λ e. opened_by n node_id e && repair_path_exists g from e.from EdgeEvent.success)
              g.edges)
]

-- `repairVerificationNodes`
unfoldable pub verification_nodes : NodeAttempt → List String
verification_nodes a = text_list (lookup "verification_node_ids" a.result.fields)

-- `createRepairPlan`
unfoldable pub create_repair_plan :
    PlanProjection → RequirementExecutionPlan → NodeAttempt → Result RepairPlan
unfolding verification_nodes
create_repair_plan p plan a =
    let target = trim_space (text_value (lookup "target_node_id" a.result.fields)) in
    let verification = verification_nodes a in
    let rounds = int_value (lookup "max_rounds" a.result.fields) in
    if str_eq target "" || is_empty verification || ltb_ℤ rounds (pos 1)
    then err invalid_transition
    else if not (has_key target p.nodes)
    then err invalid_transition
    else if not (all (λ v. has_key v p.nodes) verification)
    then err invalid_transition
    else if not (repair_path_exists plan.graph_snapshot a.node_id target EdgeEvent.success)
    then err invalid_transition
    else if not
        (all (λ v. repair_path_exists plan.graph_snapshot target v EdgeEvent.success) verification)
    then err invalid_transition
    else ok (record {
      id = plan.id <> ":repair:" <> a.id;
      plan_id = plan.id;
      repair_node_id = a.node_id;
      repair_attempt_id = a.id;
      repair_attempt_ids = a.id ∷ [];
      target_node_id = target;
      verification_node_ids = verification;
      source_attempt_ids = string_slice_value (lookup "source_attempt_ids" a.result.fields);
      scope = string_slice_value (lookup "scope" a.result.fields);
      max_rounds = rounds;
      round = pos 1;
      state = planned;
      state_history = planned ∷ [];
      target_attempt_id = "";
      verification_attempts = [];
      verified_nodes = [];
      patch_artifact_ids = [];
      verification_artifact_ids = [];
      last_reason_code = "";
    })
