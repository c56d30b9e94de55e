-- ===== src/Orchestration/Start/Attempt.antt =====
-- The writes of `StartAttempt`: internal/orchestration/transition.go.
use adro.Prelude.{Bool, true, false, String, str_eq, [], Option, none, some, if◌then◌else◌}
use adro.Prelude.Int.{ℤ, pos, ltb_ℤ, add64}
use adro.Prelude.Assoc.{lookup, insert, delete}
use adro.Orchestration.Graph.{NodeKind, WorkflowNode, WorkflowGraph}
use adro.Orchestration.Projection.{
  Time, AttemptStatus, PlanStatus, RepairLifecycle, planned, dispatched, verifying, Lease,
  ContextEnvelope, NodeAttempt, NodeProjection, RepairPlan, PlanProjection,
  RequirementExecutionPlan, TransitionInput, Error, invalid_transition, unknown_node, ok, err,
  now_or,
}
use adro.Orchestration.Repair.{set_repair_state}
use adro.Orchestration.Route.{node_definition}
use adro.Orchestration.Finish.{Finished, state_text}
use adro.Orchestration.Start.Dispatch.{repair_plan_for_dispatch}
use adro.Orchestration.Start.Checks.{
  Check, proceed, again, refuse, plan_check, key_check, node_check, attempt_check,
}

unfoldable pub is_repair_kind : NodeKind → Bool
is_repair_kind NodeKind.repair = true
is_repair_kind _ = false

-- The repair plan and state of a new attempt; a repair node's own attempt is always `planned`.
unfoldable pub assignment :
    PlanProjection → WorkflowGraph → WorkflowNode → String → String × RepairLifecycle
unfolding repair_plan_for_dispatch is_repair_kind
assignment p g definition node =
    let found : String × RepairLifecycle = elim (repair_plan_for_dispatch p g node) [
      | none ↦ ("", RepairLifecycle.unset)
      | some (id, s) ↦ (id, s)
    ] in
    if is_repair_kind definition.kind then (found.0, planned) else found

-- The attempt that is started.
unfoldable pub new_attempt :
    RequirementExecutionPlan
    → String
    → String
    → ℤ
    → Lease
    → ContextEnvelope
    → TransitionInput
    → Time
    → String
    → String × RepairLifecycle
    → NodeAttempt
new_attempt plan node id given lease e i now parent repair = record {
  id = id;
  plan_id = plan.id;
  node_id = node;
  attempt_no = given;
  run_id = "";
  session_id = "";
  work_dir = "";
  lease = lease;
  idempotency_key = i.idempotency_key;
  input_manifest = e;
  output_artifacts = [];
  result = record { outcome = ""; reason_code = ""; fields = []; summary = ""; evidence_ids = [] };
  repair_state = repair.1;
  repair_plan_id = repair.0;
  status = AttemptStatus.running;
  failure_reason = none;
  parent_attempt_id = parent;
  retry_of = parent;
  child_plan_id = "";
  started_at = some now;
  finished_at = none;
}

-- The repair plan with the new attempt in it; `none` where its state may not follow.
unfoldable pub join_repair : RepairPlan → NodeAttempt → Option RepairPlan
unfolding set_repair_state
join_repair r a = elim a.repair_state [
  | dispatched ↦ set_repair_state (record r { target_attempt_id = a.id }) dispatched
  | verifying ↦
      set_repair_state
        (record r { verification_attempts = insert a.node_id a.id r.verification_attempts })
        verifying
  | _ ↦ some r
]

-- What a refused repair step leaves: the attempt and the key are deleted again, and so is the entry
-- of the verification in the map, which is shared with the stored plan.
unfoldable pub withdraw : PlanProjection → RepairPlan → NodeAttempt → PlanProjection
withdraw p r a = record p {
  attempts = delete a.id p.attempts;
  idempotency =
      if str_eq a.idempotency_key "" then p.idempotency else delete a.idempotency_key p.idempotency;
  repair_plans = elim a.repair_state [
    | verifying ↦
        insert a.repair_plan_id
          (record r { verification_attempts = delete a.node_id r.verification_attempts })
          p.repair_plans
    | _ ↦ p.repair_plans
  ];
}

-- The node, the plan and the usage after the start.
unfoldable pub occupy : PlanProjection → NodeProjection → NodeAttempt → PlanProjection
occupy p n a = record p {
  nodes =
      insert a.node_id
        (record n {
          status = AttemptStatus.running;
          current_attempt = a.id;
          attempt_no = a.attempt_no;
          retry_at = none;
          ready_edge_ids = [];
        })
        p.nodes;
  status = PlanStatus.running;
  token_usage = add64 p.token_usage a.input_manifest.token_estimate;
}

-- The plan is looked up by the ID that `repairPlanForDispatch` found among its keys.
unfoldable pub write_attempt : PlanProjection → NodeProjection → NodeAttempt → String → Finished
unfolding join_repair withdraw occupy state_text
write_attempt p n a hash =
    let q = record p {
      attempts = insert a.id a p.attempts;
      idempotency =
          if str_eq a.idempotency_key ""
          then p.idempotency
          else insert a.idempotency_key hash p.idempotency;
    } in
    if str_eq a.repair_plan_id ""
    then (occupy q n a, ok a)
    else elim (lookup a.repair_plan_id p.repair_plans) [
      | none ↦ (occupy q n a, ok a)
      | some r ↦ elim (join_repair r a) [
        | none ↦ (withdraw q r a, err invalid_transition)
        | some r' ↦ (
          occupy
              (record q {
                repair_plans =
                    insert a.repair_plan_id
                      (record r' { last_reason_code = state_text a.repair_state }) p.repair_plans;
              })
              n a,
          ok a,
        )
      ]
    ]

unfoldable pub answer : PlanProjection → Check → Finished → Finished
answer p (refuse x) go = (p, err x)
answer p (again a) go = (p, ok a)
answer p proceed go = go

unfoldable pub refused : PlanProjection → Option Error → Finished → Finished
refused p (some x) go = (p, err x)
refused p none go = go

-- The node is there: its tests, the number of the attempt, and the writes.
unfoldable pub start_node :
    RequirementExecutionPlan
    → String
    → String
    → ℤ
    → Lease
    → ContextEnvelope
    → TransitionInput
    → Time
    → PlanProjection
    → NodeProjection
    → Finished
unfolding refused answer node_check attempt_check assignment new_attempt write_attempt
    node_definition
start_node plan node id given lease e i now p n =
    let definition = node_definition plan.graph_snapshot node in
    let number = if ltb_ℤ given (pos 1) then add64 n.attempt_no (pos 1) else given in
    refused p (node_check p node n definition e now) (
      answer p (attempt_check plan p node n id number lease i now) (
        write_attempt p n
          (new_attempt plan node id number lease e i now n.current_attempt
            (assignment p plan.graph_snapshot definition node))
          i.payload_hash))

-- `StartAttempt`
unfoldable pub start_attempt :
    (ContextEnvelope → Bool)
    → Time
    → RequirementExecutionPlan
    → String
    → String
    → ℤ
    → Lease
    → ContextEnvelope
    → TransitionInput
    → PlanProjection
    → Finished
unfolding refused answer plan_check key_check start_node
start_attempt envelope_valid clock plan node id given lease e i p =
    let now = now_or clock i.now in
    refused p (plan_check envelope_valid plan p e i now) (
      answer p (key_check p i) (elim (lookup node p.nodes) [
        | none ↦ (p, err unknown_node)
        | some n ↦ start_node plan node id given lease e i now p n
      ]))
