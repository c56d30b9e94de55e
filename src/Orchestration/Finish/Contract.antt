-- ===== src/Orchestration/Finish/Contract.antt =====
-- The repair step of `FinishAttempt`, internal/orchestration/transition.go.
use adro.Prelude.{
  Bool, true, false, ◌&&◌, ◌||◌, not, String, str_eq, [], ◌∷◌, Option, none, some, if◌then◌else◌,
  is_empty,
}
use adro.Prelude.Assoc.{Assoc, insert}
use adro.Prelude.Text.{trim_space}
use adro.Orchestration.Value.{text}
use adro.Orchestration.Graph.{NodeKind, WorkflowNode}
use adro.Orchestration.Paths.{resolve_repair_target}
use adro.Orchestration.Projection.{
  Time, AttemptStatus, RepairLifecycle, planned, verified, exhausted, NodeAttempt, RepairPlan,
  PlanProjection, RequirementExecutionPlan, TransitionInput, invalid_transition, Result, ok, err,
  same_status,
}
use adro.Orchestration.Repair.{
  same_state, append_unique, verification_nodes, create_repair_plan, advance_repair_attempt,
}

-- The attempt with the result in it.
unfoldable pub with_result : NodeAttempt → TransitionInput → AttemptStatus → NodeAttempt
with_result a i status = record a {
  result = i.result;
  output_artifacts = append_unique a.output_artifacts i.output_artifacts;
  failure_reason = i.failure;
  status = status;
}

-- The attempt after its repair step, or an error; the projection may have been written to.
abbrev pub Prepared : Type 0
Prepared = PlanProjection × Result NodeAttempt

-- A contract that a second run of a repair node takes up again.
reusable : NodeAttempt → RepairPlan → Bool
unfolding same_state
reusable a r =
    str_eq r.repair_node_id a.node_id
    && not (same_state r.state verified)
    && not (same_state r.state exhausted)

-- The loop over the stored plans: the first that can be taken up again, with the new contract in it.
unfoldable pub reuse_plan : Assoc RepairPlan → NodeAttempt → RepairPlan → Option RepairPlan
unfolding reusable
reuse_plan [] a new = none
reuse_plan ((id, old) ∷ rest) a new =
    if reusable a old
    then some (record new {
      id = id;
      round = old.round;
      state = old.state;
      state_history = if is_empty old.state_history then old.state ∷ [] else old.state_history;
      repair_attempt_ids = append_unique old.repair_attempt_ids (a.id ∷ []);
    })
    else reuse_plan rest a new

-- Without one to take up, the new contract is stored, unless the attempt already had a plan.
unfoldable pub store_plan : PlanProjection → NodeAttempt → RepairPlan → Prepared
unfolding reuse_plan
store_plan p a new = elim (reuse_plan p.repair_plans a new) [
  | some r ↦ (
    record p { repair_plans = insert r.id r p.repair_plans },
    ok (record a { repair_state = planned; repair_plan_id = r.id }),
  )
  | none ↦
      if str_eq a.repair_plan_id ""
      then (
        record p { repair_plans = insert new.id new p.repair_plans },
        ok (record a { repair_state = planned; repair_plan_id = new.id }),
      )
      else (p, ok (record a { repair_state = planned }))
]

-- A passed attempt of a repair node makes a repair plan.
unfoldable pub plan_repair :
    RequirementExecutionPlan → WorkflowNode → PlanProjection → NodeAttempt → Prepared
unfolding store_plan
plan_repair plan n p a =
    let target = trim_space n.repair_policy.target_node_id in
    let resolved =
      if str_eq target "" then resolve_repair_target plan.graph_snapshot n else target in
    if str_eq resolved "" || is_empty (verification_nodes a)
    then (p, err invalid_transition)
    else elim (create_repair_plan p plan (record a { repair_state = planned })) [
      | err e ↦ (p, err e)
      | ok r ↦ store_plan p a r
    ]

is_repair : NodeKind → Bool
is_repair NodeKind.repair = true
is_repair _ = false

-- The repair step of a completion.
unfoldable pub repair_step :
    RequirementExecutionPlan → WorkflowNode → PlanProjection → NodeAttempt → Prepared
unfolding is_repair plan_repair same_status same_state
repair_step plan n p a =
    if is_repair n.kind
    then (if same_status a.status AttemptStatus.passed
        then plan_repair plan n p a
        else if same_status a.status AttemptStatus.failed
            || same_status a.status AttemptStatus.timed_out
        then (p, ok (record a { repair_state = exhausted }))
        else (p, ok a))
    else if same_state a.repair_state RepairLifecycle.unset
    then (p, ok a)
    else (let advanced = advance_repair_attempt p a in
        elim advanced.1 [
          | err e ↦ (advanced.0, err e)
          | ok s ↦ (advanced.0, ok (record a { repair_state = s }))
        ])

unfoldable pub state_text : RepairLifecycle → String
state_text planned = "planned"
state_text RepairLifecycle.dispatched = "dispatched"
state_text RepairLifecycle.patched = "patched"
state_text RepairLifecycle.verifying = "verifying"
state_text verified = "verified"
state_text RepairLifecycle.failed = "failed"
state_text exhausted = "exhausted"
state_text RepairLifecycle.unset = ""
state_text (RepairLifecycle.unknown s) = s

-- The repair state in the result's fields, and the time of the end.
unfoldable pub stamp : NodeAttempt → Time → NodeAttempt
unfolding same_state state_text same_status
stamp a now = record a {
  result = if same_state a.repair_state RepairLifecycle.unset then a.result else record a.result {
    fields = insert "repair_state" (text (state_text a.repair_state)) a.result.fields;
  };
  finished_at = if same_status a.status AttemptStatus.waiting then none else some now;
}
