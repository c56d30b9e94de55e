-- ===== src/Orchestration/Finish/Carried.antt =====
-- What the repair step of a completion leaves alone: internal/orchestration/transition.go.
use adro.Prelude.{◌≡◌, refl, Bool, true, false, arith, if◌then◌else◌}
use adro.Orchestration.Graph.{WorkflowNode}
use adro.Orchestration.Projection.{
  NodeAttempt, PlanProjection, RequirementExecutionPlan, Result, ok, err, RepairPlan,
  invalid_transition,
}
use adro.Orchestration.Repair.Shell.{shell, shell-advance_repair_attempt}
use adro.Orchestration.Finish.Contract.{Prepared, repair_step, plan_repair, store_plan}

shell-store_plan :
    (p : PlanProjection) (a : NodeAttempt) (r : RepairPlan) → shell (store_plan p a r).0 ≡ shell p
unfolding store_plan shell
shell-store_plan p a r = ground arith

created_shell :
    (p : PlanProjection) (a : NodeAttempt) (refused : Bool) (m : Result RepairPlan)
    → shell
        (if refused
          then (p, err invalid_transition)
          else elim m as (λ _. Prepared) [ err e ↦ (p, err e) | ok r ↦ store_plan p a r ]).0
      ≡ shell p
created_shell p a true m = refl
created_shell p a false (err e) = refl
created_shell p a false (ok r) = shell-store_plan p a r

shell-plan_repair :
    (plan : RequirementExecutionPlan) (n : WorkflowNode) (p : PlanProjection) (a : NodeAttempt)
    → shell (plan_repair plan n p a).0 ≡ shell p
unfolding plan_repair
shell-plan_repair plan n p a = created_shell p a _ _

pub shell-repair_step :
    (plan : RequirementExecutionPlan) (n : WorkflowNode) (p : PlanProjection) (a : NodeAttempt)
    → shell (repair_step plan n p a).0 ≡ shell p
unfolding repair_step
shell-repair_step plan n p a =
    ground (arith, shell-plan_repair plan n p a, shell-advance_repair_attempt p a)
