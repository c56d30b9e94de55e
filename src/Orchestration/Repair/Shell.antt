-- ===== src/Orchestration/Repair/Shell.antt =====
-- What the repair functions leave alone: internal/orchestration/transition.go.
use adro.Prelude.{
  ◌≡◌, refl, inl, inr, List, arith, String, Bool-cases, Option-cases, str_eq, if◌then◌else◌,
}
use adro.Prelude.Int.{ℤ}
use adro.Prelude.Assoc.{Assoc, lookup}
use adro.Orchestration.Projection.{
  PlanStatus, NodeAttempt, FeedbackDecision, PlanProjection, RepairLifecycle, RepairPlan, ok,
}
use adro.Orchestration.Repair.Lifecycle.{set_repair_state}
use adro.Orchestration.Repair.Contract.{is_retryable_provider_failure}
use adro.Orchestration.Repair.Advance.{
  reset_repair_round, save_repair, reopen_or_exhaust, fail_round, patch_passed, verification_passed,
  advance_repair, advance_repair_attempt,
}

-- All but the nodes and the repair plans.
pub record Shell : Type 0 where
  pub plan_id : String
  pub revision : ℤ
  pub status : PlanStatus
  pub terminal_outcome : String
  pub attempts : Assoc NodeAttempt
  pub traversals : Assoc ℤ
  pub decisions : List FeedbackDecision
  pub idempotency : Assoc String
  pub token_usage : ℤ
  pub tool_calls : ℤ
  pub cost_cents : ℤ

unfoldable pub shell : PlanProjection → Shell
shell p = record {
  plan_id = p.plan_id;
  revision = p.revision;
  status = p.status;
  terminal_outcome = p.terminal_outcome;
  attempts = p.attempts;
  traversals = p.traversals;
  decisions = p.decisions;
  idempotency = p.idempotency;
  token_usage = p.token_usage;
  tool_calls = p.tool_calls;
  cost_cents = p.cost_cents;
}

shell-reopen_or_exhaust :
    (p : PlanProjection) (r : RepairPlan) → shell (reopen_or_exhaust p r).0 ≡ shell p
unfolding reopen_or_exhaust shell reset_repair_round save_repair
shell-reopen_or_exhaust p r = ground arith

shell-fail_round : (p : PlanProjection) (r : RepairPlan) → shell (fail_round p r).0 ≡ shell p
unfolding fail_round
shell-fail_round p r = elim (Option-cases (set_repair_state r RepairLifecycle.failed)) [
  | inl refused ↦ rw (fail_round, refused) refl
  | inr (r', kept) ↦ rw (fail_round, kept) (shell-reopen_or_exhaust p r')
]

shell-patch_passed :
    (p : PlanProjection) (r : RepairPlan) (a : NodeAttempt) → shell (patch_passed p r a).0 ≡ shell p
unfolding patch_passed shell save_repair
shell-patch_passed p r a = ground arith

shell-verification_passed :
    (p : PlanProjection) (r : RepairPlan) (a : NodeAttempt)
    → shell (verification_passed p r a).0 ≡ shell p
unfolding verification_passed shell save_repair
shell-verification_passed p r a = ground arith

shell-advance_repair :
    (s : RepairLifecycle) (p : PlanProjection) (r : RepairPlan) (a : NodeAttempt)
    → shell (advance_repair s p r a).0 ≡ shell p
unfolding advance_repair
shell-advance_repair RepairLifecycle.dispatched p r a =
    ground (arith, shell-fail_round p r, shell-patch_passed p r a)
shell-advance_repair RepairLifecycle.verifying p r a =
    ground (arith, shell-fail_round p r, shell-verification_passed p r a)
shell-advance_repair RepairLifecycle.planned p r a = refl
shell-advance_repair RepairLifecycle.patched p r a = refl
shell-advance_repair RepairLifecycle.verified p r a = refl
shell-advance_repair RepairLifecycle.failed p r a = refl
shell-advance_repair RepairLifecycle.exhausted p r a = refl
shell-advance_repair RepairLifecycle.unset p r a = refl
shell-advance_repair (RepairLifecycle.unknown t) p r a = refl

known_plan_shell :
    (p : PlanProjection) (r : RepairPlan) (a : NodeAttempt)
    → shell
        (if is_retryable_provider_failure a
          then (save_repair p r, ok a.repair_state)
          else advance_repair a.repair_state p r a).0
      ≡ shell p
unfolding save_repair shell
known_plan_shell p r a = ground (arith, shell-advance_repair a.repair_state p r a)

pub shell-advance_repair_attempt :
    (p : PlanProjection) (a : NodeAttempt) → shell (advance_repair_attempt p a).0 ≡ shell p
unfolding advance_repair_attempt
shell-advance_repair_attempt p a = elim (Bool-cases (str_eq a.repair_plan_id "")) [
  | inl free ↦ rw (advance_repair_attempt, free) refl
  | inr bound ↦ elim (Option-cases (lookup a.repair_plan_id p.repair_plans)) [
    | inl absent ↦ rw (advance_repair_attempt, bound, absent) refl
    | inr (r, found) ↦ rw (advance_repair_attempt, bound, found) (known_plan_shell p r a)
  ]
]
