-- ===== src/Workflow.antt =====
-- The quality gates: internal/workflow/workflow.go.
pub mod Laws
use mathlib.Core.Bool.{Bool, true, false, ◌&&◌, not}
use Prim.Native.String.{String}
use text.Mathlib.Text.{◌==◌ as str_eq}
use adro.Prelude.{if◌then◌else◌}
use adro.Prelude.Int.{ℤ, pos, ltb_ℤ, leb_ℤ}
use adro.Domain.Requirement.{
  RequirementStatus, transition, design_review, design_rework, developing, unit_verified,
  test_failed, api_doc_ready, testing, blocked_environment, ready_for_human_qa,
  human_triage_required,
}

pub record GateInput : Type 0 where
  pub name : String
  pub decision : String
  pub repair_attempts : ℤ

pub record Engine : Type 0 where
  pub max_repair_attempts : ℤ

-- `NewEngine`
unfoldable pub new_engine : ℤ → Engine
new_engine max = record { max_repair_attempts = if ltb_ℤ max (pos 1) then pos 3 else max }

-- Why a gate is refused.
pub data GateError : Type 0 where
  bad_decision unknown_gate forbidden : GateError

pub data GateResult : Type 0 where
  moved : RequirementStatus → GateResult
  refused : RequirementStatus → GateError → GateResult

pub data Target : Type 0 where
  to : RequirementStatus → Target
  no_gate : Target

-- The `switch` over the gate's name.
unfoldable pub gate_target : Engine → RequirementStatus → GateInput → Target
gate_target e current gate =
    let pass = str_eq gate.decision "pass" in
    if str_eq gate.name "design"
    then to (if pass then design_review else design_rework)
    else if str_eq gate.name "design_review"
    then to (if pass then developing else design_rework)
    else if str_eq gate.name "unit_test"
    then to (if pass then unit_verified else test_failed)
    else if str_eq gate.name "api_doc"
    then to (if pass then api_doc_ready else current)
    else if str_eq gate.name "test_deploy"
    then to (if pass then testing else blocked_environment)
    else if str_eq gate.name "api_log_data"
    then to (if pass then ready_for_human_qa else test_failed)
    else if str_eq gate.name "repair"
    then to (
        if leb_ℤ e.max_repair_attempts gate.repair_attempts
        then human_triage_required
        else if pass
        then developing
        else test_failed)
    else no_gate

settle : RequirementStatus → Target → GateResult
settle current (to s) = if transition current s then moved s else refused current forbidden
settle current no_gate = refused current unknown_gate

-- `Engine.ApplyGate`
unfoldable pub apply_gate : Engine → RequirementStatus → GateInput → GateResult
unfolding settle gate_target
apply_gate e current gate =
    if not (str_eq gate.decision "pass") && not (str_eq gate.decision "fail")
    then refused current bad_decision
    else settle current (gate_target e current gate)
