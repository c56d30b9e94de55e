-- ===== src/Workflow/Laws.antt =====
-- What the gates of internal/workflow/workflow.go permit.
use adro.Prelude.{◌≡◌, refl, Bool, true, false, ◌||◌, arith, str_eq, eq_iff, String, any, [], ◌∷◌}
use adro.Prelude.Int.{ℤ, pos, ltb_ℤ, leb_ℤ}
use adro.Domain.Requirement.{
  RequirementStatus, transition, same, other, received, design_rework, test_failed,
  blocked_environment, human_triage_required,
}
use adro.Workflow.{
  GateInput, Engine, new_engine, GateResult, moved, refused, Target, to, no_gate, settle,
  gate_target, apply_gate,
}

-- What may come out of a gate at status `current`.
abbrev pub Permitted : RequirementStatus → GateResult → Type 0
Permitted current (moved s) = transition current s ≡ true
Permitted current (refused s e) = s ≡ current

settle-Permitted : (current : RequirementStatus) (t : Target) → Permitted current (settle current t)
unfolding settle
settle-Permitted current (to s) = ground arith
settle-Permitted current no_gate = refl

-- A gate moves a requirement only along an edge of the table of statuses, and a gate that is
-- refused leaves the status as it was.
pub apply_gate-Permitted :
    (e : Engine) (current : RequirementStatus) (gate : GateInput)
    → Permitted current (apply_gate e current gate)
unfolding apply_gate
apply_gate-Permitted e current gate =
    ground (arith, settle-Permitted current (gate_target e current gate))

settle_moved : (current s : RequirementStatus) (t : Target) → settle current t ≡ moved s → t ≡ to s
unfolding settle
settle_moved current s (to u) h = ground arith
settle_moved current s no_gate h = cc

-- The statuses to which a failed gate may lead.
abbrev pub is_setback : RequirementStatus → Bool
is_setback design_rework = true
is_setback test_failed = true
is_setback blocked_environment = true
is_setback human_triage_required = true
is_setback _ = false

same_refl : (s : RequirementStatus) → same s s ≡ true
unfolding same
same_refl (other t) = (eq_iff t t).1 refl
same_refl received = refl
same_refl _ = refl

fail_target :
    (e : Engine) (current s : RequirementStatus) (gate : GateInput)
    → str_eq gate.decision "pass" ≡ false
    → gate_target e current gate ≡ to s
    → (is_setback s || same s current) ≡ true
unfolding gate_target
fail_target e current s gate f h = ground (arith, same_refl current)

-- A gate whose decision is not "pass" never advances a requirement: if it moves the status at all,
-- it moves it to a rework, failure, blocked or triage status.
pub failed_gate_never_advances :
    (e : Engine) (current s : RequirementStatus) (gate : GateInput)
    → str_eq gate.decision "pass" ≡ false
    → apply_gate e current gate ≡ moved s
    → (is_setback s || same s current) ≡ true
unfolding apply_gate
failed_gate_never_advances e current s gate f h =
    fail_target e current s gate f
      (settle_moved current s (gate_target e current gate) (ground arith))

repair_name :
    (s : String)
    → s ≡ "repair"
    → any
        (str_eq s)
        ("design" ∷ "design_review" ∷ "unit_test" ∷ "api_doc" ∷ "test_deploy" ∷ "api_log_data" ∷ [])
      ≡ false
repair_name s e = rw e

repair_target :
    (e : Engine) (current s : RequirementStatus) (gate : GateInput)
    → gate.name ≡ "repair"
    → leb_ℤ e.max_repair_attempts gate.repair_attempts ≡ true
    → gate_target e current gate ≡ to s
    → s ≡ human_triage_required
unfolding gate_target
repair_target e current s gate n f h = ground (arith, repair_name gate.name n)

limit_pos : (max : ℤ) → ltb_ℤ (pos 0) (new_engine max).max_repair_attempts ≡ true
unfolding new_engine
limit_pos max = ground arith

-- Automatic repair is bounded: from the engine's limit of attempts on, whatever the decision, the
-- repair gate hands the requirement to human triage or refuses; and the limit is at least one.
pub repair_bounded :
    (max : ℤ) (current s : RequirementStatus) (gate : GateInput)
    → gate.name ≡ "repair"
    → leb_ℤ (new_engine max).max_repair_attempts gate.repair_attempts ≡ true
    → apply_gate (new_engine max) current gate ≡ moved s
    → (s ≡ human_triage_required) × (ltb_ℤ (pos 0) (new_engine max).max_repair_attempts ≡ true)
unfolding apply_gate
repair_bounded max current s gate n f h = (
  repair_target (new_engine max) current s gate n f
      (settle_moved current s (gate_target (new_engine max) current gate) (ground arith)),
  limit_pos max,
)
