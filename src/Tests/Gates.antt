-- ===== src/Tests/Gates.antt =====
-- The gates and statuses of internal/workflow and internal/domain at work.
use adro.Prelude.{◌≡◌, refl, true, List, [], ◌∷◌, any, ◌||◌}
use adro.Prelude.Int.{pos, ltb_ℤ}
use adro.Domain.Requirement.{
  RequirementStatus, same, transition, triaged, assignees_confirmed, designing, design_review,
  developing, unit_verified, api_doc_ready, test_deploying, released, accepted, ready_for_human_qa,
  human_triage_required, test_failed, testing,
}
use adro.Domain.Requirement.Laws.{here, next, is_human, final_absorbs, release_needs_human}
use adro.Workflow.{GateInput, new_engine, apply_gate}
use adro.Workflow.Laws.{
  Permitted, apply_gate-Permitted, failed_gate_never_advances, repair_bounded, is_setback,
}

abbrev to_release : List RequirementStatus
to_release =
    triaged ∷ assignees_confirmed ∷ designing ∷ design_review ∷ developing ∷ unit_verified
    ∷ api_doc_ready ∷ test_deploying ∷ testing ∷ ready_for_human_qa ∷ accepted ∷ released ∷ []

abbrev failed_logs : GateInput
failed_logs = record { name = "api_log_data"; decision = "fail"; repair_attempts = pos 0 }

abbrev fourth_repair : GateInput
fourth_repair = record { name = "repair"; decision = "pass"; repair_attempts = pos 3 }

apply_gate-Permitted_example :
    Permitted testing (apply_gate (new_engine (pos 3)) testing failed_logs)
apply_gate-Permitted_example = apply_gate-Permitted (new_engine (pos 3)) testing failed_logs

failed_gate_never_advances_example : (is_setback test_failed || same test_failed testing) ≡ true
unfolding apply_gate new_engine transition
failed_gate_never_advances_example =
    failed_gate_never_advances (new_engine (pos 3)) testing test_failed failed_logs refl refl

repair_bounded_example :
    (human_triage_required ≡ human_triage_required)
    × (ltb_ℤ (pos 0) (new_engine (pos 0)).max_repair_attempts ≡ true)
unfolding apply_gate new_engine transition
repair_bounded_example =
    repair_bounded (pos 0) test_failed human_triage_required fourth_repair refl refl refl

final_absorbs_example : released ≡ released
unfolding same transition
final_absorbs_example = final_absorbs released released refl (next here refl)

release_needs_human_example :
    (any (λ t. same t accepted) to_release ≡ true) × (any is_human to_release ≡ true)
unfolding transition same
release_needs_human_example =
    release_needs_human to_release
      ((
        refl,
        (refl, (refl, (refl, (refl, (refl, (refl, (refl, (refl, (refl, (refl, (refl, tt))))))))))),
      ))
      refl
