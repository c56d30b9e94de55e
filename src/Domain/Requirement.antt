-- ===== src/Domain/Requirement.antt =====
-- The life of a requirement: internal/domain/domain.go.
pub mod Laws
use mathlib.Core.Bool.{Bool, true, false, ◌||◌, ◌&&◌, not}
use mathlib.Core.List.{List, [], ◌∷◌}
use mathlib.Core.Option.{Option, none, some}
use Prim.Native.String.{String}
use Prim.Native.Nat.{ℕ}
use text.Mathlib.Text.{◌==◌ as str_eq}
use adro.Prelude.{if◌then◌else◌, any, ◌==◌}

-- A Go string type: `other` is any text that is none of the constants.
pub data RequirementStatus : Type 0 where
  received triaged assignees_confirmed designing design_review developing unit_verified :
      RequirementStatus
  api_doc_ready test_deploying testing ready_for_human_qa accepted released : RequirementStatus
  design_rework test_failed auto_repairing human_triage_required : RequirementStatus
  human_approval_needed blocked_provider blocked_environment : RequirementStatus
  blocked_artifact_store cancelled : RequirementStatus
  other : String → RequirementStatus

-- The constants are different texts.
rank : RequirementStatus → ℕ
rank received = 0
rank triaged = 1
rank assignees_confirmed = 2
rank designing = 3
rank design_review = 4
rank developing = 5
rank unit_verified = 6
rank api_doc_ready = 7
rank test_deploying = 8
rank testing = 9
rank ready_for_human_qa = 10
rank accepted = 11
rank released = 12
rank design_rework = 13
rank test_failed = 14
rank auto_repairing = 15
rank human_triage_required = 16
rank human_approval_needed = 17
rank blocked_provider = 18
rank blocked_environment = 19
rank blocked_artifact_store = 20
rank cancelled = 21
rank (other s) = 22

other_text : RequirementStatus → String
other_text (other s) = s
other_text _ = ""

-- `a == b`
unfoldable pub same : RequirementStatus → RequirementStatus → Bool
unfolding rank other_text
same a b = rank a == rank b && str_eq (other_text a) (other_text b)

-- The table `transitions`: `none` for a status that is no key of it.
unfoldable pub transitions : RequirementStatus → Option (List RequirementStatus)
transitions received = some (triaged ∷ cancelled ∷ [])
transitions triaged = some (assignees_confirmed ∷ cancelled ∷ [])
transitions assignees_confirmed = some (designing ∷ cancelled ∷ [])
transitions designing = some (design_review ∷ design_rework ∷ blocked_provider ∷ [])
transitions design_review = some (developing ∷ design_rework ∷ human_approval_needed ∷ [])
transitions design_rework = some (designing ∷ cancelled ∷ [])
transitions developing = some (unit_verified ∷ test_failed ∷ blocked_provider ∷ [])
transitions unit_verified = some (api_doc_ready ∷ test_failed ∷ [])
transitions api_doc_ready = some (test_deploying ∷ blocked_environment ∷ [])
transitions test_deploying = some (testing ∷ blocked_environment ∷ [])
transitions testing = some (ready_for_human_qa ∷ test_failed ∷ blocked_environment ∷ [])
transitions test_failed = some (auto_repairing ∷ human_triage_required ∷ [])
transitions auto_repairing = some (developing ∷ test_failed ∷ human_triage_required ∷ [])
transitions ready_for_human_qa = some (accepted ∷ developing ∷ human_approval_needed ∷ [])
transitions accepted = some (released ∷ [])
transitions human_triage_required = some (developing ∷ cancelled ∷ [])
transitions human_approval_needed = some (developing ∷ accepted ∷ cancelled ∷ [])
transitions blocked_provider = some (designing ∷ developing ∷ cancelled ∷ [])
transitions blocked_environment = some (test_deploying ∷ testing ∷ cancelled ∷ [])
transitions blocked_artifact_store = some (testing ∷ ready_for_human_qa ∷ cancelled ∷ [])
transitions _ = none

-- `RequirementStatus.Valid`
unfoldable pub valid : RequirementStatus → Bool
unfolding transitions same
valid s = elim (transitions s) [
  | some _ ↦ true
  | none ↦ same s released || (same s accepted || same s cancelled)
]

-- `CanTransition`
unfoldable pub can_transition : RequirementStatus → RequirementStatus → Bool
unfolding transitions same
can_transition from to =
    if same from to
    then true
    else elim (transitions from) [ some next ↦ any (same to) next | none ↦ false ]

-- `Transition`: true where Go returns a nil error.
unfoldable pub transition : RequirementStatus → RequirementStatus → Bool
unfolding valid can_transition
transition from to = if not (valid from) || not (valid to) then false else can_transition from to
