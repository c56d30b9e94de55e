-- ===== src/Pipeline/Steps.antt =====
-- The ordered steps of a workflow: internal/domain/workflow_chat.go. A step's free-form `Config` is
-- read by no code modelled here and left out.
use adro.Prelude.{Bool, true, false, ◌&&◌, not, String, List, [], ◌∷◌, if◌then◌else◌}
use adro.Prelude.Int.{ℤ, pos, ltb_ℤ, is_neg}
use adro.Prelude.Text.{is_blank}
use adro.Pipeline.Stage.{
  PipelineStage, design, development, unit_test, integration, arbitration, revalidation, report,
  other, stage_number, same_stage, valid_stage, PipelineAgentRoles,
}

pub record WorkflowStep : Type 0 where
  pub id : String
  pub stage : PipelineStage
  pub name : String
  pub role : String
  pub agent_id : String
  pub is_required : Bool
  pub retry_limit : ℤ

-- `WorkflowStep{}`
abbrev pub zero_step : WorkflowStep
zero_step = record {
  id = "";
  stage = other (pos 0);
  name = "";
  role = "";
  agent_id = "";
  is_required = false;
  retry_limit = pos 0;
}

-- `WorkflowStep.Validate`: true where Go returns nil.
unfoldable pub step_valid : WorkflowStep → Bool
unfolding valid_stage
step_valid s =
    not (is_blank s.id)
    && valid_stage s.stage
    && not (is_blank s.agent_id)
    && not (is_neg s.retry_limit)

abbrev step : String → PipelineStage → String → String → String → WorkflowStep
step i s n r a = record {
  id = i;
  stage = s;
  name = n;
  role = r;
  agent_id = a;
  is_required = true;
  retry_limit = pos 0;
}

-- `DefaultWorkflow`
unfoldable pub default_workflow : PipelineAgentRoles → List WorkflowStep
default_workflow r =
    step "design" design "Design" "designer" r.designer
    ∷ step "development" development "Development" "developer" r.developer
    ∷ step "unit_test" unit_test "Unit tests" "tester" r.tester
    ∷ step "integration_test" integration "Integration tests" "tester" r.tester
    ∷ step "arbitration" arbitration "Repair arbitration" "arbitrator" r.arbitrator
    ∷ step "revalidation" revalidation "Revalidation" "tester" r.tester
    ∷ step "report" report "Final report" "tester" r.tester
    ∷ []

insert_step : WorkflowStep → List WorkflowStep → List WorkflowStep
insert_step s [] = s ∷ []
insert_step s (t ∷ ts) =
    if ltb_ℤ (stage_number t.stage) (stage_number s.stage) then t ∷ insert_step s ts else s ∷ t ∷ ts

-- `NormalizeWorkflow`: a stable sort by stage. Every stable sort gives this list.
unfoldable pub normalize_workflow : List WorkflowStep → List WorkflowStep
unfolding insert_step stage_number
normalize_workflow [] = []
normalize_workflow (s ∷ ss) = insert_step s (normalize_workflow ss)

-- The first step of a stage, as the loops of `StepFor` find it.
unfoldable pub first_step : PipelineStage → List WorkflowStep → WorkflowStep
unfolding same_stage
first_step stage [] = zero_step
first_step stage (s ∷ ss) = if same_stage s.stage stage then s else first_step stage ss

-- The stage after the first step of `stage`: the loop of `NextSelectedStage`.
unfoldable pub stage_after : PipelineStage → List WorkflowStep → PipelineStage
unfolding same_stage
stage_after stage [] = stage
stage_after stage (s ∷ []) = stage
stage_after stage (s ∷ t ∷ ss) =
    if same_stage s.stage stage then t.stage else stage_after stage (t ∷ ss)
