-- ===== src/Pipeline/Run.antt =====
-- A pipeline run and the results that providers report: internal/domain/pipeline.go.
use adro.Prelude.{
  ℕ, Bool, false, ◌||◌, not, String, str_eq, List, [], ◌∷◌, if◌then◌else◌, is_empty, any,
}
use adro.Prelude.Int.{ℤ, pos, ltb_ℤ}
use adro.Prelude.Text.{is_blank}
use adro.Prelude.Float64.{Float64, fle, flt, of_int, fzero}
use adro.Pipeline.Stage.{
  PipelineStage, report, same_stage, valid_stage, PipelineStatus, PipelineAgentRoles,
  role_agent_for, roles_complete,
}
use adro.Pipeline.Steps.{
  WorkflowStep, step_valid, default_workflow, normalize_workflow, first_step, stage_after,
}

-- A time in nanoseconds since the zero `time.Time`; 0 is `IsZero`.
abbrev pub Time : Type 0
Time = ℕ

pub data WorkflowMode : Type 0 where
  automatic design_approval : WorkflowMode
  other_mode : String → WorkflowMode

pub record PipelineContext : Type 0 where
  pub requirement_text : String
  pub design_doc : String
  pub baseline_commit : String
  pub current_commit : String
  pub passed_tests : List String
  pub failed_tests : List String
  pub error_logs : List String
  pub repair_notes : List String
  pub coverage : Float64

pub record PipelineTransition : Type 0 where
  pub sequence : ℕ
  pub from_stage : PipelineStage
  pub to_stage : PipelineStage
  pub outcome : String
  pub agent_id : String
  pub provider_issue_id : String
  pub provider_task_id : String
  pub provider_session_id : String
  pub provider_work_dir : String
  pub summary : String
  pub created_at : Time

pub record PipelineRun : Type 0 where
  pub id : String
  pub workspace_id : String
  pub requirement_id : String
  pub session_id : String
  pub pipeline_work_item_id : String
  pub bug_id : String
  pub parent_session_id : String
  pub provider_work_dir : String
  pub pipeline_stage : PipelineStage
  pub status : PipelineStatus
  pub roles : PipelineAgentRoles
  pub workflow_mode : WorkflowMode
  pub legacy_adapter_version : String
  pub execution_plan_id : String
  pub active_graph_node_id : String
  pub active_graph_attempt_id : String
  pub workflow : List WorkflowStep
  pub design_approval_id : String
  pub design_approval_status : String
  pub ctx : PipelineContext
  pub max_retries : ℤ
  pub retry_count : ℤ
  pub unit_retry_count : ℤ
  pub coverage_threshold : Float64
  pub active_provider_issue_id : String
  pub active_provider_task_id : String
  pub active_agent_id : String
  pub final_report : String
  pub suspend_reason : String
  pub version : ℤ
  pub history : List PipelineTransition
  pub created_at : Time
  pub updated_at : Time

pub record PipelineStepResult : Type 0 where
  pub stage : PipelineStage
  pub agent_id : String
  pub outcome : String
  pub summary : String
  pub design_doc : String
  pub code_version : String
  pub coverage : Float64
  pub passed_tests : List String
  pub failed_tests : List String
  pub error_log : String
  pub repair_note : String
  pub report_text : String
  pub provider_issue_id : String
  pub provider_task_id : String
  pub provider_session_id : String
  pub provider_work_dir : String

-- `PipelineRun.Steps`
unfoldable pub steps : PipelineRun → List WorkflowStep
unfolding normalize_workflow default_workflow
steps r = if is_empty r.workflow then default_workflow r.roles else normalize_workflow r.workflow

-- `PipelineRun.StepFor`
unfoldable pub step_for : PipelineRun → PipelineStage → WorkflowStep
unfolding steps first_step
step_for r stage = first_step stage (steps r)

-- `PipelineRun.AgentFor`
unfoldable pub agent_for : PipelineRun → PipelineStage → String
unfolding step_for role_agent_for
agent_for r stage =
    let s = step_for r stage in
    if not (str_eq s.agent_id "") then s.agent_id else role_agent_for r.roles stage

-- `PipelineRun.HasStage`
unfoldable pub has_stage : PipelineRun → PipelineStage → Bool
unfolding step_for same_stage
has_stage r stage = same_stage (step_for r stage).stage stage

-- `PipelineRun.NextSelectedStage`
unfoldable pub next_selected_stage : PipelineRun → PipelineStage → PipelineStage
unfolding steps stage_after
next_selected_stage r stage = stage_after stage (steps r)

-- The loop of `Validate` over a custom workflow; `seen` holds the stages met so far.
unfoldable pub workflow_valid : List PipelineStage → List WorkflowStep → Bool
unfolding step_valid same_stage
workflow_valid seen [] = any (same_stage report) seen
workflow_valid seen (s ∷ ss) =
    if not (step_valid s)
    then false
    else if any (same_stage s.stage) seen
    then false
    else workflow_valid (s.stage ∷ seen) ss

-- `PipelineRun.Validate`: true where Go returns nil.
unfoldable pub run_valid : PipelineRun → Bool
unfolding workflow_valid valid_stage roles_complete
run_valid r =
    if is_blank r.workspace_id || is_blank r.requirement_id
    then false
    else if is_blank r.session_id
    then false
    else if not (valid_stage r.pipeline_stage)
    then false
    else if not
        (if is_empty r.workflow then roles_complete r.roles else workflow_valid [] r.workflow)
    then false
    else if ltb_ℤ r.max_retries (pos 1)
    then false
    else not (fle r.coverage_threshold fzero || flt (of_int (pos 100)) r.coverage_threshold)
