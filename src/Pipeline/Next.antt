-- ===== src/Pipeline/Next.antt =====
-- The choice of the next stage: `nextStage` and `nextCustomStage` of internal/pipeline/engine.go.
use adro.Prelude.{Bool, false, ◌&&◌, ◌||◌, not, String, str_eq, if◌then◌else◌, is_empty}
use adro.Prelude.Int.{ℤ, ltb_ℤ, leb_ℤ, is_pos}
use adro.Prelude.Text.{is_blank}
use adro.Prelude.Float64.{flt}
use adro.Pipeline.Stage.{
  PipelineStage, design, development, unit_test, integration, arbitration, revalidation, report,
  other, same_stage, PipelineStatus, running, waiting_approval, suspended, completed,
}
use adro.Pipeline.Run.{
  automatic, design_approval, other_mode, PipelineRun, PipelineStepResult, step_for, has_stage,
  next_selected_stage,
}

pub data EngineError : Type 0 where
  terminal_run stale_stage wrong_agent bad_outcome session_missing work_dir_missing : EngineError
  session_continuity design_doc_missing code_version_missing report_missing : EngineError
  invalid_stage : EngineError

-- Stage, status and reason; or an error.
pub data Next : Type 0 where
  go : PipelineStage → PipelineStatus → String → Next
  err : EngineError → Next

unfoldable pub passed : PipelineStepResult → Bool
passed r = str_eq r.outcome "pass"

unfoldable pub needs_approval : PipelineRun → Bool
needs_approval r = elim r.workflow_mode [
  | design_approval ↦ not (str_eq r.design_approval_status "approved")
  | automatic ↦ false
  | other_mode m ↦ false
]

-- `pass && coverage is enough` for a unit test
unfoldable pub unit_passed : PipelineRun → PipelineStepResult → Bool
unfolding passed
unit_passed r x = not (not (passed x) || flt x.coverage r.coverage_threshold)

-- The `switch` of `nextStage` over the current stage, with the default workflow.
unfoldable pub next_default : PipelineStage → PipelineRun → PipelineStepResult → Next
unfolding passed needs_approval unit_passed
next_default design r x =
    if not (passed x)
    then go design suspended "design generation failed"
    else if is_blank x.design_doc
    then err design_doc_missing
    else if needs_approval r
    then go design waiting_approval "design approval required"
    else go development running ""
next_default development r x =
    if not (passed x)
    then (if leb_ℤ r.max_retries r.retry_count
        then go development suspended "development retry limit reached"
        else go development running "")
    else if is_blank x.code_version
    then err code_version_missing
    else go unit_test running ""
next_default unit_test r x =
    if not (unit_passed r x)
    then (if leb_ℤ r.max_retries r.unit_retry_count
        then go unit_test suspended "unit-test or coverage retry limit reached"
        else go unit_test running "")
    else go integration running ""
next_default integration r x =
    if not (passed x)
    then go arbitration running ""
    else if is_pos r.retry_count
    then go revalidation running ""
    else go report running ""
next_default arbitration r x =
    if not (passed x)
    then go arbitration suspended "arbitrator rejected automatic repair"
    else if ltb_ℤ r.max_retries r.retry_count
    then go arbitration suspended "repair retry limit reached"
    else go development running ""
next_default revalidation r x =
    if not (passed x) then go arbitration running "" else go report running ""
next_default report r x =
    if not (passed x)
    then go report suspended "report generation failed"
    else if is_blank x.report_text
    then err report_missing
    else go report completed ""
next_default (other n) r x = err invalid_stage

-- `retryLimit`
unfoldable pub retry_limit : PipelineRun → PipelineStage → ℤ
unfolding step_for
retry_limit r stage =
    let s = step_for r stage in if is_pos s.retry_limit then s.retry_limit else r.max_retries

-- The end of `nextCustomStage`: the stage that the workflow selects next.
unfoldable pub follow_workflow : PipelineStage → PipelineRun → Next
unfolding next_selected_stage same_stage
follow_workflow current r =
    let next = next_selected_stage r current in
    if same_stage next current && not (same_stage current report)
    then go current suspended "workflow has no subsequent stage"
    else go next running ""

-- The tests of `nextCustomStage`, by the current stage.
unfoldable pub next_custom : PipelineStage → PipelineRun → PipelineStepResult → Next
unfolding passed needs_approval unit_passed retry_limit follow_workflow has_stage
next_custom design r x =
    if not (passed x)
    then go design suspended "design generation failed"
    else if is_blank x.design_doc
    then err design_doc_missing
    else if needs_approval r
    then go design waiting_approval "design approval required"
    else follow_workflow design r
next_custom development r x =
    if not (passed x)
    then (if leb_ℤ (retry_limit r development) r.retry_count
        then go development suspended "development retry limit reached"
        else go development running "")
    else if is_blank x.code_version
    then err code_version_missing
    else follow_workflow development r
next_custom unit_test r x =
    if not (unit_passed r x)
    then (if leb_ℤ (retry_limit r unit_test) r.unit_retry_count
        then go unit_test suspended "unit-test or coverage retry limit reached"
        else go unit_test running "")
    else follow_workflow unit_test r
next_custom report r x =
    if not (passed x)
    then go report suspended "report generation failed"
    else if is_blank x.report_text
    then err report_missing
    else go report completed ""
next_custom integration r x =
    if not (passed x)
    then (if has_stage r arbitration
        then go arbitration running ""
        else if has_stage r development && ltb_ℤ r.retry_count (retry_limit r development)
        then go development running ""
        else go integration suspended "integration failed and no repair stage is configured")
    else follow_workflow integration r
next_custom arbitration r x =
    if not (passed x)
    then go arbitration suspended "arbitrator rejected automatic repair"
    else if ltb_ℤ (retry_limit r arbitration) r.retry_count
    then go arbitration suspended "repair retry limit reached"
    else if has_stage r development
    then go development running ""
    else follow_workflow arbitration r
next_custom revalidation r x =
    if not (passed x)
    then (if has_stage r arbitration
        then go arbitration running ""
        else go revalidation suspended "revalidation failed and no arbitration stage is configured")
    else follow_workflow revalidation r
next_custom (other n) r x = follow_workflow (other n) r

-- `nextStage`
unfoldable pub next_stage : PipelineRun → PipelineStepResult → Next
unfolding next_default next_custom
next_stage r x =
    if is_empty r.workflow
    then next_default r.pipeline_stage r x
    else next_custom r.pipeline_stage r x
