-- ===== src/Pipeline/Engine.antt =====
-- `Engine.Apply` of internal/pipeline/engine.go. Go hands the run back by value, on an error too,
-- with what was written before the error.
pub mod History
pub mod Session
pub mod Retries
pub mod Progress
use adro.Prelude.{
  ℕ, ◌+◌, Bool, true, false, ◌&&◌, ◌||◌, not, String, str_eq, List, [], ◌∷◌, ◌++◌, Option, none,
  some, if◌then◌else◌, is_empty, any, length,
}
use adro.Prelude.Int.{ℤ, pos, add64}
use adro.Prelude.Text.{is_blank, trim_space}
use adro.Prelude.Float64.{Float64, flt, fzero}
use adro.Pipeline.Stage.{
  PipelineStage, development, unit_test, integration, arbitration, report, same_stage,
  PipelineStatus, completed, is_terminal,
}
use adro.Pipeline.Run.{
  Time, PipelineContext, PipelineTransition, PipelineRun, PipelineStepResult, agent_for, has_stage,
}
use adro.Pipeline.Next.{
  EngineError, terminal_run, stale_stage, wrong_agent, bad_outcome, session_missing,
  work_dir_missing, session_continuity, Next, go, err, next_stage,
}

-- The loop of `appendUnique`.
append_unseen : List String → List String → List String → List String
append_unseen seen acc [] = acc
append_unseen seen acc (v ∷ vs) =
    let item = trim_space v in
    if str_eq item "" || any (str_eq item) seen
    then append_unseen seen acc vs
    else append_unseen (item ∷ seen) (acc ++ item ∷ []) vs

-- `appendUnique`
unfoldable pub append_unique : List String → List String → List String
unfolding append_unseen
append_unique existing values = append_unseen existing existing values

-- The tests before anything is written.
unfoldable pub refusal : PipelineRun → PipelineStepResult → Option EngineError
unfolding is_terminal same_stage
refusal r x =
    if is_terminal r.status
    then some terminal_run
    else if not (same_stage x.stage r.pipeline_stage)
    then some stale_stage
    else if is_blank x.agent_id || not (str_eq x.agent_id (agent_for r r.pipeline_stage))
    then some wrong_agent
    else if not (str_eq x.outcome "pass") && not (str_eq x.outcome "fail")
    then some bad_outcome
    else none

-- The evidence of the result, merged into the context.
unfoldable pub merge_context : PipelineContext → PipelineStepResult → PipelineContext
merge_context c x = record c {
  design_doc = if not (str_eq x.design_doc "") then x.design_doc else c.design_doc;
  baseline_commit =
      if not (str_eq x.code_version "") && str_eq c.baseline_commit ""
      then x.code_version
      else c.baseline_commit;
  current_commit = if not (str_eq x.code_version "") then x.code_version else c.current_commit;
  coverage = if flt fzero x.coverage then x.coverage else c.coverage;
  passed_tests = append_unique c.passed_tests x.passed_tests;
  failed_tests = append_unique c.failed_tests x.failed_tests;
  error_logs =
      if not (is_blank x.error_log) then c.error_logs ++ x.error_log ∷ [] else c.error_logs;
  repair_notes =
      if not (is_blank x.repair_note) then c.repair_notes ++ x.repair_note ∷ [] else c.repair_notes;
}

-- The run so far, or an error with it.
pub data Step : Type 0 where
  on : PipelineRun → Step
  stop : PipelineRun → EngineError → Step

-- The session that a development result must present: the first pins it.
unfoldable pub pin_session : PipelineRun → PipelineStepResult → Step
pin_session r x =
    if is_blank x.provider_session_id
    then stop r session_missing
    else if is_blank x.provider_work_dir
    then stop r work_dir_missing
    else if str_eq r.parent_session_id ""
    then on (record r {
      parent_session_id = x.provider_session_id;
      provider_work_dir = x.provider_work_dir;
    })
    else if not (str_eq x.provider_session_id r.parent_session_id)
    then stop r session_continuity
    else if not (str_eq x.provider_work_dir r.provider_work_dir)
    then stop r session_continuity
    else on r

retry_more : PipelineRun → PipelineRun
retry_more r = record r { retry_count = add64 r.retry_count (pos 1) }

-- What the result does to the session and the counters, by the stage it is for.
unfoldable pub account : PipelineStage → PipelineRun → PipelineStepResult → Step
unfolding retry_more pin_session
account development r x = elim (pin_session r x) [
  | stop s e ↦ stop s e
  | on s ↦ if str_eq x.outcome "fail" then on (retry_more s) else on s
]
account unit_test r x =
    if str_eq x.outcome "fail" || flt x.coverage r.coverage_threshold
    then on (record r { unit_retry_count = add64 r.unit_retry_count (pos 1) })
    else on r
account arbitration r x = if str_eq x.outcome "pass" then on (retry_more r) else on r
account integration r x =
    if str_eq x.outcome "fail" && not (is_empty r.workflow) && not (has_stage r arbitration)
    then on (retry_more r)
    else on r
account _ r x = on r

is_completed : PipelineStatus → Bool
is_completed completed = true
is_completed _ = false

-- The transition that a result adds to the history.
unfoldable pub transition :
    PipelineRun → PipelineStepResult → PipelineStage → Time → PipelineTransition
transition r x to now = record {
  sequence = length r.history + 1;
  from_stage = r.pipeline_stage;
  to_stage = to;
  outcome = x.outcome;
  agent_id = x.agent_id;
  provider_issue_id = x.provider_issue_id;
  provider_task_id = x.provider_task_id;
  provider_session_id = x.provider_session_id;
  provider_work_dir = x.provider_work_dir;
  summary = x.summary;
  created_at = now;
}

-- The writes once the next stage is known.
unfoldable pub advance :
    PipelineRun → PipelineStepResult → PipelineStage → PipelineStatus → String → Time → PipelineRun
unfolding is_completed transition same_stage
advance r x to status reason now = record r {
  pipeline_stage = to;
  status = status;
  suspend_reason = reason;
  active_provider_issue_id = x.provider_issue_id;
  active_provider_task_id = if is_completed status then "" else x.provider_task_id;
  active_agent_id = if is_completed status then "" else agent_for r to;
  final_report =
      if is_completed status
      then x.report_text
      else if same_stage to report && not (str_eq x.report_text "")
      then x.report_text
      else r.final_report;
  history = r.history ++ transition r x to now ∷ [];
  version = add64 r.version (pos 1);
  updated_at = now;
}

-- Route the accounted run and commit.
unfoldable pub commit : PipelineStepResult → Time → Step → PipelineRun × Option EngineError
unfolding advance
commit x now (stop r e) = (r, some e)
commit x now (on r) = elim (next_stage r x) [
  | err e ↦ (r, some e)
  | go to status reason ↦ (advance r x to status reason now, none)
]

abbrev pub with_context : PipelineRun → PipelineStepResult → PipelineRun
with_context r x = record r { ctx = merge_context r.ctx x }

-- The evidence merged, then the accounting: what stands before `nextStage`.
unfoldable pub accounted : PipelineRun → PipelineStepResult → Step
unfolding merge_context account
accounted r x = account r.pipeline_stage (with_context r x) x

-- `Engine.Apply`; `now` is the clock's reading.
unfoldable pub apply : PipelineRun → PipelineStepResult → Time → PipelineRun × Option EngineError
unfolding refusal accounted commit
apply r x now = elim (refusal r x) [ some e ↦ (r, some e) | none ↦ commit x now (accounted r x) ]
