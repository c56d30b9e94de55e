-- ===== src/Pipeline/Engine/History.antt =====
-- The history of a run, and what completion takes: internal/pipeline/engine.go.
use adro.Prelude.{◌≡◌, true, false, arith, [], ◌∷◌, ◌++◌, none, some, String, length, ◌+◌}
use adro.Prelude.Int.{pos, add64}
use adro.Prelude.Text.{is_blank}
use adro.Pipeline.Stage.{PipelineStage, report, completed, is_terminal, same_stage}
use adro.Pipeline.Run.{Time, PipelineRun, PipelineStepResult}
use adro.Pipeline.Next.{EngineError, go, next_stage, next_default, next_custom, passed}
use adro.Pipeline.Engine.{
  Step, on, stop, account, accounted, refusal, commit, transition, apply, with_context,
}

-- What a step keeps of the run it starts from.
abbrev KeepsRecord : PipelineRun → Step → Type 0
KeepsRecord r (on s) =
    (s.history ≡ r.history)
    × (s.version ≡ r.version)
    × (s.pipeline_stage ≡ r.pipeline_stage)
    × (s.status ≡ r.status)
    × (s.final_report ≡ r.final_report)
KeepsRecord r (stop s e) =
    (s.history ≡ r.history)
    × (s.version ≡ r.version)
    × (s.pipeline_stage ≡ r.pipeline_stage)
    × (s.status ≡ r.status)
    × (s.final_report ≡ r.final_report)

account-KeepsRecord :
    (g : PipelineStage) (r : PipelineRun) (x : PipelineStepResult) → KeepsRecord r (account g r x)
unfolding account
account-KeepsRecord PipelineStage.development r x = ground arith
account-KeepsRecord _ r x = ground arith

accounted-KeepsRecord : (r : PipelineRun) (x : PipelineStepResult) → KeepsRecord r (accounted r x)
unfolding accounted
accounted-KeepsRecord r x =
    ground (arith, account-KeepsRecord r.pipeline_stage (with_context r x) x)

commit_error :
    (r : PipelineRun) (x : PipelineStepResult) (now : Time) (s : Step) {e : EngineError}
    → KeepsRecord r s
    → (commit x now s).1 ≡ some e
    → KeepsRecord r (stop (commit x now s).0 e)
unfolding commit
commit_error r x now (stop s e) k h = k
commit_error r x now (on s) k h = ground arith

-- A refused result, at whatever test it is refused, leaves the stage, the status, the history, the
-- version and the final report of the run as they were.
pub apply_error_keeps :
    (r : PipelineRun) (x : PipelineStepResult) (now : Time) {e : EngineError}
    → (apply r x now).1 ≡ some e
    → let r' = (apply r x now).0 in
      (r'.history ≡ r.history)
      × (r'.version ≡ r.version)
      × (r'.pipeline_stage ≡ r.pipeline_stage)
      × (r'.status ≡ r.status)
      × (r'.final_report ≡ r.final_report)
unfolding apply
apply_error_keeps r x now {e} h =
    ground (arith, accounted-KeepsRecord r x, commit_error r x now (accounted r x) {e = e})

commit_history :
    (r r' : PipelineRun) (x : PipelineStepResult) (now : Time) (s : Step)
    → KeepsRecord r s
    → commit x now s ≡ (r', none)
    → (r'.history
        ≡ r.history
          ++ record {
            sequence = length r.history + 1;
            from_stage = r.pipeline_stage;
            to_stage = r'.pipeline_stage;
            outcome = x.outcome;
            agent_id = x.agent_id;
            provider_issue_id = x.provider_issue_id;
            provider_task_id = x.provider_task_id;
            provider_session_id = x.provider_session_id;
            provider_work_dir = x.provider_work_dir;
            summary = x.summary;
            created_at = now;
          }
            ∷ [])
      × (r'.version ≡ add64 r.version (pos 1))
unfolding commit transition
commit_history r r' x now (stop s e) k h = cc
commit_history r r' x now (on s) k h = ground arith

completes :
    (g to : PipelineStage) (r : PipelineRun) (x : PipelineStepResult) (why : String)
    → next_default g r x ≡ go to completed why
    → (g ≡ report) × (passed x ≡ true) × (is_blank x.report_text ≡ false)
unfolding next_default
completes g to r x why h = ground arith

completes_custom :
    (g to : PipelineStage) (r : PipelineRun) (x : PipelineStepResult) (why : String)
    → next_custom g r x ≡ go to completed why
    → (g ≡ report) × (passed x ≡ true) × (is_blank x.report_text ≡ false)
unfolding next_custom
completes_custom g to r x why h = ground arith

completes_next :
    (r : PipelineRun) (x : PipelineStepResult) (to : PipelineStage) (why : String)
    → next_stage r x ≡ go to completed why
    → (r.pipeline_stage ≡ report) × (passed x ≡ true) × (is_blank x.report_text ≡ false)
unfolding next_stage
completes_next r x to why h =
    ground
      (arith, completes r.pipeline_stage to r x why, completes_custom r.pipeline_stage to r x why)

refusal-none :
    (r : PipelineRun) (x : PipelineStepResult)
    → refusal r x ≡ none
    → (is_terminal r.status ≡ false) × (same_stage x.stage r.pipeline_stage ≡ true)
unfolding refusal
refusal-none r x h = ground arith

-- A result that is accepted adds exactly one transition behind the history, with its place there,
-- counted from 1, as its number, the stage that the run was in and the one that it is in now, the
-- result's outcome, agent, provider IDs and summary, and the time; it adds one to the version; and
-- it is for the stage that the run was in, which was not terminal.
pub apply_history :
    (r r' : PipelineRun) (x : PipelineStepResult) (now : Time)
    → apply r x now ≡ (r', none)
    → (r'.history
        ≡ r.history
          ++ record {
            sequence = length r.history + 1;
            from_stage = r.pipeline_stage;
            to_stage = r'.pipeline_stage;
            outcome = x.outcome;
            agent_id = x.agent_id;
            provider_issue_id = x.provider_issue_id;
            provider_task_id = x.provider_task_id;
            provider_session_id = x.provider_session_id;
            provider_work_dir = x.provider_work_dir;
            summary = x.summary;
            created_at = now;
          }
            ∷ [])
      × (r'.version ≡ add64 r.version (pos 1))
      × (is_terminal r.status ≡ false)
      × (same_stage x.stage r.pipeline_stage ≡ true)
unfolding apply
apply_history r r' x now h =
    ground (
      arith,
      refusal-none r x,
      accounted-KeepsRecord r x,
      commit_history r r' x now (accounted r x),
    )

commit_completed :
    (r r' : PipelineRun) (x : PipelineStepResult) (now : Time) (s : Step)
    → KeepsRecord r s
    → commit x now s ≡ (r', none)
    → r'.status ≡ completed
    → (r.pipeline_stage ≡ report)
      × (passed x ≡ true)
      × (is_blank x.report_text ≡ false)
      × (r'.final_report ≡ x.report_text)
      × (r'.active_agent_id ≡ "")
unfolding commit
commit_completed r r' x now (stop s e) k h c = cc
commit_completed r r' x now (on s) k h c =
    ground (arith, completes_next s x r'.pipeline_stage r'.suspend_reason)

-- A run is completed only by a passing report with a text: the run was in the report stage, the
-- result's report becomes the final one, and no agent stays active.
pub completion_needs_report :
    (r r' : PipelineRun) (x : PipelineStepResult) (now : Time)
    → apply r x now ≡ (r', none)
    → r'.status ≡ completed
    → (r.pipeline_stage ≡ report)
      × (passed x ≡ true)
      × (is_blank x.report_text ≡ false)
      × (r'.final_report ≡ x.report_text)
      × (r'.active_agent_id ≡ "")
unfolding apply
completion_needs_report r r' x now h c =
    ground (arith, accounted-KeepsRecord r x, commit_completed r r' x now (accounted r x))
