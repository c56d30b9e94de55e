-- ===== src/Tests/Runs.antt =====
-- Pipeline runs at work: internal/pipeline/engine.go.
use adro.Prelude.{◌≡◌, refl, true, false, List, [], ◌∷◌, String, arith, ◌≤◌, ◌*◌, ◌+◌, length}
use adro.Prelude.Int.{pos, add64}
use adro.Prelude.Text.{is_blank, trim_space}
use adro.Prelude.Float64.{of_int}
use adro.Pipeline.Stage.{
  PipelineStage, development, unit_test, report, same_stage, is_terminal, running,
  PipelineAgentRoles,
}
use adro.Pipeline.Run.{Time, automatic, PipelineRun, PipelineStepResult, agent_for}
use adro.Pipeline.Next.{next_stage, passed, stale_stage, needs_approval}
use adro.Pipeline.Engine.{apply, transition}
use adro.Pipeline.Engine.History.{apply_history, apply_error_keeps, completion_needs_report}
use adro.Pipeline.Engine.Session.{
  AppendOnly, SameSession, context-AppendOnly, baseline_pinned, session_pinned,
  development_continues,
}
use adro.Pipeline.Engine.Retries.{IsBounded, apply-IsBounded}
use adro.Pipeline.Engine.Progress.{remaining, pipeline_terminates}

abbrev roles : PipelineAgentRoles
roles = record {
  designer = "designer";
  developer = "developer";
  tester = "tester";
  arbitrator = "arbitrator";
}

abbrev run_at : PipelineStage → String → PipelineRun
run_at stage agent = record {
  id = "run";
  workspace_id = "ws";
  requirement_id = "req";
  session_id = "s";
  pipeline_work_item_id = "item";
  bug_id = "";
  parent_session_id = "session";
  provider_work_dir = "/w";
  pipeline_stage = stage;
  status = running;
  roles = roles;
  workflow_mode = automatic;
  legacy_adapter_version = "";
  execution_plan_id = "";
  active_graph_node_id = "";
  active_graph_attempt_id = "";
  workflow = [];
  design_approval_id = "";
  design_approval_status = "";
  ctx = record {
    requirement_text = "text";
    design_doc = "doc";
    baseline_commit = "c0";
    current_commit = "c1";
    passed_tests = "t1" ∷ [];
    failed_tests = [];
    error_logs = [];
    repair_notes = [];
    coverage = of_int (pos 0);
  };
  max_retries = pos 3;
  retry_count = pos 0;
  unit_retry_count = pos 0;
  coverage_threshold = of_int (pos 1);
  active_provider_issue_id = "";
  active_provider_task_id = "";
  active_agent_id = agent;
  final_report = "";
  suspend_reason = "";
  version = pos 4;
  history = [];
  created_at = 1;
  updated_at = 2;
}

abbrev step_result : PipelineStage → String → String → PipelineStepResult
step_result stage agent outcome = record {
  stage = stage;
  agent_id = agent;
  outcome = outcome;
  summary = "";
  design_doc = "";
  code_version = "c2";
  coverage = of_int (pos 1);
  passed_tests = "t2" ∷ [];
  failed_tests = [];
  error_log = "";
  repair_note = "";
  report_text = "all done";
  provider_issue_id = "";
  provider_task_id = "";
  provider_session_id = "session";
  provider_work_dir = "/w";
}

abbrev developing : PipelineRun
developing = run_at development "developer"

abbrev developed : PipelineStepResult
developed = step_result development "developer" "pass"

abbrev reporting : PipelineRun
reporting = run_at report "tester"

abbrev reported : PipelineStepResult
reported = step_result report "tester" "pass"

developing-IsBounded : IsBounded developing
developing-IsBounded = record {
  default_steps = refl;
  limit_sign = refl;
  limit_room = ground arith;
  retry_sign = refl;
  unit_sign = refl;
  retry_limited = ground arith;
  unit_limited = ground arith;
}

abbrev one_result : List (PipelineStepResult × Time)
one_result = (developed, 5) ∷ []

pipeline_terminates_example :
    (length one_result ≤ remaining development developing) × (length one_result ≤ 16 * 3 + 7)
unfolding apply is_blank agent_for trim_space passed needs_approval add64 transition next_stage
pipeline_terminates_example =
    pipeline_terminates developing one_result developing-IsBounded refl (refl, refl, tt)

apply-IsBounded_example : IsBounded (apply developing developed 5).0
unfolding apply is_blank agent_for trim_space passed needs_approval add64 transition next_stage
apply-IsBounded_example =
    apply-IsBounded developing (apply developing developed 5).0 developed 5 developing-IsBounded
      refl refl

completion_needs_report_example :
    (report ≡ report)
    × (passed reported ≡ true)
    × (is_blank reported.report_text ≡ false)
    × ((apply reporting reported 5).0.final_report ≡ "all done")
    × ((apply reporting reported 5).0.active_agent_id ≡ "")
unfolding apply is_blank agent_for trim_space passed needs_approval add64 transition next_stage
completion_needs_report_example =
    completion_needs_report reporting (apply reporting reported 5).0 reported 5 refl refl

baseline_pinned_example : (apply developing developed 5).0.ctx.baseline_commit ≡ "c0"
baseline_pinned_example = baseline_pinned developing developed 5 refl

session_pinned_example : SameSession developing (apply developing developed 5).0
session_pinned_example = session_pinned developing developed 5 refl

context-AppendOnly_example : AppendOnly developing.ctx (apply developing developed 5).0.ctx
context-AppendOnly_example = context-AppendOnly developing developed 5

development_continues_example :
    (developed.provider_session_id ≡ "session") × (developed.provider_work_dir ≡ "/w")
unfolding apply is_blank agent_for trim_space passed needs_approval add64 transition next_stage
development_continues_example = development_continues developing developed 5 refl refl refl

apply_history_example :
    ((apply developing developed 5).0.history
      ≡ record {
        sequence = 1;
        from_stage = development;
        to_stage = unit_test;
        outcome = developed.outcome;
        agent_id = developed.agent_id;
        provider_issue_id = developed.provider_issue_id;
        provider_task_id = developed.provider_task_id;
        provider_session_id = developed.provider_session_id;
        provider_work_dir = developed.provider_work_dir;
        summary = developed.summary;
        created_at = 5;
      }
        ∷ [])
    × ((apply developing developed 5).0.version ≡ add64 (pos 4) (pos 1))
    × (is_terminal running ≡ false)
    × (same_stage development development ≡ true)
unfolding apply is_blank agent_for trim_space passed needs_approval add64 transition next_stage
apply_history_example = apply_history developing (apply developing developed 5).0 developed 5 refl

-- The report comes while the run is in development.
apply_error_keeps_example :
    let r' = (apply developing reported 5).0 in
    (r'.history ≡ [])
    × (r'.version ≡ pos 4)
    × (r'.pipeline_stage ≡ development)
    × (r'.status ≡ running)
    × (r'.final_report ≡ "")
unfolding apply is_blank agent_for trim_space passed needs_approval add64 transition next_stage
apply_error_keeps_example = apply_error_keeps developing reported 5 {e = stale_stage} refl
