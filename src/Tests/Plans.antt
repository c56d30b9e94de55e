-- ===== src/Tests/Plans.antt =====
-- Execution plans at work: internal/orchestration.
use adro.Prelude.{is_none, ◌≡◌, refl, true, false, [], ◌∷◌, some, String, All, ◌≢◌, eq_iff, arith}
use adro.Prelude.Int.{pos, add64}
use adro.Prelude.Assoc.{lookup, lookup_or}
use adro.Prelude.Text.{trim_space, is_blank}
use adro.Orchestration.Value.{Value, usage_int64}
use adro.Orchestration.Predicate.{evaluate_predicate}
use adro.Orchestration.Projection.{
  AttemptStatus, RepairPlan, planned, dispatched, NodeAttempt, PlanProjection, TransitionInput,
  loop_exhausted,
}
use adro.Orchestration.Graph.{EdgeEvent}
use adro.Orchestration.Route.{route, node_definition, event_matches}
use adro.Orchestration.Route.Terminal.{HasSucceeded, succeeds_at_exit}
use adro.Orchestration.Repair.{
  set_repair_state, transition_allowed, advance_repair_attempt, append_unique, all_repairs_verified,
}
use adro.Orchestration.Repair.States.{IsHistory, set_repair_state-IsHistory}
use adro.Orchestration.Repair.Rounds.{RoundsAreBounded, rounds_stay_bounded}
use adro.Orchestration.Schedule.{ready_nodes_at, retry}
use adro.Orchestration.Schedule.Ready.{IsReady, ready_nodes_at-IsReady}
use adro.Orchestration.Schedule.Manual.{has_retryable, retry_misses_spaced_id}
use adro.Orchestration.Route.Loops.{HasLimit, IsWithin, loops_stay_bounded}
use adro.Orchestration.Finish.{finish_attempt, settle}
use adro.Orchestration.Finish.Guards.{IsAdmitted, IsCurrent, finish_is_guarded}
use adro.Orchestration.Finish.Lineage.{ended_attempts_stay}
use adro.Orchestration.Finish.Rollback.{IsKept, finish_error_keeps}
use adro.Orchestration.Finish.Usage.{usage_survives_rollback}
use adro.Tests.Data.{plan, attempt, reviewing, input, result, edge, at_node}

abbrev hash_of : TransitionInput → String
hash_of i = "payload"

abbrev spent : TransitionInput
spent = record (input "a2" "failure") {
  result = record (result "failure") { fields = ("tokens", Value.int (pos 30)) ∷ [] };
}

false≢true : false ≢ true
false≢true h = ground arith

limits : All (HasLimit "again" (pos 2)) plan.graph_snapshot.edges
limits = (other_id, (same_id, (third_id, tt)))
  where
    other_id : HasLimit "again" (pos 2) (edge "forward" "dev" "review" EdgeEvent.success (pos 0))
    other_id h = let e : false ≡ true = (eq_iff "forward" "again").1 h in absurd (false≢true e)

    same_id : HasLimit "again" (pos 2) (edge "again" "review" "dev" EdgeEvent.failure (pos 2))
    same_id h = refl

    third_id : HasLimit "again" (pos 2) (edge "done" "review" "report" EdgeEvent.success (pos 0))
    third_id h = let e : false ≡ true = (eq_iff "done" "again").1 h in absurd (false≢true e)

not_yet : ◌≢◌ {A = String} "" "succeeded"
not_yet h = let e : false ≡ true = (eq_iff "" "succeeded").1 h in absurd (false≢true e)

abbrev repair : RepairPlan
repair = record {
  id = "r1";
  plan_id = "plan";
  repair_node_id = "review";
  repair_attempt_id = "a2";
  repair_attempt_ids = "a2" ∷ [];
  target_node_id = "dev";
  verification_node_ids = "report" ∷ [];
  source_attempt_ids = [];
  scope = [];
  max_rounds = pos 2;
  round = pos 1;
  state = planned;
  state_history = planned ∷ [];
  target_attempt_id = "";
  verification_attempts = [];
  verified_nodes = [];
  patch_artifact_ids = [];
  verification_artifact_ids = [];
  last_reason_code = "";
}

abbrev repairing : PlanProjection
repairing = record (reviewing (pos 0)) {
  repair_plans =
      (
        "r1",
        record repair {
          state = dispatched;
          state_history = planned ∷ dispatched ∷ [];
          target_attempt_id = "a3";
        },
      )
      ∷ [];
}

abbrev repair_attempt : AttemptStatus → NodeAttempt
repair_attempt s = record (attempt "a3" "dev" s) {
  repair_state = dispatched;
  repair_plan_id = "r1";
}

abbrev failed_review : PlanProjection
failed_review = record (reviewing (pos 1)) {
  nodes = ("review", at_node "review" AttemptStatus.failed "a2") ∷ [];
}

finish_error_keeps_example :
    IsKept
      (reviewing (pos 2))
      (finish_attempt hash_of 500 plan "a2" (input "a2" "failure") (reviewing (pos 2))).0
unfolding finish_attempt lookup trim_space is_blank add64 usage_int64 node_definition route
    event_matches evaluate_predicate lookup_or
finish_error_keeps_example =
    finish_error_keeps hash_of 500 plan "a2" (input "a2" "failure") (reviewing (pos 2))
      {e = loop_exhausted} refl

-- The completion of the running review, which is sent back a second time.
finish_is_guarded_example :
    IsAdmitted plan
      (reviewing (pos 1))
      (attempt "a2" "review" AttemptStatus.running)
      (input "a2" "failure")
      500
    × IsCurrent
        (input "a2" "failure")
        (reviewing (pos 1))
        (attempt "a2" "review" AttemptStatus.running)
        "a2"
unfolding finish_attempt lookup trim_space is_blank add64 usage_int64 node_definition route
    event_matches evaluate_predicate lookup_or append_unique
finish_is_guarded_example =
    finish_is_guarded hash_of 500 plan "a2" (input "a2" "failure") (reviewing (pos 1))
      (attempt "a2" "review" AttemptStatus.running)
      (record (attempt "a2" "review" AttemptStatus.failed) {
        result = result "failure";
        finished_at = some 500;
      })
      refl refl refl

usage_survives_rollback_example :
    (settle 500 plan spent "a2" "finish" "payload"
      (at_node "review" AttemptStatus.running "a2")
      (reviewing (pos 2))
      (attempt "a2" "review" AttemptStatus.failed)).0.token_usage
    ≡ add64 (pos 20) (pos 30)
unfolding finish_attempt lookup trim_space is_blank add64 usage_int64 node_definition route
    event_matches evaluate_predicate lookup_or settle
usage_survives_rollback_example =
    usage_survives_rollback 500 plan spent "a2" "finish" "payload"
      (at_node "review" AttemptStatus.running "a2") (reviewing (pos 2))
      (attempt "a2" "review" AttemptStatus.failed) {e = loop_exhausted} refl

loops_stay_bounded_example :
    IsWithin "again"
      (pos 2)
      (route 500 plan
        (attempt "a2" "review" AttemptStatus.failed)
        (input "a2" "failure")
        (reviewing (pos 1))).0
unfolding finish_attempt lookup trim_space is_blank add64 usage_int64 node_definition route
    event_matches evaluate_predicate lookup_or
loops_stay_bounded_example =
    loops_stay_bounded "again" (pos 2) 500 plan (attempt "a2" "review" AttemptStatus.failed)
      (input "a2" "failure") (reviewing (pos 1)) refl limits refl refl

-- The report, the exit, has passed.
succeeds_at_exit_example :
    HasSucceeded plan (attempt "a3" "report" AttemptStatus.passed) (reviewing (pos 1))
unfolding finish_attempt lookup trim_space is_blank add64 usage_int64 node_definition route
    event_matches evaluate_predicate lookup_or all_repairs_verified
succeeds_at_exit_example =
    succeeds_at_exit 500 plan (attempt "a3" "report" AttemptStatus.passed) (input "a3" "success")
      (reviewing (pos 1)) not_yet refl

set_repair_state-IsHistory_example :
    IsHistory dispatched (planned ∷ dispatched ∷ [])
    × (dispatched ≡ dispatched)
    × (transition_allowed planned dispatched ≡ true)
unfolding set_repair_state
set_repair_state-IsHistory_example =
    set_repair_state-IsHistory repair
      (record repair { state = dispatched; state_history = planned ∷ dispatched ∷ [] }) dispatched
      (refl, tt, refl) refl

rounds_stay_bounded_example :
    RoundsAreBounded (advance_repair_attempt repairing (repair_attempt AttemptStatus.failed)).0
rounds_stay_bounded_example =
    rounds_stay_bounded repairing (repair_attempt AttemptStatus.failed)
      ((refl, ground arith, ground arith), tt)

ready_nodes_at-IsReady_example :
    All (IsReady plan (reviewing (pos 1)) 500) (ready_nodes_at plan (reviewing (pos 1)) 500)
ready_nodes_at-IsReady_example = ready_nodes_at-IsReady plan (reviewing (pos 1)) 500

-- A node ID with a space after it: the review is found, and another key is written.
-- The node is `review`.
retry_misses_spaced_id_example :
    (lookup "review" (retry failed_review "review ").0.nodes
      ≡ some (at_node "review" AttemptStatus.failed "a2"))
    × (is_none (retry failed_review "review ").1
        ≡ has_retryable (lookup (trim_space "review ") failed_review.nodes))
unfolding lookup
retry_misses_spaced_id_example =
    retry_misses_spaced_id failed_review "review " "review"
      (at_node "review" AttemptStatus.failed "a2") refl refl

-- The development has passed when the review is sent back to it.
ended_attempts_stay_example :
    lookup "a1"
      (finish_attempt hash_of 500 plan "a2" (input "a2" "failure") (reviewing (pos 1))).0.attempts
    ≡ some (attempt "a1" "dev" AttemptStatus.passed)
unfolding lookup
ended_attempts_stay_example =
    ended_attempts_stay hash_of 500 plan "a2" "a1" (input "a2" "failure") (reviewing (pos 1))
      (attempt "a1" "dev" AttemptStatus.passed) refl refl
