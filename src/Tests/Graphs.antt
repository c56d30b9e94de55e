-- ===== src/Tests/Graphs.antt =====
-- A concrete graph and the projection of its plan: internal/orchestration.
use adro.Prelude.{◌≡◌, refl, true, false, none, some, [], ◌∷◌, String}
use adro.Prelude.Int.{pos, add64}
use adro.Prelude.Text.{trim_space, is_blank}
use adro.Prelude.Assoc.{lookup, lookup_or, insert}
use adro.Orchestration.Graph.{WorkflowNode, EdgeEvent}
use adro.Orchestration.Projection.{AttemptStatus, PlanProjection, RequirementExecutionPlan}
use adro.Orchestration.Predicate.{validate_predicate, evaluate_predicate}
use adro.Orchestration.Paths.{outgoing}
use adro.Orchestration.Value.{usage_int64}
use adro.Orchestration.Finish.{finish_attempt}
use adro.Orchestration.Route.{route, node_definition, event_matches}
use adro.Orchestration.Validate.{validate_graph}
use adro.Orchestration.Validate.Loops.{LoopsAreBounded, valid_graph_bounds_loops}
use adro.Orchestration.Stored.{new_projection, validate_projection, fresh_projection}
use adro.Orchestration.Stored.Fresh.{new_projection-validate_projection}
use adro.Tests.Data.{graph, plan, agent_node, attempt, edge, reviewing, input}

abbrev staffed : String → WorkflowNode
staffed id = record (agent_node id) {
  agent_ref = some (record { id = "coder"; revision = pos 1; version = pos 0 });
}

abbrev sound_plan : RequirementExecutionPlan
sound_plan = record plan {
  graph_snapshot = record graph {
    nodes = staffed "dev" ∷ staffed "review" ∷ staffed "report" ∷ [];
  };
}

sound : validate_graph sound_plan.graph_snapshot ≡ true
unfolding validate_graph is_blank validate_predicate outgoing lookup_or insert
sound = refl

-- Two edges have one ID.
refuses :
    validate_graph (record sound_plan.graph_snapshot {
      edges =
          edge "again" "review" "dev" EdgeEvent.failure (pos 0) ∷ sound_plan.graph_snapshot.edges;
    })
    ≡ false
unfolding validate_graph is_blank validate_predicate outgoing lookup_or insert
refuses = refl

-- The loop back to development has no limit.
turns :
    validate_graph (record sound_plan.graph_snapshot {
      edges =
          edge "forward" "dev" "review" EdgeEvent.success (pos 0)
          ∷ edge "again" "review" "dev" EdgeEvent.failure (pos 0)
          ∷ edge "done" "review" "report" EdgeEvent.success (pos 0)
          ∷ [];
    })
    ≡ false
unfolding validate_graph is_blank validate_predicate outgoing lookup_or insert
turns = refl

abbrev start : PlanProjection
start = fresh_projection sound_plan

starts : new_projection sound_plan ≡ some start
unfolding new_projection is_blank validate_predicate outgoing lookup_or insert
starts = refl

new_projection-validate_projection_example :
    (validate_projection start ≡ true) × (validate_graph sound_plan.graph_snapshot ≡ true)
new_projection-validate_projection_example =
    new_projection-validate_projection sound_plan start starts

within : LoopsAreBounded sound_plan.graph_snapshot (reviewing (pos 1))
unfolding lookup_or
within = (λ h. refl, (λ h. refl, (λ h. refl, tt)))

routes :
    (route 500 sound_plan
      (attempt "a2" "review" AttemptStatus.failed)
      (input "a2" "failure")
      (reviewing (pos 1))).1
    ≡ none
unfolding finish_attempt lookup trim_space is_blank add64 usage_int64 node_definition route
    event_matches evaluate_predicate lookup_or
routes = refl

valid_graph_bounds_loops_example :
    LoopsAreBounded sound_plan.graph_snapshot
      (route 500 sound_plan
        (attempt "a2" "review" AttemptStatus.failed)
        (input "a2" "failure")
        (reviewing (pos 1))).0
valid_graph_bounds_loops_example =
    valid_graph_bounds_loops 500 sound_plan (attempt "a2" "review" AttemptStatus.failed)
      (input "a2" "failure") (reviewing (pos 1)) sound within routes
