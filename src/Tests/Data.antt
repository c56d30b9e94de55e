-- ===== src/Tests/Data.antt =====
-- An execution plan of three nodes, with a bounded loop from its review back to its development.
use adro.Prelude.{false, [], ◌∷◌, none, some, String}
use adro.Prelude.Int.{ℤ, pos}
use adro.Orchestration.Predicate.{no_predicate}
use adro.Orchestration.Graph.{
  WorkflowGraph, WorkflowNode, WorkflowEdge, zero_node, zero_budget, EdgeEvent, JoinPolicy,
  NodeKind,
}
use adro.Orchestration.Projection.{
  AttemptStatus, PlanStatus, RepairLifecycle, NodeAttempt, NodeProjection, zero_projection,
  PlanProjection, RequirementExecutionPlan, TransitionInput, StructuredResult,
}

abbrev pub agent_node : String → WorkflowNode
agent_node id = record zero_node { id = id; kind = NodeKind.agent; join_policy = JoinPolicy.all }

abbrev pub edge : String → String → String → EdgeEvent → ℤ → WorkflowEdge
edge id from target on limit = record {
  id = id;
  from = from;
  target = target;
  on = on;
  predicate = no_predicate;
  priority = pos 0;
  max_traversals = limit;
  required_evidence = [];
  loop_group = "";
  fan_out = false;
}

abbrev pub graph : WorkflowGraph
graph = record {
  id = "graph";
  version = pos 1;
  entry_node_ids = "dev" ∷ [];
  exit_node_ids = "report" ∷ [];
  nodes = agent_node "dev" ∷ agent_node "review" ∷ agent_node "report" ∷ [];
  edges =
      edge "forward" "dev" "review" EdgeEvent.success (pos 0)
      ∷ edge "again" "review" "dev" EdgeEvent.failure (pos 2)
      ∷ edge "done" "review" "report" EdgeEvent.success (pos 0)
      ∷ [];
  validation_digest = "digest";
}

abbrev pub plan : RequirementExecutionPlan
plan = record {
  id = "plan";
  requirement_id = "req";
  workspace_id = "ws";
  graph_snapshot = graph;
  selected_ref = record { id = "squad"; revision = pos 1; version = pos 1 };
  policy_snapshot = record {
    digest = "policy";
    tool_policy = zero_node.tool_policy;
    budget = record zero_budget { tokens = pos 1000 };
    captured_at = 1;
  };
  context_root = record { session_id = "s"; manifest_digest = "m"; replay_key = "k" };
  plan_hash = "hash";
  status = PlanStatus.running;
  revision = pos 1;
  idempotency_key = "key";
  deadline = 0;
  created_at = 1;
  parent_plan_id = "";
  parent_attempt_id = "";
}

abbrev pub result : String → StructuredResult
result outcome = record {
  outcome = outcome;
  reason_code = "";
  fields = [];
  summary = "";
  evidence_ids = "log" ∷ [];
}

abbrev pub attempt : String → String → AttemptStatus → NodeAttempt
attempt id node status = record {
  id = id;
  plan_id = "plan";
  node_id = node;
  attempt_no = pos 1;
  run_id = "run";
  session_id = "s";
  work_dir = "/w";
  lease = record { key = "lease"; owner = "worker"; fencing_token = pos 7; expires_at = 1000 };
  idempotency_key = "start";
  input_manifest = record {
    session_id = "s";
    manifest_digest = "m";
    token_budget = pos 100;
    token_estimate = pos 10;
    selection_digest = "d";
    replay_key = "k";
  };
  output_artifacts = [];
  result = result "";
  repair_state = RepairLifecycle.unset;
  repair_plan_id = "";
  status = status;
  failure_reason = none;
  parent_attempt_id = "";
  retry_of = "";
  child_plan_id = "";
  started_at = some 10;
  finished_at = none;
}

abbrev pub at_node : String → AttemptStatus → String → NodeProjection
at_node node status current = record zero_projection {
  node_id = node;
  status = status;
  current_attempt = current;
  attempt_no = pos 1;
}

-- The review runs; it has been sent back to development `loops` times.
abbrev pub reviewing : ℤ → PlanProjection
reviewing loops = record {
  plan_id = "plan";
  revision = pos 1;
  status = PlanStatus.running;
  terminal_outcome = "";
  nodes =
      ("dev", at_node "dev" AttemptStatus.passed "a1")
      ∷ ("review", at_node "review" AttemptStatus.running "a2")
      ∷ ("report", at_node "report" AttemptStatus.pending "")
      ∷ [];
  attempts =
      ("a1", attempt "a1" "dev" AttemptStatus.passed)
      ∷ ("a2", attempt "a2" "review" AttemptStatus.running)
      ∷ [];
  traversals = ("again", loops) ∷ [];
  decisions = [];
  repair_plans = [];
  idempotency = [];
  token_usage = pos 20;
  tool_calls = pos 0;
  cost_cents = pos 0;
}

abbrev pub input : String → String → TransitionInput
input id event = record {
  plan_revision = pos 1;
  attempt_id = id;
  lease_token = pos 7;
  event = event;
  result = result event;
  failure = none;
  output_artifacts = [];
  idempotency_key = "finish";
  payload_hash = "payload";
  now = 500;
}
