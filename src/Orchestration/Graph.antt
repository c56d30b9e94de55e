-- ===== src/Orchestration/Graph.antt =====
-- Workflow graphs: the types of internal/orchestration/model.go.
use adro.Prelude.{Bool, false, String, List, [], Option, none}
use adro.Prelude.Int.{ℤ, pos}
use adro.Orchestration.Predicate.{Predicate, no_predicate}

pub record SchemaRef : Type 0 where
  pub id : String
  pub version : ℤ

pub record VersionedRef : Type 0 where
  pub id : String
  pub revision : ℤ
  pub version : ℤ

-- `duration` counts nanoseconds.
pub record Budget : Type 0 where
  pub tokens : ℤ
  pub tool_calls : ℤ
  pub cost_cents : ℤ
  pub duration : ℤ
  pub concurrent : ℤ

pub record ToolPolicy : Type 0 where
  pub allowed : List String
  pub denied : List String
  pub network : Bool
  pub secret_scopes : List String

pub data NodeKind : Type 0 where
  agent squad gate human merge repair : NodeKind
  unknown : String → NodeKind

pub data JoinPolicy : Type 0 where
  all quorum first_success unset : JoinPolicy
  unknown : String → JoinPolicy

pub record ContextPolicy : Type 0 where
  pub is_required : List String
  pub is_optional : List String
  pub max_tokens : ℤ

pub record RetryPolicy : Type 0 where
  pub max_attempts : ℤ
  pub backoff : ℤ
  pub retry_on : List String

pub record GatePolicy : Type 0 where
  pub predicate : Predicate
  pub required_evidence : List String
  pub failure_code : String

pub record MergePolicy : Type 0 where
  pub conflict_policy : String
  pub key_fields : List String
  pub require_evidence : Bool

pub record RepairPolicy : Type 0 where
  pub target_node_id : String
  pub scope : List String
  pub verification_node_ids : List String
  pub max_rounds : ℤ
  pub budget : Budget

pub data EdgeEvent : Type 0 where
  success failure timeout approval bug cancel : EdgeEvent
  unknown : String → EdgeEvent

pub record WorkflowNode : Type 0 where
  pub id : String
  pub kind : NodeKind
  pub agent_ref : Option VersionedRef
  pub squad_ref : Option VersionedRef
  pub input_contract : SchemaRef
  pub output_contract : SchemaRef
  pub context_policy : ContextPolicy
  pub tool_policy : ToolPolicy
  pub retry_policy : RetryPolicy
  pub timeout : ℤ
  pub budget : Budget
  pub join_policy : JoinPolicy
  pub join_quorum : ℤ
  pub join_failure_policy : String
  pub gate_policy : GatePolicy
  pub merge_policy : MergePolicy
  pub repair_policy : RepairPolicy

pub record WorkflowEdge : Type 0 where
  pub id : String
  pub from : String
  pub target : String
  pub on : EdgeEvent
  pub predicate : Predicate
  pub priority : ℤ
  pub max_traversals : ℤ
  pub required_evidence : List String
  pub loop_group : String
  pub fan_out : Bool

pub record WorkflowGraph : Type 0 where
  pub id : String
  pub version : ℤ
  pub entry_node_ids : List String
  pub exit_node_ids : List String
  pub nodes : List WorkflowNode
  pub edges : List WorkflowEdge
  pub validation_digest : String

abbrev pub zero_budget : Budget
zero_budget = record {
  tokens = pos 0;
  tool_calls = pos 0;
  cost_cents = pos 0;
  duration = pos 0;
  concurrent = pos 0;
}

-- `WorkflowNode{}`
abbrev pub zero_node : WorkflowNode
zero_node = record {
  id = "";
  kind = NodeKind.unknown "";
  agent_ref = none;
  squad_ref = none;
  input_contract = record { id = ""; version = pos 0 };
  output_contract = record { id = ""; version = pos 0 };
  context_policy = record { is_required = []; is_optional = []; max_tokens = pos 0 };
  tool_policy = record { allowed = []; denied = []; network = false; secret_scopes = [] };
  retry_policy = record { max_attempts = pos 0; backoff = pos 0; retry_on = [] };
  timeout = pos 0;
  budget = zero_budget;
  join_policy = JoinPolicy.unset;
  join_quorum = pos 0;
  join_failure_policy = "";
  gate_policy = record { predicate = no_predicate; required_evidence = []; failure_code = "" };
  merge_policy = record { conflict_policy = ""; key_fields = []; require_evidence = false };
  repair_policy = record {
    target_node_id = "";
    scope = [];
    verification_node_ids = [];
    max_rounds = pos 0;
    budget = zero_budget;
  };
}
