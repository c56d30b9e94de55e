-- ===== src/Orchestration/Schedule.antt =====
-- Readiness and manual transitions: internal/orchestration/scheduler.go, without `Tick`, which drives
-- the executor.
pub mod Ready
pub mod Manual
use adro.Prelude.{
  ℕ, zero, suc, ◌+◌, Bool, true, false, ◌&&◌, ◌||◌, not, String, str_eq, List, [], ◌∷◌, ◌++◌,
  Option, none, some, if◌then◌else◌, any, is_empty, length, keep, ◌==◌, ltb,
}
use Prim.Native.Nat.{◌/◌, Ordering}
use Prim.Native.String.{compare}
use adro.Prelude.Int.{ℤ, pos, ltb_ℤ, leb_ℤ, add64, is_pos}
use adro.Prelude.Assoc.{lookup, lookup_or, insert}
use adro.Prelude.Text.{trim_space, ◌<>◌, text_lt}
use adro.Orchestration.Graph.{JoinPolicy, EdgeEvent, WorkflowNode, WorkflowEdge}
use adro.Orchestration.Paths.{same_event}
use adro.Orchestration.Projection.{
  Time, AttemptStatus, PlanStatus, FailureReason, NodeAttempt, NodeProjection, zero_projection,
  PlanProjection, RequirementExecutionPlan, TransitionInput, Error, stale_attempt,
  invalid_transition, unknown_node, owner_required, Result, ok, err, same_status, is_setback,
  now_or,
}
use adro.Orchestration.Finish.{edge_satisfied, finish_attempt, Finished}

-- The edges into a node, in the graph's order.
unfoldable pub incoming : List WorkflowEdge → String → List WorkflowEdge
incoming es id = keep (λ e. str_eq e.target id) es

-- The current attempt of an edge's source, if there is one.
unfoldable pub source_attempt : PlanProjection → WorkflowEdge → Option NodeAttempt
source_attempt p e =
    let s = lookup_or zero_projection e.from p.nodes in
    if str_eq s.current_attempt "" then none else lookup s.current_attempt p.attempts

-- The source of the edge has failed, timed out or been cancelled.
unfoldable pub source_failed : PlanProjection → WorkflowEdge → Bool
unfolding is_setback
source_failed p e = is_setback (lookup_or zero_projection e.from p.nodes).status

-- The edge's branch has passed.
unfoldable pub branch_passed : PlanProjection → WorkflowEdge → Bool
unfolding source_attempt edge_satisfied
branch_passed p e = elim (source_attempt p e) [ none ↦ false | some a ↦ edge_satisfied e a ]

-- A satisfied edge of an attempt that did not pass, which is no success edge.
unfoldable pub branch_short_circuits : PlanProjection → WorkflowEdge → Bool
unfolding source_attempt edge_satisfied same_status same_event
branch_short_circuits p e = elim (source_attempt p e) [
  | none ↦ false
  | some a ↦
      edge_satisfied e a
      && not (same_status a.status AttemptStatus.passed)
      && not (same_event e.on EdgeEvent.success)
]

quorum_need : ℤ → ℕ → ℤ
quorum_need q n = if leb_ℤ q (pos 0) then pos (n / 2 + 1) else q

-- The branches that a join policy asks for, of `n`.
unfoldable pub join_need : JoinPolicy → ℤ → ℕ → ℤ
unfolding quorum_need
join_need JoinPolicy.all q n = pos n
join_need JoinPolicy.quorum q n = quorum_need q n
join_need _ q n = pos 1

unfoldable pub is_short_circuited : PlanProjection → WorkflowNode → List WorkflowEdge → Bool
unfolding source_failed branch_short_circuits
is_short_circuited p n es =
    str_eq n.join_failure_policy "short_circuit"
    && any (source_failed p) es
    && any (branch_short_circuits p) es

-- The retry time is still to come.
unfoldable pub in_backoff : NodeProjection → Time → Bool
in_backoff s now = elim s.retry_at [ none ↦ false | some t ↦ ltb now t ]

-- The body of the loop of `readyNodesAt`, for one node.
unfoldable pub node_ready : RequirementExecutionPlan → PlanProjection → Time → WorkflowNode → Bool
unfolding incoming branch_passed join_need is_short_circuited in_backoff same_status
node_ready plan p now n =
    let s = lookup_or zero_projection n.id p.nodes in
    let es = incoming plan.graph_snapshot.edges n.id in
    if not (same_status s.status AttemptStatus.ready)
    then false
    else if in_backoff s now
    then false
    else if is_empty es
    then true
    else if is_short_circuited p n es
    then true
    else leb_ℤ (join_need n.join_policy n.join_quorum (length es))
        (pos (length (keep (branch_passed p) es)))

insert_node : WorkflowNode → List WorkflowNode → List WorkflowNode
unfolding text_lt
insert_node n [] = n ∷ []
insert_node n (m ∷ ms) = if text_lt m.id n.id then m ∷ insert_node n ms else n ∷ m ∷ ms

-- `sort.Slice` by ID. The IDs are those of a map's keys, so they differ and the order is unique.
unfoldable pub sort_nodes : List WorkflowNode → List WorkflowNode
unfolding insert_node
sort_nodes [] = []
sort_nodes (n ∷ ns) = insert_node n (sort_nodes ns)

-- The map from IDs to nodes: of two nodes with one ID the later stays.
unfoldable pub distinct_nodes : List WorkflowNode → List WorkflowNode
distinct_nodes [] = []
distinct_nodes (n ∷ ns) =
    let rest = distinct_nodes ns in if any (λ m. str_eq m.id n.id) ns then rest else n ∷ rest

-- `ReadyNodesAt`
unfoldable pub ready_nodes_at : RequirementExecutionPlan → PlanProjection → Time → List WorkflowNode
unfolding node_ready sort_nodes distinct_nodes
ready_nodes_at plan p now =
    sort_nodes (keep (node_ready plan p now) (distinct_nodes plan.graph_snapshot.nodes))

-- `limitForStructural`
unfoldable pub limit_for_structural : RequirementExecutionPlan → ℤ → ℤ
limit_for_structural plan configured =
    let limit =
      if leb_ℤ configured (pos 0) then pos (length plan.graph_snapshot.nodes) else configured in
    let budget = plan.policy_snapshot.budget.concurrent in
    if is_pos budget && ltb_ℤ budget limit then budget else limit

reopened : PlanStatus → PlanStatus
reopened PlanStatus.terminal = PlanStatus.running
reopened s = s

-- `Retry`. The node is looked up by the trimmed ID and written back under the ID as it was given.
unfoldable pub retry : PlanProjection → String → PlanProjection × Option Error
unfolding same_status reopened
retry p node_id = elim (lookup (trim_space node_id) p.nodes) [
  | none ↦ (p, some unknown_node)
  | some n ↦
      if not (same_status n.status AttemptStatus.failed)
        && not (same_status n.status AttemptStatus.timed_out)
      then (p, some invalid_transition)
      else (
        record p {
          nodes = insert node_id (record n { status = AttemptStatus.ready }) p.nodes;
          status = reopened p.status;
        },
        none,
      )
]

abbrev pub error_of {ℓ} : {A : Type ℓ} → Result A → Option Error
error_of (ok a) = none
error_of (err e) = some e

abbrev pub closing_input :
    ℤ → String → ℤ → String → String → String → String → FailureReason → Time → TransitionInput
closing_input revision id token event outcome summary evidence failure now = record {
  plan_revision = revision;
  attempt_id = id;
  lease_token = token;
  event = event;
  result = record {
    outcome = outcome;
    reason_code = "";
    fields = [];
    summary = summary;
    evidence_ids = evidence ∷ [];
  };
  failure = some failure;
  output_artifacts = [];
  idempotency_key = "";
  payload_hash = "";
  now = now;
}

module _ (payload_hash : TransitionInput → String) (clock : Time)
    (plan : RequirementExecutionPlan) where
  -- `Cancel`
  unfoldable pub cancel : String → ℤ → String → PlanProjection → Finished
  unfolding finish_attempt
  cancel id token reason p =
      finish_attempt payload_hash clock plan id
        (closing_input plan.revision id token "cancel" "cancelled" reason ("cancel:" <> id)
          (record { code = "cancelled"; message = reason; retryable = false }) 0)
        p

  -- `Timeout`
  unfoldable pub timeout : String → ℤ → String → PlanProjection → Finished
  unfolding finish_attempt
  timeout id token reason p =
      finish_attempt payload_hash clock plan id
        (closing_input plan.revision id token "timeout" "timeout" reason ("timeout:" <> id)
          (record { code = "timeout"; message = reason; retryable = true }) 0)
        p

  -- The attempt that a takeover has fenced: a new owner, token and expiry.
  unfoldable pub fenced : NodeAttempt → String → Time → NodeAttempt
  fenced a owner now = record a {
    lease = record a.lease {
      owner = owner;
      fencing_token = add64 a.lease.fencing_token (pos 1);
      expires_at = now + 900000000000;
    };
  }

  -- `TakeOver`
  unfoldable pub take_over : String → String → Time → PlanProjection → PlanProjection × Option Error
  unfolding fenced finish_attempt same_status
  take_over id owner now p = elim (lookup id p.attempts) [
    | none ↦ (p, some stale_attempt)
    | some a ↦
        if not (same_status a.status AttemptStatus.running)
        then (p, some invalid_transition)
        else if str_eq owner ""
        then (p, some owner_required)
        else (let at = now_or clock now in
            let b = fenced a owner at in
            let done =
              finish_attempt payload_hash clock plan id
                (closing_input plan.revision "" b.lease.fencing_token "timeout" "timeout"
                  "human takeover" ("human-takeover:" <> id)
                  (record {
                    code = "human_takeover";
                    message = "attempt taken over";
                    retryable = true;
                  })
                  at)
                (record p { attempts = insert id b p.attempts }) in
            (done.0, error_of done.1))
  ]
