-- ===== src/Orchestration/Finish/Routed.antt =====
-- What the routing of a completion is given and leaves alone: internal/orchestration/transition.go.
use adro.Prelude.{
  ◌≡◌, refl, ◌∙◌, inl, inr, List, [], ◌∷◌, none, arith, String, Bool-cases, if◌then◌else◌,
}
use adro.Orchestration.Graph.{WorkflowEdge, WorkflowNode}
use adro.Orchestration.Projection.{
  Time, NodeAttempt, NodeProjection, PlanProjection, RequirementExecutionPlan, TransitionInput,
  now_or, is_setback,
}
use adro.Orchestration.Route.{route, Routed}
use adro.Orchestration.Route.Records.{records, records-route}
use adro.Orchestration.Finish.Checks.{result_usage}
use adro.Orchestration.Finish.Commit.{commit_attempt, open_join, short_circuit, is_routed}

records-open_join : (n : WorkflowNode) (p : PlanProjection) → records (open_join n p) ≡ records p
unfolding open_join records
records-open_join n p = ground arith

records-short_circuit :
    (ns : List WorkflowNode) (es : List WorkflowEdge) (a : NodeAttempt) (p : PlanProjection)
    → records (short_circuit ns es a p) ≡ records p
unfolding short_circuit
records-short_circuit [] es a p = refl
records-short_circuit (n ∷ ns) es a p =
    records-short_circuit ns es a _ ∙ ground (arith, records-open_join n p)

-- The projection that `settle` routes to, with an error or without.
unfoldable pub routed :
    Time
    → RequirementExecutionPlan
    → TransitionInput
    → String
    → String
    → String
    → NodeProjection
    → PlanProjection
    → NodeAttempt
    → Routed
routed clock plan i id key hash n before a =
    let written = commit_attempt before id key hash a n (result_usage i.result) in
    let joined =
      if is_setback a.status
      then short_circuit plan.graph_snapshot.nodes plan.graph_snapshot.edges a written
      else written in
    if is_routed a.status i.event
    then route clock plan a (record i { now = now_or clock i.now }) joined
    else (joined, none)

pub routed_records :
    (clock : Time) (plan : RequirementExecutionPlan) (i : TransitionInput) (id key hash : String)
    (n : NodeProjection) (before : PlanProjection) (a : NodeAttempt)
    → records (routed clock plan i id key hash n before a).0
      ≡ records (commit_attempt before id key hash a n (result_usage i.result))
unfolding routed
routed_records clock plan i id key hash n before a =
    let written = commit_attempt before id key hash a n (result_usage i.result) in
    let closed =
      records-short_circuit plan.graph_snapshot.nodes plan.graph_snapshot.edges a written in
    elim (Bool-cases (is_setback a.status)) [
      | inl setback ↦
          rw (routed, setback)
            (go (short_circuit plan.graph_snapshot.nodes plan.graph_snapshot.edges a written)
              ∙ closed)
      | inr onward ↦ rw (routed, onward) (go written)
    ]
  where
    go :
        (joined : PlanProjection)
        → records
            (if is_routed a.status i.event
              then route clock plan a (record i { now = now_or clock i.now }) joined
              else (joined, none)).0
          ≡ records joined
    go joined = elim (Bool-cases (is_routed a.status i.event)) [
      | inl yes_ ↦
          rw yes_ (records-route clock plan a (record i { now = now_or clock i.now }) joined)
      | inr no_ ↦ rw no_ refl
    ]
