-- ===== src/Orchestration/Route/Records.antt =====
-- What the routing leaves alone: internal/orchestration/transition.go.
use adro.Prelude.{
  ◌≡◌, refl, inl, inr, ◌∙◌, Bool, true, false, List, [], ◌∷◌, some, arith, String, Bool-cases,
}
use adro.Prelude.Int.{ℤ}
use adro.Prelude.Assoc.{Assoc}
use adro.Orchestration.Graph.{WorkflowEdge}
use adro.Orchestration.Projection.{
  Time, NodeAttempt, RepairPlan, PlanProjection, RequirementExecutionPlan, TransitionInput, now_or,
}
use adro.Orchestration.Route.Match.{Matched, match_edges, best_edge, edges, fails}
use adro.Orchestration.Route.Follow.{
  Routed, count_traversal, open_target, record_decision, fan_out, follow_edge,
}
use adro.Orchestration.Route.Take.{
  schedule_retry, leave_graph, strand, no_edge, take_edges, route, finish_plan, past_deadline,
}

-- Attempts, idempotency keys, repair plans and usage.
pub record Records : Type 0 where
  pub attempts : Assoc NodeAttempt
  pub idempotency : Assoc String
  pub repair_plans : Assoc RepairPlan
  pub token_usage : ℤ
  pub tool_calls : ℤ
  pub cost_cents : ℤ

unfoldable pub records : PlanProjection → Records
records p = record {
  attempts = p.attempts;
  idempotency = p.idempotency;
  repair_plans = p.repair_plans;
  token_usage = p.token_usage;
  tool_calls = p.tool_calls;
  cost_cents = p.cost_cents;
}

records-count_traversal :
    (p : PlanProjection) (e : WorkflowEdge) → records (count_traversal p e).0 ≡ records p
unfolding count_traversal records
records-count_traversal p e = ground arith

records-open_target :
    (clears : Bool) (p : PlanProjection) (e : WorkflowEdge)
    → records (open_target clears p e) ≡ records p
unfolding open_target records
records-open_target clears p e = ground arith

records-record_decision :
    (key reason : String) (p : PlanProjection) (plan : RequirementExecutionPlan) (a : NodeAttempt)
    (input : TransitionInput) (e : WorkflowEdge)
    → records (record_decision key reason p plan a input e) ≡ records p
unfolding record_decision records
records-record_decision key reason p plan a input e = ground arith

fan_out_records :
    (plan : RequirementExecutionPlan) (a : NodeAttempt) (input : TransitionInput)
    (es : List WorkflowEdge) (p : PlanProjection)
    → records (fan_out plan a input es p).0 ≡ records p
unfolding fan_out
fan_out_records plan a input [] p = refl
fan_out_records plan a input (e ∷ es) p = elim (Bool-cases (count_traversal p e).1) [
  | inl fits ↦ rw fits (
      fan_out_records plan a input es _
      ∙ records-record_decision _ _ (open_target true (count_traversal p e).0 e) plan a input e
      ∙ records-open_target true (count_traversal p e).0 e
      ∙ records-count_traversal p e)
  | inr full ↦ rw full (records-count_traversal p e)
]

records-follow_edge :
    (plan : RequirementExecutionPlan) (a : NodeAttempt) (input : TransitionInput)
    (p : PlanProjection) (e : WorkflowEdge)
    → records (follow_edge plan a input p e).0 ≡ records p
unfolding follow_edge
records-follow_edge plan a input p e = elim (Bool-cases (count_traversal p e).1) [
  | inl fits ↦ rw fits (
      records-record_decision _ _ (open_target false (count_traversal p e).0 e) plan a input e
      ∙ records-open_target false (count_traversal p e).0 e
      ∙ records-count_traversal p e)
  | inr full ↦ rw full (records-count_traversal p e)
]

records-no_edge :
    (plan : RequirementExecutionPlan) (a : NodeAttempt) (input : TransitionInput) (now : Time)
    (p : PlanProjection)
    → records (no_edge plan a input now p).0 ≡ records p
unfolding no_edge schedule_retry leave_graph strand finish_plan records
records-no_edge plan a input now p = ground arith

records-take_edges :
    (plan : RequirementExecutionPlan) (a : NodeAttempt) (input : TransitionInput) (now : Time)
    (p : PlanProjection) (es : List WorkflowEdge)
    → records (take_edges plan a input now p es).0 ≡ records p
unfolding take_edges
records-take_edges plan a input now p [] = records-no_edge plan a input now p
records-take_edges plan a input now p (e ∷ []) = records-follow_edge plan a input p e
records-take_edges plan a input now p (e ∷ f ∷ es) = ground (
  arith,
  fan_out_records plan a input (e ∷ f ∷ es) p,
  records-follow_edge plan a input p (best_edge e (f ∷ es)),
)

matched_records :
    (clock : Time) (plan : RequirementExecutionPlan) (a : NodeAttempt) (input : TransitionInput)
    (p : PlanProjection) (m : Matched)
    → records
        (elim m as (λ _. Routed) [
          | fails x ↦ (p, some x)
          | edges es ↦ take_edges plan a input (now_or clock input.now) p es
        ]).0
      ≡ records p
matched_records clock plan a input p (fails x) = refl
matched_records clock plan a input p (edges es) =
    records-take_edges plan a input (now_or clock input.now) p es

pub records-route :
    (clock : Time) (plan : RequirementExecutionPlan) (a : NodeAttempt) (input : TransitionInput)
    (p : PlanProjection)
    → records (route clock plan a input p).0 ≡ records p
unfolding route finish_plan records past_deadline
records-route clock plan a input p = elim (Bool-cases (past_deadline a)) [
  | inl past ↦ rw (route, past) refl
  | inr before ↦
      rw (route, before)
        (matched_records clock plan a input p (match_edges plan.graph_snapshot.edges a input.event))
]
