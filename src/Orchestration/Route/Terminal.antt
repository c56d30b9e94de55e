-- ===== src/Orchestration/Route/Terminal.antt =====
-- When a plan has succeeded: the end of `route`, internal/orchestration/transition.go.
use adro.Prelude.{
  eq_iff, ◌≡◌, ◌≢◌, refl, sym, ◌∙◌, inl, inr, Bool, true, false, List, [], ◌∷◌, some, arith, String,
  Bool-cases, is_empty,
}
use adro.Orchestration.Graph.{WorkflowEdge, WorkflowNode}
use adro.Orchestration.Paths.{member}
use adro.Orchestration.Projection.{
  Time, AttemptStatus, NodeAttempt, PlanProjection, RequirementExecutionPlan, TransitionInput,
  now_or,
}
use adro.Orchestration.Repair.{all_repairs_verified}
use adro.Orchestration.Route.Match.{Matched, match_edges, best_edge, edges, fails}
use adro.Orchestration.Route.Follow.{
  Routed, count_traversal, open_target, record_decision, fan_out, follow_edge,
}
use adro.Orchestration.Route.Take.{
  schedule_retry, leave_graph, strand, no_edge, take_edges, route, finish_plan, has_retry,
  past_deadline, exit_outcome, node_definition,
}

-- What a plan that has just succeeded has behind it.
pub record HasSucceeded (plan : RequirementExecutionPlan) (a : NodeAttempt) (p : PlanProjection)
    : Type 0 where
  pub passed : a.status ≡ AttemptStatus.passed
  pub exit : member a.node_id plan.graph_snapshot.exit_node_ids ≡ true
  pub evidence : is_empty a.result.evidence_ids ≡ false
  pub verified : all_repairs_verified p ≡ true

count_traversal_outcome :
    (p : PlanProjection) (e : WorkflowEdge)
    → (count_traversal p e).0.terminal_outcome ≡ p.terminal_outcome
unfolding count_traversal
count_traversal_outcome p e = ground arith

follow_outcome :
    (key reason : String) (clears : Bool) (p : PlanProjection) (plan : RequirementExecutionPlan)
    (a : NodeAttempt) (input : TransitionInput) (e : WorkflowEdge)
    → (record_decision key reason (open_target clears p e) plan a input e).terminal_outcome
      ≡ p.terminal_outcome
unfolding record_decision open_target
follow_outcome key reason clears p plan a input e = ground arith

fan_out_outcome :
    (plan : RequirementExecutionPlan) (a : NodeAttempt) (input : TransitionInput)
    (es : List WorkflowEdge) (p : PlanProjection)
    → (fan_out plan a input es p).0.terminal_outcome ≡ p.terminal_outcome
unfolding fan_out
fan_out_outcome plan a input [] p = refl
fan_out_outcome plan a input (e ∷ es) p = elim (Bool-cases (count_traversal p e).1) [
  | inl fits ↦ rw fits (
      fan_out_outcome plan a input es _
      ∙ follow_outcome _ _ true (count_traversal p e).0 plan a input e
      ∙ count_traversal_outcome p e)
  | inr full ↦ rw full (count_traversal_outcome p e)
]

follow_edge_outcome :
    (plan : RequirementExecutionPlan) (a : NodeAttempt) (input : TransitionInput)
    (p : PlanProjection) (e : WorkflowEdge)
    → (follow_edge plan a input p e).0.terminal_outcome ≡ p.terminal_outcome
unfolding follow_edge
follow_edge_outcome plan a input p e = elim (Bool-cases (count_traversal p e).1) [
  | inl fits ↦ rw fits (
      follow_outcome _ _ false (count_traversal p e).0 plan a input e ∙ count_traversal_outcome p e)
  | inr full ↦ rw full (count_traversal_outcome p e)
]

failed≢succeeded : ◌≢◌ {A = String} "failed" "succeeded"
failed≢succeeded e = let h : false ≡ true = (eq_iff "failed" "succeeded").1 e in ground arith

timed_out≢succeeded : ◌≢◌ {A = String} "timed_out" "succeeded"
timed_out≢succeeded e = let h : false ≡ true = (eq_iff "timed_out" "succeeded").1 e in ground arith

cancelled≢succeeded : ◌≢◌ {A = String} "cancelled" "succeeded"
cancelled≢succeeded e = let h : false ≡ true = (eq_iff "cancelled" "succeeded").1 e in ground arith

exit_outcome_lem : (s : AttemptStatus) → exit_outcome s ≡ "succeeded" → s ≡ AttemptStatus.passed
unfolding exit_outcome
exit_outcome_lem s h = ground (arith, failed≢succeeded, timed_out≢succeeded, cancelled≢succeeded)

leave_graph_lem :
    (a : NodeAttempt) (p : PlanProjection)
    → p.terminal_outcome ≢ "succeeded"
    → (leave_graph p a).0.terminal_outcome ≡ "succeeded"
    → (a.status ≡ AttemptStatus.passed)
      × (is_empty a.result.evidence_ids ≡ false)
      × (all_repairs_verified p ≡ true)
unfolding leave_graph finish_plan
leave_graph_lem a p k h = ground (arith, exit_outcome_lem a.status, failed≢succeeded)

strand_lem :
    (s : AttemptStatus) (p : PlanProjection)
    → p.terminal_outcome ≢ "succeeded"
    → (strand s p).terminal_outcome ≢ "succeeded"
unfolding strand finish_plan
strand_lem s p k h = ground (arith, failed≢succeeded, timed_out≢succeeded, cancelled≢succeeded)

schedule_retry_outcome :
    (p : PlanProjection) (n : WorkflowNode) (a : NodeAttempt) (now : Time)
    → (schedule_retry p n a now).terminal_outcome ≡ p.terminal_outcome
unfolding schedule_retry
schedule_retry_outcome p n a now = refl

no_edge-HasSucceeded :
    (plan : RequirementExecutionPlan) (a : NodeAttempt) (input : TransitionInput) (now : Time)
    (p : PlanProjection)
    → p.terminal_outcome ≢ "succeeded"
    → (no_edge plan a input now p).0.terminal_outcome ≡ "succeeded"
    → HasSucceeded plan a p
unfolding no_edge
no_edge-HasSucceeded plan a input now p k h =
    let n = node_definition plan.graph_snapshot a.node_id in
    elim (Bool-cases (has_retry n a input)) [
      | inl again ↦ absurd (k (sym (schedule_retry_outcome p n a now) ∙ rw (no_edge, again) at h))
      | inr done ↦ elim (Bool-cases (member a.node_id plan.graph_snapshot.exit_node_ids)) [
        | inl out ↦
            (let facts = leave_graph_lem a p k (rw (no_edge, done, out) at h) in
              record { passed = facts.0; exit = out; evidence = facts.1; verified = facts.2 })
        | inr inside ↦ absurd (strand_lem a.status p k (rw (no_edge, done, inside) at h))
      ]
    ]

take_edges-HasSucceeded :
    (plan : RequirementExecutionPlan) (a : NodeAttempt) (input : TransitionInput) (now : Time)
    (p : PlanProjection) (es : List WorkflowEdge)
    → p.terminal_outcome ≢ "succeeded"
    → (take_edges plan a input now p es).0.terminal_outcome ≡ "succeeded"
    → HasSucceeded plan a p
unfolding take_edges
take_edges-HasSucceeded plan a input now p [] k h = no_edge-HasSucceeded plan a input now p k h
take_edges-HasSucceeded plan a input now p (e ∷ []) k h =
    absurd (k (sym (follow_edge_outcome plan a input p e) ∙ h))
take_edges-HasSucceeded plan a input now p (e ∷ f ∷ es) k h = absurd (
    ground (
      arith,
      fan_out_outcome plan a input (e ∷ f ∷ es) p,
      follow_edge_outcome plan a input p (best_edge e (f ∷ es)),
    ))

matched-HasSucceeded :
    (clock : Time) (plan : RequirementExecutionPlan) (a : NodeAttempt) (input : TransitionInput)
    (p : PlanProjection) (m : Matched)
    → p.terminal_outcome ≢ "succeeded"
    → (elim m as (λ _. Routed) [
      | fails x ↦ (p, some x)
      | edges es ↦ take_edges plan a input (now_or clock input.now) p es
    ]).0.terminal_outcome
      ≡ "succeeded"
    → HasSucceeded plan a p
matched-HasSucceeded clock plan a input p (fails x) k h = absurd (k h)
matched-HasSucceeded clock plan a input p (edges es) k h =
    take_edges-HasSucceeded plan a input (now_or clock input.now) p es k h

-- Routing gives the outcome "succeeded" to a plan that had another only for a passed attempt of an
-- exit node, with evidence, when the nodes of every repair plan have been verified.
pub succeeds_at_exit :
    (clock : Time) (plan : RequirementExecutionPlan) (a : NodeAttempt) (input : TransitionInput)
    (p : PlanProjection)
    → p.terminal_outcome ≢ "succeeded"
    → (route clock plan a input p).0.terminal_outcome ≡ "succeeded"
    → HasSucceeded plan a p
unfolding route finish_plan
succeeds_at_exit clock plan a input p k h = elim (Bool-cases (past_deadline a)) [
  | inl past ↦ absurd (timed_out≢succeeded (rw (route, past) at h))
  | inr before ↦
      matched-HasSucceeded clock plan a input p
        (match_edges plan.graph_snapshot.edges a input.event) k (rw (route, before) at h)
]
