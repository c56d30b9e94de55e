-- ===== src/Orchestration/Finish/Usage.antt =====
-- The usage after an error of the routing: internal/orchestration/transition.go.
use adro.Prelude.{◌≡◌, ap, none, some, String}
use adro.Prelude.Int.{ℤ, add64}
use adro.Orchestration.Projection.{
  Time, NodeAttempt, NodeProjection, PlanProjection, RequirementExecutionPlan, TransitionInput, ok,
  err, Error, now_or,
}
use adro.Orchestration.Route.{Routed}
use adro.Orchestration.Route.Records.{records}
use adro.Orchestration.Finish.Checks.{result_usage}
use adro.Orchestration.Finish.Contract.{stamp}
use adro.Orchestration.Finish.Commit.{commit_attempt, roll_back, note_reason, Finished, settle}
use adro.Orchestration.Finish.Routed.{routed, routed_records}

answered_usage :
    (before : PlanProjection) (id key : String) (a : NodeAttempt) (r : Routed) (used : ℤ)
    {e : Error}
    → r.0.token_usage ≡ used
    → (elim r.1 as (λ _. Finished) [
      | some x ↦ (roll_back before r.0 id key a, err x)
      | none ↦ (note_reason a r.0, ok a)
    ]).1
      ≡ err e
    → (elim r.1 as (λ _. Finished) [
      | some x ↦ (roll_back before r.0 id key a, err x)
      | none ↦ (note_reason a r.0, ok a)
    ]).0.token_usage
      ≡ used
unfolding roll_back
answered_usage before id key a (q, some x) used same f = same
answered_usage before id key a (q, none) used same f = cc

-- Where the routing fails, the rollback keeps the tokens of the rejected completion: the plan's usage
-- is what it was before with the tokens of the result added.
pub usage_survives_rollback :
    (clock : Time) (plan : RequirementExecutionPlan) (i : TransitionInput) (id key hash : String)
    (n : NodeProjection) (before : PlanProjection) (prepared : NodeAttempt) {e : Error}
    → (settle clock plan i id key hash n before prepared).1 ≡ err e
    → (settle clock plan i id key hash n before prepared).0.token_usage
      ≡ add64 before.token_usage (result_usage i.result).tokens
unfolding settle routed records commit_attempt
usage_survives_rollback clock plan i id key hash n before prepared =
    let a = stamp prepared (now_or clock i.now) in
    answered_usage before id key a (routed clock plan i id key hash n before a) _
      (ap (λ r. r.token_usage) (routed_records clock plan i id key hash n before a))
