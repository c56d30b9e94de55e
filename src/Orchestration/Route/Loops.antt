-- ===== src/Orchestration/Route/Loops.antt =====
-- Loops are bounded: the traversal counters of internal/orchestration/transition.go.
use adro.Prelude.{
  ltb, length, keep, all, ◌≡◌, ◌≢◌, inl, inr, Bool, true, false, List, [], ◌∷◌, none, some, arith,
  String, Bool-cases, if◌then◌else◌, All, str_eq, eq_iff, not, ◌||◌,
}
use adro.Prelude.Int.{ℤ, pos, eqb_ℤ, leb_ℤ, is_pos, add64, ltb_ℤ}
use adro.Prelude.Assoc.{lookup_or, lookup-insert}
use adro.Orchestration.Graph.{WorkflowEdge}
use adro.Orchestration.Predicate.{Verdict, evaluate_predicate, holds, invalid}
use adro.Orchestration.Paths.{member}
use adro.Orchestration.Projection.{
  Time, NodeAttempt, PlanProjection, RequirementExecutionPlan, TransitionInput, now_or, Error,
  predicate_invalid, ambiguous_transition, edge_evidence_missing,
}
use adro.Orchestration.Route.Match.{
  cons_matched, event_matches, result_fields, Matched, match_edges, best_edge, edges, fails,
}
use adro.Orchestration.Route.Follow.{
  Routed, count_traversal, open_target, record_decision, fan_out, follow_edge,
}
use adro.Orchestration.Route.Take.{
  schedule_retry, leave_graph, strand, no_edge, take_edges, route, finish_plan, past_deadline,
}

-- The edges with this ID have this limit.
abbrev pub HasLimit : String → ℤ → WorkflowEdge → Type 0
HasLimit id limit e = e.id ≡ id → e.max_traversals ≡ limit

-- The edge has been followed no more often than its limit says.
abbrev pub IsWithin : String → ℤ → PlanProjection → Type 0
IsWithin id limit p = leb_ℤ (lookup_or (pos 0) id p.traversals) limit ≡ true

some≢none : {x : Error} → some x ≢ none
some≢none h = cc

count_traversal-IsWithin :
    (id : String) (limit : ℤ) (p : PlanProjection) (e : WorkflowEdge)
    → is_pos limit ≡ true
    → HasLimit id limit e
    → IsWithin id limit p
    → (count_traversal p e).1 ≡ true
    → IsWithin id limit (count_traversal p e).0
unfolding count_traversal lookup_or
count_traversal-IsWithin id limit p e positive l w fits =
    let n = add64 (lookup_or (pos 0) e.id p.traversals) (pos 1) in
    ground (arith, l, lookup-insert e.id id n p.traversals, eq_iff e.id id)

follow_traversals :
    (key reason : String) (clears : Bool) (p : PlanProjection) (plan : RequirementExecutionPlan)
    (a : NodeAttempt) (input : TransitionInput) (e : WorkflowEdge)
    → (record_decision key reason (open_target clears p e) plan a input e).traversals ≡ p.traversals
unfolding record_decision open_target
follow_traversals key reason clears p plan a input e = ground arith

no_edge_traversals :
    (plan : RequirementExecutionPlan) (a : NodeAttempt) (input : TransitionInput) (now : Time)
    (p : PlanProjection)
    → (no_edge plan a input now p).0.traversals ≡ p.traversals
unfolding no_edge schedule_retry leave_graph strand finish_plan
no_edge_traversals plan a input now p = ground arith

fan_out-IsWithin :
    (id : String) (limit : ℤ) (plan : RequirementExecutionPlan) (a : NodeAttempt)
    (input : TransitionInput) (es : List WorkflowEdge) (p : PlanProjection)
    → is_pos limit ≡ true
    → All (HasLimit id limit) es
    → IsWithin id limit p
    → (fan_out plan a input es p).1 ≡ none
    → IsWithin id limit (fan_out plan a input es p).0
unfolding fan_out
fan_out-IsWithin id limit plan a input [] p positive l w h = w
fan_out-IsWithin id limit plan a input (e ∷ es) p positive l w h =
    elim (Bool-cases (count_traversal p e).1) [
      | inl fits ↦ rw fits (
          fan_out-IsWithin id limit plan a input es _ positive l.1
            (rw (follow_traversals _ _ true (count_traversal p e).0 plan a input e)
              (count_traversal-IsWithin id limit p e positive l.0 w fits))
            (rw fits at h))
      | inr full ↦ absurd (some≢none (rw full at h))
    ]

follow_edge-IsWithin :
    (id : String) (limit : ℤ) (plan : RequirementExecutionPlan) (a : NodeAttempt)
    (input : TransitionInput) (p : PlanProjection) (e : WorkflowEdge)
    → is_pos limit ≡ true
    → HasLimit id limit e
    → IsWithin id limit p
    → (follow_edge plan a input p e).1 ≡ none
    → IsWithin id limit (follow_edge plan a input p e).0
unfolding follow_edge
follow_edge-IsWithin id limit plan a input p e positive l w h =
    elim (Bool-cases (count_traversal p e).1) [
      | inl fits ↦ rw fits (
          rw (follow_traversals _ _ false (count_traversal p e).0 plan a input e)
            (count_traversal-IsWithin id limit p e positive l w fits))
      | inr full ↦ absurd (some≢none (rw full at h))
    ]

best_edge-All :
    (id : String) (limit : ℤ) (b : WorkflowEdge) (es : List WorkflowEdge)
    → HasLimit id limit b
    → All (HasLimit id limit) es
    → HasLimit id limit (best_edge b es)
unfolding best_edge
best_edge-All id limit b [] k l = k
best_edge-All id limit b (e ∷ es) k l = elim (Bool-cases (ltb_ℤ b.priority e.priority)) [
  | inl more ↦ rw (best_edge, more) (best_edge-All id limit e es l.0 l.1)
  | inr less ↦ rw (best_edge, less) (best_edge-All id limit b es k l.1)
]

abbrev MatchedAll : String → ℤ → Matched → Type 0
MatchedAll id limit (edges es) = All (HasLimit id limit) es
MatchedAll id limit (fails x) = Unit

cons_matched_lem :
    (id : String) (limit : ℤ) (e : WorkflowEdge) (m : Matched)
    → HasLimit id limit e
    → MatchedAll id limit m
    → MatchedAll id limit (cons_matched e m)
unfolding cons_matched
cons_matched_lem id limit e (edges es) k l = (k, l)
cons_matched_lem id limit e (fails x) k l = tt

evaluated_lem :
    (id : String) (limit : ℤ) (e : WorkflowEdge) (rest : Matched) (evidenced : Bool) (v : Verdict)
    → HasLimit id limit e
    → MatchedAll id limit rest
    → MatchedAll id limit (elim v as (λ _. Matched) [
      | invalid x ↦ fails predicate_invalid
      | holds false ↦ rest
      | holds true ↦ if evidenced then cons_matched e rest else fails edge_evidence_missing
    ])
evaluated_lem id limit e rest b (invalid x) k l = tt
evaluated_lem id limit e rest b (holds false) k l = l
evaluated_lem id limit e rest true (holds true) k l = cons_matched_lem id limit e rest k l
evaluated_lem id limit e rest false (holds true) k l = tt

choice_lem :
    (id : String) (limit : ℤ) (c : Bool) (m n : Matched)
    → MatchedAll id limit m
    → MatchedAll id limit n
    → MatchedAll id limit (if c then m else n)
choice_lem id limit true m n k l = k
choice_lem id limit false m n k l = l

match_edges_lem :
    (id : String) (limit : ℤ) (es : List WorkflowEdge) (a : NodeAttempt) (event : String)
    → All (HasLimit id limit) es
    → MatchedAll id limit (match_edges es a event)
unfolding match_edges
match_edges_lem id limit [] a event l = tt
match_edges_lem id limit (e ∷ es) a event l =
    let others = match_edges es a event in
    let evidenced = all (λ r. member r a.result.evidence_ids) e.required_evidence in
    let verdict = evaluate_predicate e.predicate (result_fields a.result) in
    let rest = match_edges_lem id limit es a event l.1 in
    choice_lem id limit
      (not (str_eq e.from a.node_id) || not (event_matches e.on a.status event a.result.outcome))
      others
      (elim verdict as (λ _. Matched) [
        | invalid x ↦ fails predicate_invalid
        | holds false ↦ others
        | holds true ↦ if evidenced then cons_matched e others else fails edge_evidence_missing
      ])
      rest (evaluated_lem id limit e others evidenced verdict l.0 rest)

choice-IsWithin :
    (id : String) (limit : ℤ) (c : Bool) (x y : Routed)
    → (x.1 ≡ none → IsWithin id limit x.0)
    → (y.1 ≡ none → IsWithin id limit y.0)
    → (if c then x else y).1 ≡ none
    → IsWithin id limit (if c then x else y).0
choice-IsWithin id limit true x y k l h = k h
choice-IsWithin id limit false x y k l h = l h

take_edges-IsWithin :
    (id : String) (limit : ℤ) (plan : RequirementExecutionPlan) (a : NodeAttempt)
    (input : TransitionInput) (now : Time) (p : PlanProjection) (es : List WorkflowEdge)
    → is_pos limit ≡ true
    → All (HasLimit id limit) es
    → IsWithin id limit p
    → (take_edges plan a input now p es).1 ≡ none
    → IsWithin id limit (take_edges plan a input now p es).0
unfolding take_edges
take_edges-IsWithin id limit plan a input now p [] positive l w h =
    rw (no_edge_traversals plan a input now p) w
take_edges-IsWithin id limit plan a input now p (e ∷ []) positive l w h =
    follow_edge-IsWithin id limit plan a input p e positive l.0 w h
take_edges-IsWithin id limit plan a input now p (e ∷ f ∷ es) positive l w h =
    let many = e ∷ f ∷ es in
    let best = best_edge e (f ∷ es) in
    let tied = ltb 1 (length (keep (λ x. eqb_ℤ x.priority best.priority) many)) in
    let one = follow_edge plan a input p best in
    choice-IsWithin id limit (all (λ x. x.fan_out) many) (fan_out plan a input many p)
      (if tied then (p, some ambiguous_transition) else one)
      (fan_out-IsWithin id limit plan a input many p positive l w)
      (choice-IsWithin id limit tied (p, some ambiguous_transition) one (λ m. w)
        (follow_edge-IsWithin id limit plan a input p best positive
          (best_edge-All id limit e (f ∷ es) l.0 l.1) w))
      h

matched-IsWithin :
    (id : String) (limit : ℤ) (clock : Time) (plan : RequirementExecutionPlan) (a : NodeAttempt)
    (input : TransitionInput) (p : PlanProjection) (m : Matched)
    → is_pos limit ≡ true
    → MatchedAll id limit m
    → IsWithin id limit p
    → (elim m as (λ _. Routed) [
      | fails x ↦ (p, some x)
      | edges es ↦ take_edges plan a input (now_or clock input.now) p es
    ]).1
      ≡ none
    → IsWithin id limit
        (elim m as (λ _. Routed) [
          | fails x ↦ (p, some x)
          | edges es ↦ take_edges plan a input (now_or clock input.now) p es
        ]).0
matched-IsWithin id limit clock plan a input p (fails x) positive l w h = w
matched-IsWithin id limit clock plan a input p (edges es) positive l w h =
    take_edges-IsWithin id limit plan a input (now_or clock input.now) p es positive l w h

-- Routing without an error keeps an edge's traversal count at most its limit, where the limit is
-- above 0 and every edge of the graph with that ID has it.
pub loops_stay_bounded :
    (id : String) (limit : ℤ) (clock : Time) (plan : RequirementExecutionPlan) (a : NodeAttempt)
    (input : TransitionInput) (p : PlanProjection)
    → is_pos limit ≡ true
    → All (HasLimit id limit) plan.graph_snapshot.edges
    → IsWithin id limit p
    → (route clock plan a input p).1 ≡ none
    → IsWithin id limit (route clock plan a input p).0
unfolding route finish_plan
loops_stay_bounded id limit clock plan a input p positive l w =
    let matched = match_edges plan.graph_snapshot.edges a input.event in
    let onward = elim matched as (λ _. Routed) [
      | fails x ↦ (p, some x)
      | edges es ↦ take_edges plan a input (now_or clock input.now) p es
    ] in
    choice-IsWithin id limit (past_deadline a) (finish_plan p "timed_out", none) onward (λ h. w)
      (matched-IsWithin id limit clock plan a input p matched positive
        (match_edges_lem id limit plan.graph_snapshot.edges a input.event l) w)
