-- ===== src/Orchestration/Validate/Loops.antt =====
-- Loops on a validated graph: `ValidateGraph` of internal/orchestration/validate.go, with `route` of
-- transition.go.
use adro.Prelude.{
  ◌≡◌, ◌≢◌, refl, sym, ap, ◌∙◌, Bool, true, false, ◌&&◌, String, List, [], ◌∷◌, none, arith, eq_iff,
  All,
}
use adro.Prelude.Int.{is_pos}
use adro.Orchestration.Graph.{WorkflowNode, WorkflowEdge, WorkflowGraph}
use adro.Orchestration.Paths.{member}
use adro.Orchestration.Projection.{
  Time, NodeAttempt, PlanProjection, RequirementExecutionPlan, TransitionInput,
}
use adro.Orchestration.Route.{route}
use adro.Orchestration.Route.Loops.{HasLimit, IsWithin, loops_stay_bounded}
use adro.Orchestration.Validate.Edges.{edge_valid, edges_valid, entries_and_exits_valid}
use adro.Orchestration.Validate.Nodes.{nodes_valid}
use adro.Orchestration.Validate.Paths.{paths_valid}
use adro.Orchestration.Validate.Graph.{sizes_valid, validate_graph}

module _ {ℓ κ} {A : Type ℓ} (P Q : A → Type κ) where
  All-map : (xs : List A) → ((x : A) → P x → Q x) → All P xs → All Q xs
  All-map [] f a = tt
  All-map (x ∷ xs) f (p, a) = (f x p, All-map xs f a)

  All-both : (xs : List A) → All P xs → All Q xs → All (λ x. P x × Q x) xs
  All-both [] a b = tt
  All-both (x ∷ xs) (p, a) (q, b) = ((p, q), All-both xs a b)

false≢true : false ≢ true
false≢true h = ground arith

both_true : (a b : Bool) → (a && b) ≡ true → (a ≡ true) × (b ≡ true)
both_true true b h = (refl, h)
both_true false b h = absurd (false≢true h)

fourth_true : (a b c d e : Bool) → (a && b && c && d && e) ≡ true → d ≡ true
fourth_true a b c d e h = ground (arith, h)

edge_valid_fresh :
    (nodes : List WorkflowNode) (earlier : List String) (e : WorkflowEdge)
    → edge_valid nodes earlier e ≡ true
    → member e.id earlier ≡ false
unfolding edge_valid
edge_valid_fresh nodes earlier e h = ground (arith, h)

edges_valid-cons :
    (nodes : List WorkflowNode) (earlier : List String) (e : WorkflowEdge) (es : List WorkflowEdge)
    → edges_valid nodes earlier (e ∷ es) ≡ true
    → (member e.id earlier ≡ false) × (edges_valid nodes (e.id ∷ earlier) es ≡ true)
unfolding edges_valid
edges_valid-cons nodes earlier e es h =
    let (first, rest) =
      both_true (edge_valid nodes earlier e) (edges_valid nodes (e.id ∷ earlier) es) h in
    (edge_valid_fresh nodes earlier e first, rest)

-- No later edge has the ID of an earlier one.
edges_valid_fresh :
    (nodes : List WorkflowNode) (earlier : List String) (id : String) (es : List WorkflowEdge)
    → edges_valid nodes earlier es ≡ true
    → member id earlier ≡ true
    → All (λ e. e.id ≢ id) es
unfolding edges_valid
edges_valid_fresh nodes earlier id [] h old = tt
edges_valid_fresh nodes earlier id (e ∷ es) h old =
    let (new, rest) = edges_valid-cons nodes earlier e es h in
    (
      λ same. false≢true (sym new ∙ ap (λ i. member i earlier) same ∙ old),
      edges_valid_fresh nodes (e.id ∷ earlier) id es rest (ground (arith, old)),
    )

-- So an ID has one limit.
edges_valid-HasLimit :
    (nodes : List WorkflowNode) (earlier : List String) (es : List WorkflowEdge)
    → edges_valid nodes earlier es ≡ true
    → All (λ e. All (HasLimit e.id e.max_traversals) es) es
edges_valid-HasLimit nodes earlier [] h = tt
edges_valid-HasLimit nodes earlier (e ∷ es) h =
    let (new, rest) = edges_valid-cons nodes earlier e es h in
    let others =
      edges_valid_fresh nodes (e.id ∷ earlier) e.id es rest (ground (arith, eq_iff e.id e.id)) in
    let limits = edges_valid-HasLimit nodes (e.id ∷ earlier) es rest in
    (
      (
        (λ same. refl),
        All-map (λ x. x.id ≢ e.id) (HasLimit e.id e.max_traversals) es
            (λ x other same. absurd (other same)) others,
      ),
      All-map (λ x. (x.id ≢ e.id) × All (HasLimit x.id x.max_traversals) es)
          (λ x. All (HasLimit x.id x.max_traversals) (e ∷ es)) es
          (λ x both. ((λ same. absurd (both.0 (sym same))), both.1))
          (All-both (λ x. x.id ≢ e.id) (λ x. All (HasLimit x.id x.max_traversals) es) es others
            limits),
    )

validate_graph_edges :
    (g : WorkflowGraph) → validate_graph g ≡ true → edges_valid g.nodes [] g.edges ≡ true
unfolding validate_graph
validate_graph_edges g h =
    fourth_true (sizes_valid g) (nodes_valid [] g.nodes) (entries_and_exits_valid g)
      (edges_valid g.nodes [] g.edges) (paths_valid g) h

-- Every edge of the graph that has a limit has been followed no more often than it says.
abbrev pub LoopsAreBounded : WorkflowGraph → PlanProjection → Type 0
LoopsAreBounded g p =
    All (λ e. is_pos e.max_traversals ≡ true → IsWithin e.id e.max_traversals p) g.edges

-- On a graph that `ValidateGraph` accepts, routing without an error keeps every bounded edge within
-- its limit: the validation lets no ID stand for two edges, so no limit is taken for another.
pub valid_graph_bounds_loops :
    (clock : Time) (plan : RequirementExecutionPlan) (a : NodeAttempt) (input : TransitionInput)
    (p : PlanProjection)
    → validate_graph plan.graph_snapshot ≡ true
    → LoopsAreBounded plan.graph_snapshot p
    → (route clock plan a input p).1 ≡ none
    → LoopsAreBounded plan.graph_snapshot (route clock plan a input p).0
valid_graph_bounds_loops clock plan a input p valid within done =
    let edges = plan.graph_snapshot.edges in
    let limits =
      edges_valid-HasLimit plan.graph_snapshot.nodes [] edges
        (validate_graph_edges plan.graph_snapshot valid) in
    All-map
      (λ e.
        All (HasLimit e.id e.max_traversals) edges
        × (is_pos e.max_traversals ≡ true → IsWithin e.id e.max_traversals p))
      (λ e.
        is_pos e.max_traversals ≡ true
        → IsWithin e.id e.max_traversals (route clock plan a input p).0)
      edges
      (λ e both positive.
        loops_stay_bounded e.id e.max_traversals clock plan a input p positive both.0
          (both.1 positive) done)
      (All-both (λ e. All (HasLimit e.id e.max_traversals) edges)
        (λ e. is_pos e.max_traversals ≡ true → IsWithin e.id e.max_traversals p) edges limits
        within)
