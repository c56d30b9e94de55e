-- ===== src/Orchestration/Validate/Paths.antt =====
-- The tests that follow paths: `ValidateGraph` of internal/orchestration/validate.go.
use adro.Prelude.{
  ℕ, zero, suc, ◌+◌, Bool, true, false, not, ◌&&◌, ◌||◌, String, str_eq, List, [], ◌∷◌, ◌++◌,
  Option, none, some, if◌then◌else◌, all, keep, length, ◌==◌, map,
}
use adro.Prelude.Int.{pos, ltb_ℤ, is_pos}
use adro.Prelude.Assoc.{Assoc, lookup_or, insert}
use adro.Orchestration.Graph.{
  NodeKind, JoinPolicy, EdgeEvent, WorkflowNode, WorkflowEdge, WorkflowGraph,
}
use adro.Orchestration.Paths.{
  member, outgoing, path_exists, has_human_exit, repair_path_exists, resolve_repair_target,
}

-- `incoming[id]`
unfoldable pub incoming : List WorkflowEdge → String → List String
incoming [] id = []
incoming (e ∷ es) id =
    let rest = incoming es id in if str_eq e.target id then e.from ∷ rest else rest

-- The quorum and the repair policy of a node against the whole graph.
unfoldable pub wiring_valid : WorkflowGraph → WorkflowNode → Bool
unfolding incoming
wiring_valid g n =
    let ids = map (λ m. m.id) g.nodes in
    let p = n.repair_policy in
    let target = resolve_repair_target g n in
    let quorum_fits : Bool = elim n.join_policy [
      | JoinPolicy.quorum ↦
          not (is_pos n.join_quorum && ltb_ℤ (pos (length (incoming g.edges n.id))) n.join_quorum)
      | _ ↦ true
    ] in
    let repair_reaches : Bool = elim n.kind [
      | NodeKind.repair ↦
          not (str_eq target "")
          && repair_path_exists g n.id target EdgeEvent.success
          && all (λ id. repair_path_exists g target id EdgeEvent.success) p.verification_node_ids
      | _ ↦ true
    ] in
    quorum_fits
    && (str_eq p.target_node_id "" || member p.target_node_id ids)
    && all (λ id. member id ids) p.verification_node_ids
    && repair_reaches

-- The nodes that a queue reaches: each edge fills the queue once at most.
unfoldable pub reached : (String → List String) → ℕ → List String → List String → List String
reached next zero seen queue = seen
reached next (suc fuel) seen [] = seen
reached next (suc fuel) seen (id ∷ queue) =
    let skip = reached next fuel seen queue in
    let deeper = reached next fuel (id ∷ seen) (queue ++ next id) in
    if member id seen then skip else deeper

unfoldable pub all_reached : WorkflowGraph → (String → List String) → List String → Bool
unfolding reached
all_reached g next start =
    let seen = reached next (suc (length start + length g.edges)) [] start in
    all (λ n. member n.id seen) g.nodes

-- The loop of a bounded edge with a loop group has a way out to a human.
unfoldable pub loop_has_exit : WorkflowGraph → WorkflowEdge → Bool
loop_has_exit g e = not (
    is_pos e.max_traversals
    && not (str_eq e.loop_group "")
    && path_exists g.edges e.target e.from
    && not (has_human_exit g.nodes g.edges e.from))

-- The edges of `visit`, with the colours so far: 1 while a node is visited, 2 after.
unfoldable pub visit_edges :
    (String → Assoc ℕ → Option (Assoc ℕ)) → List WorkflowEdge → Assoc ℕ → Option (Assoc ℕ)
visit_edges visit [] colours = some colours
visit_edges visit (e ∷ es) colours =
    let colour = lookup_or 0 e.target colours in
    let on = visit_edges visit es colours in
    if colour == 1
    then none
    else if colour == 0
    then elim (visit e.target colours) [ none ↦ none | some next ↦ visit_edges visit es next ]
    else on

-- `visit`: `none` where an edge closes a cycle. A visit is never deeper than there are nodes.
unfoldable pub visit : List WorkflowEdge → ℕ → String → Assoc ℕ → Option (Assoc ℕ)
unfolding visit_edges
visit edges zero id colours = some colours
visit edges (suc fuel) id colours =
    let out = keep (λ e. str_eq e.from id && ltb_ℤ e.max_traversals (pos 1)) edges in
    elim (visit_edges (visit edges fuel) out (insert id 1 colours)) [
      | none ↦ none
      | some next ↦ some (insert id 2 next)
    ]

unfoldable pub visit_all : List WorkflowEdge → ℕ → List WorkflowNode → Assoc ℕ → Bool
unfolding visit
visit_all edges fuel [] colours = true
visit_all edges fuel (n ∷ ns) colours =
    let on = visit_all edges fuel ns colours in
    if lookup_or 0 n.id colours == 0
    then elim (visit edges fuel n.id colours) [
      | none ↦ false
      | some next ↦ visit_all edges fuel ns next
    ]
    else on

-- The tests that follow paths: reachability, the exits of loops, and cycles with no bound.
unfoldable pub paths_valid : WorkflowGraph → Bool
unfolding wiring_valid all_reached loop_has_exit visit_all incoming
paths_valid g =
    all (wiring_valid g) g.nodes
    && all_reached g (outgoing g.edges) g.entry_node_ids
    && all_reached g (incoming g.edges) g.exit_node_ids
    && all (loop_has_exit g) g.edges
    && visit_all g.edges (suc (length g.nodes)) g.nodes []
