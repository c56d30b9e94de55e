-- ===== src/Orchestration/Validate/Edges.antt =====
-- The tests of the entries, the exits and the edges: `ValidateGraph` of
-- internal/orchestration/validate.go.
use adro.Prelude.{
  Bool, true, false, not, ◌&&◌, ◌||◌, String, str_eq, List, [], ◌∷◌, none, some, find, is_empty,
  map,
}
use adro.Prelude.Int.{pos, ltb_ℤ, eqb_ℤ, is_neg, is_pos}
use adro.Prelude.Text.{is_blank}
use adro.Orchestration.Graph.{
  EdgeEvent, WorkflowNode, WorkflowEdge, WorkflowGraph, zero_node, SchemaRef,
}
use adro.Orchestration.Paths.{member}
use adro.Orchestration.Validate.Nodes.{predicate_valid, all_named}

-- The entries or the exits: nodes of the graph, each once.
unfoldable pub ends_valid : List String → List String → List String → Bool
ends_valid nodes earlier [] = true
ends_valid nodes earlier (id ∷ ids) =
    member id nodes && not (member id earlier) && ends_valid nodes (id ∷ earlier) ids

unfoldable pub contracts_match : SchemaRef → SchemaRef → Bool
contracts_match output input =
    (str_eq output.id "" && str_eq input.id "")
    || (not (str_eq output.id "")
        && not (str_eq input.id "")
        && str_eq output.id input.id
        && not (
            is_pos output.version
            && is_pos input.version
            && not (eqb_ℤ output.version input.version)))

unfoldable pub find_node : List WorkflowNode → String → WorkflowNode
find_node nodes id = elim (find (λ n. str_eq n.id id) nodes) [ none ↦ zero_node | some n ↦ n ]

-- An edge, after those with the IDs.
unfoldable pub edge_valid : List WorkflowNode → List String → WorkflowEdge → Bool
unfolding all_named predicate_valid contracts_match find_node
edge_valid nodes earlier e =
    not (is_blank e.id)
    && not (member e.id earlier)
    && member e.from (map (λ n. n.id) nodes)
    && member e.target (map (λ n. n.id) nodes)
    && not (str_eq e.from e.target && ltb_ℤ e.max_traversals (pos 1))
    && elim e.on [ EdgeEvent.unknown _ ↦ false | _ ↦ true ]
    && not (is_neg e.max_traversals)
    && all_named e.required_evidence
    && not (not (str_eq e.loop_group "") && ltb_ℤ e.max_traversals (pos 1))
    && not (e.fan_out && is_neg e.priority)
    && predicate_valid e.predicate
    && contracts_match (find_node nodes e.from).output_contract
        (find_node nodes e.target).input_contract

unfoldable pub edges_valid : List WorkflowNode → List String → List WorkflowEdge → Bool
unfolding edge_valid
edges_valid nodes earlier [] = true
edges_valid nodes earlier (e ∷ es) =
    edge_valid nodes earlier e && edges_valid nodes (e.id ∷ earlier) es

unfoldable pub entries_and_exits_valid : WorkflowGraph → Bool
unfolding ends_valid
entries_and_exits_valid g =
    let ids = map (λ n. n.id) g.nodes in
    not (is_empty g.entry_node_ids)
    && not (is_empty g.exit_node_ids)
    && ends_valid ids [] g.entry_node_ids
    && ends_valid ids [] g.exit_node_ids
