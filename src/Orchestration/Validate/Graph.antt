-- ===== src/Orchestration/Validate/Graph.antt =====
-- `ValidateGraph` of internal/orchestration/validate.go.
use adro.Prelude.{Bool, not, ◌&&◌, [], length, leb, is_empty}
use adro.Prelude.Int.{pos, ltb_ℤ}
use adro.Prelude.Text.{is_blank}
use adro.Orchestration.Graph.{WorkflowGraph}
use adro.Orchestration.Validate.Nodes.{nodes_valid}
use adro.Orchestration.Validate.Edges.{entries_and_exits_valid, edges_valid}
use adro.Orchestration.Validate.Paths.{paths_valid}

unfoldable pub sizes_valid : WorkflowGraph → Bool
sizes_valid g =
    not (is_blank g.id)
    && not (is_empty g.nodes)
    && leb (length g.nodes) 1000
    && leb (length g.edges) 5000
    && not (ltb_ℤ g.version (pos 1))

-- `ValidateGraph`
unfoldable pub validate_graph : WorkflowGraph → Bool
unfolding sizes_valid nodes_valid entries_and_exits_valid edges_valid paths_valid
validate_graph g =
    sizes_valid g
    && nodes_valid [] g.nodes
    && entries_and_exits_valid g
    && edges_valid g.nodes [] g.edges
    && paths_valid g
