-- ===== src/Orchestration/Paths.antt =====
-- Searches over a workflow graph: `pathExists` and `hasHumanExit` of
-- internal/orchestration/validate.go, `repairPathExists` of transition.go, `resolveRepairTarget` of
-- structural.go. Each queue is given fuel for one round more than the edges can fill it.
use adro.Prelude.{
  ℕ, zero, suc, Bool, true, false, ◌&&◌, not, String, str_eq, List, [], ◌∷◌, ◌++◌, Option, none,
  some, if◌then◌else◌, any, find, length,
}
use adro.Prelude.Int.{pos, eqb_ℤ}
use adro.Prelude.Text.{trim_space}
use adro.Orchestration.Graph.{EdgeEvent, NodeKind, WorkflowNode, WorkflowEdge, WorkflowGraph}

abbrev pub member : String → List String → Bool
member x xs = any (λ y. str_eq y x) xs

-- `a == b` on edge events
unfoldable pub same_event : EdgeEvent → EdgeEvent → Bool
same_event EdgeEvent.success EdgeEvent.success = true
same_event EdgeEvent.failure EdgeEvent.failure = true
same_event EdgeEvent.timeout EdgeEvent.timeout = true
same_event EdgeEvent.approval EdgeEvent.approval = true
same_event EdgeEvent.bug EdgeEvent.bug = true
same_event EdgeEvent.cancel EdgeEvent.cancel = true
same_event (EdgeEvent.unknown s) (EdgeEvent.unknown t) = str_eq s t
same_event _ _ = false

-- `outgoing[id]` of `ValidateGraph`
unfoldable pub outgoing : List WorkflowEdge → String → List String
outgoing [] id = []
outgoing (e ∷ es) id =
    let rest = outgoing es id in if str_eq e.from id then e.target ∷ rest else rest

-- The loop of `pathExists`.
unfoldable pub search : (String → List String) → ℕ → List String → List String → String → Bool
search next zero seen queue target = false
search next (suc fuel) seen [] target = false
search next (suc fuel) seen (id ∷ queue) target =
    let skip = search next fuel seen queue target in
    let deeper = search next fuel (id ∷ seen) (queue ++ next id) target in
    if str_eq id target then true else if member id seen then skip else deeper

-- `pathExists`
unfoldable pub path_exists : List WorkflowEdge → String → String → Bool
unfolding search outgoing
path_exists edges start target =
    search (outgoing edges) (suc (suc (length edges))) [] (start ∷ []) target

-- The edges that a repair path may take out of `current`.
unfoldable pub repair_step : WorkflowEdge → String → EdgeEvent → Bool
unfolding same_event
repair_step e current on =
    str_eq e.from current
    && same_event e.on on
    && not (eqb_ℤ e.max_traversals (pos 0) && not (str_eq e.loop_group ""))

-- The inner loop of `repairPathExists`: whether `to` is met, else the new `seen` and `queue`.
unfoldable pub scan_edges :
    List WorkflowEdge
    → String
    → EdgeEvent
    → String
    → List String
    → List String
    → Option (List String × List String)
unfolding repair_step
scan_edges [] current on to seen queue = some (seen, queue)
scan_edges (e ∷ es) current on to seen queue =
    if not (repair_step e current on)
    then scan_edges es current on to seen queue
    else if str_eq e.target to
    then none
    else if member e.target seen
    then scan_edges es current on to seen queue
    else scan_edges es current on to (e.target ∷ seen) (queue ++ e.target ∷ [])

unfoldable pub repair_search :
    List WorkflowEdge → EdgeEvent → String → ℕ → List String → List String → Bool
unfolding scan_edges
repair_search edges on to zero seen queue = false
repair_search edges on to (suc fuel) seen [] = false
repair_search edges on to (suc fuel) seen (current ∷ queue) =
    elim (scan_edges edges current on to seen queue) [
      | none ↦ true
      | some (seen', queue') ↦ repair_search edges on to fuel seen' queue'
    ]

-- `repairPathExists`
unfoldable pub repair_path_exists : WorkflowGraph → String → String → EdgeEvent → Bool
unfolding repair_search
repair_path_exists g from to on =
    if str_eq from to
    then true
    else repair_search g.edges on to (suc (suc (length g.edges))) (from ∷ []) (from ∷ [])

is_human : NodeKind → Bool
is_human NodeKind.human = true
is_human _ = false

unfoldable pub human_search :
    (String → Bool) → (String → List String) → ℕ → List String → List String → Bool
human_search human next zero seen queue = false
human_search human next (suc fuel) seen [] = false
human_search human next (suc fuel) seen (id ∷ queue) =
    let skip = human_search human next fuel seen queue in
    let deeper = human_search human next fuel (id ∷ seen) (queue ++ next id) in
    if member id seen then skip else if human id then true else deeper

-- `nodes[id].Kind == NodeHuman`, false for a node that is not there
unfoldable pub human_node : List WorkflowNode → String → Bool
unfolding is_human
human_node nodes id = elim (find (λ n. str_eq n.id id) nodes) [
  | none ↦ false
  | some n ↦ is_human n.kind
]

-- `hasHumanExit`
unfoldable pub has_human_exit : List WorkflowNode → List WorkflowEdge → String → Bool
unfolding human_search human_node outgoing
has_human_exit nodes edges start =
    human_search (human_node nodes) (outgoing edges) (suc (suc (length edges))) [] (start ∷ [])

-- The distinct targets of a node's success edges to other nodes.
unfoldable pub success_targets : List WorkflowEdge → String → List String
unfolding same_event
success_targets [] id = []
success_targets (e ∷ es) id =
    let rest = success_targets es id in
    if str_eq e.from id
      && not (str_eq e.target id)
      && same_event e.on EdgeEvent.success
      && not (member e.target rest)
    then e.target ∷ rest
    else rest

only : List String → String
only (x ∷ []) = x
only _ = ""

-- `resolveRepairTarget`
unfoldable pub resolve_repair_target : WorkflowGraph → WorkflowNode → String
unfolding success_targets only
resolve_repair_target g n =
    let explicit = trim_space n.repair_policy.target_node_id in
    if not (str_eq explicit "") then explicit else only (success_targets g.edges n.id)
