-- ===== src/Orchestration/Schedule/Ready.antt =====
-- What the nodes that are ready have in common: `ReadyNodesAt` of internal/orchestration/scheduler.go.
use adro.Prelude.{
  length, is_empty, ◌≤◌, ◌≡◌, refl, ◌⊎◌, inl, inr, Bool, true, false, List, [], ◌∷◌, arith,
  Bool-cases, All, keep,
}
use adro.Prelude.Text.{text_lt}
use adro.Prelude.Assoc.{lookup_or}
use adro.Orchestration.Graph.{WorkflowNode, WorkflowEdge, JoinPolicy}
use adro.Orchestration.Projection.{
  zero_projection, AttemptStatus, same_status, Time, PlanProjection, RequirementExecutionPlan,
}
use adro.Orchestration.Schedule.{
  in_backoff, incoming, branch_passed, is_short_circuited, join_need, node_ready, insert_node,
  sort_nodes, distinct_nodes, ready_nodes_at,
}

insert_node-All {ℓ} :
    (P : WorkflowNode → Type ℓ) (n : WorkflowNode) (ns : List WorkflowNode)
    → P n
    → All P ns
    → All P (insert_node n ns)
unfolding insert_node
insert_node-All P n [] h a = (h, tt)
insert_node-All P n (m ∷ ms) h a = elim (Bool-cases (text_lt m.id n.id)) [
  | inl less ↦ rw (insert_node, less) (a.0, insert_node-All P n ms h a.1)
  | inr more ↦ rw (insert_node, more) (h, a)
]

sort_nodes-All {ℓ} :
    (P : WorkflowNode → Type ℓ) (ns : List WorkflowNode) → All P ns → All P (sort_nodes ns)
unfolding sort_nodes
sort_nodes-All P [] a = tt
sort_nodes-All P (n ∷ ns) a = insert_node-All P n (sort_nodes ns) a.0 (sort_nodes-All P ns a.1)

keep-All :
    (test : WorkflowNode → Bool) (ns : List WorkflowNode) → All (λ n. test n ≡ true) (keep test ns)
keep-All test [] = tt
keep-All test (n ∷ ns) = elim (Bool-cases (test n)) [
  | inl ready ↦ rw (keep, ready) (ready, keep-All test ns)
  | inr not_yet ↦ rw (keep, not_yet) (keep-All test ns)
]

All-pass {ℓ} :
    {A : Type ℓ} (test : A → Bool) (xs : List A)
    → (length (keep test xs) ≤ length xs)
      × (length xs ≤ length (keep test xs) → All (λ x. test x ≡ true) xs)
All-pass test [] = (ground arith, (λ h. tt))
All-pass test (x ∷ xs) =
    let rest = All-pass test xs in
    elim (Bool-cases (test x)) [
      | inl passes ↦
          rw (keep, passes) (ground (arith, rest.0), (λ h. (refl, rest.1 (ground arith))))
      | inr fails ↦
          rw (keep, fails) (ground (arith, rest.0), (λ h. absurd (ground (arith, rest.0))))
    ]

-- What a node that is ready has: its status, its backoff and, where every branch must join, the
-- branches.
pub record IsReady (plan : RequirementExecutionPlan) (p : PlanProjection) (now : Time)
    (n : WorkflowNode) : Type 0 where
  pub status : (lookup_or zero_projection n.id p.nodes).status ≡ AttemptStatus.ready
  pub backoff : in_backoff (lookup_or zero_projection n.id p.nodes) now ≡ false
  pub joined :
      n.join_policy ≡ JoinPolicy.all
      → is_short_circuited p n (incoming plan.graph_snapshot.edges n.id) ≡ false
      → All (λ e. branch_passed p e ≡ true) (incoming plan.graph_snapshot.edges n.id)

same_status_ready :
    (s : AttemptStatus) → same_status s AttemptStatus.ready ≡ true → s ≡ AttemptStatus.ready
unfolding same_status
same_status_ready s h = ground arith

joins-All :
    (es : List WorkflowEdge) (p : PlanProjection)
    → (is_empty es ≡ true) ⊎ (length es ≤ length (keep (branch_passed p) es))
    → All (λ e. branch_passed p e ≡ true) es
joins-All [] p h = tt
joins-All (e ∷ es) p h = (All-pass (branch_passed p) (e ∷ es)).1 (ground arith)

node_ready-IsReady :
    (plan : RequirementExecutionPlan) (p : PlanProjection) (now : Time) (n : WorkflowNode)
    → node_ready plan p now n ≡ true
    → IsReady plan p now n
unfolding node_ready join_need
node_ready-IsReady plan p now n h =
    let es = incoming plan.graph_snapshot.edges n.id in
    record {
      status = same_status_ready _ (ground arith);
      backoff = ground arith;
      joined = λ policy whole. joins-All es p (ground arith);
    }

All-map {ℓ κ} :
    (P : WorkflowNode → Type ℓ) (Q : WorkflowNode → Type κ)
    → ((n : WorkflowNode) → P n → Q n)
    → (ns : List WorkflowNode) → All P ns
    → All Q ns
All-map P Q f [] a = tt
All-map P Q f (n ∷ ns) a = (f n a.0, All-map P Q f ns a.1)

-- Every node that `ReadyNodesAt` gives has the status ready and is in no backoff; and where its join
-- waits for all branches and is not short-circuited, the branch of each incoming edge has passed.
pub ready_nodes_at-IsReady :
    (plan : RequirementExecutionPlan) (p : PlanProjection) (now : Time)
    → All (IsReady plan p now) (ready_nodes_at plan p now)
unfolding ready_nodes_at
ready_nodes_at-IsReady plan p now =
    let ns = distinct_nodes plan.graph_snapshot.nodes in
    sort_nodes-All (IsReady plan p now) (keep (node_ready plan p now) ns) (
      All-map (λ n. node_ready plan p now n ≡ true) (IsReady plan p now)
        (node_ready-IsReady plan p now) (keep (node_ready plan p now) ns)
        (keep-All (node_ready plan p now) ns))
