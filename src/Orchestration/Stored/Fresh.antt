-- ===== src/Orchestration/Stored/Fresh.antt =====
-- What a new plan starts from: `NewProjection` of internal/orchestration/transition.go.
use adro.Prelude.{
  ◌≡◌, ◌≢◌, refl, inl, inr, Bool, true, false, not, ◌||◌, String, str_eq, List, [], ◌∷◌, none, some,
  arith, if◌then◌else◌, eq_iff, Bool-cases, all,
}
use adro.Prelude.Int.{pos, ltb_ℤ}
use adro.Prelude.Assoc.{Assoc, insert}
use mathlib.Core.Path.{subst}
use mathlib.Core.Option.{some-injective}
use adro.Orchestration.Graph.{WorkflowNode}
use adro.Orchestration.Paths.{member}
use adro.Orchestration.Projection.{
  AttemptStatus, PlanStatus, NodeProjection, PlanProjection, RequirementExecutionPlan,
  zero_projection,
}
use adro.Orchestration.Validate.{validate_graph}
use adro.Orchestration.Stored.{
  is_live_plan, node_entry_valid, validate_projection, fresh_nodes, fresh_projection,
  new_projection,
}

all-insert :
    (test : String × NodeProjection → Bool) (k : String) (v : NodeProjection)
    (m : Assoc NodeProjection)
    → test (k, v) ≡ true
    → all test m ≡ true
    → all test (insert k v m) ≡ true
unfolding insert
all-insert test k v [] one rest = ground (arith, one)
all-insert test k v ((j, w) ∷ m) one rest = elim (Bool-cases (str_eq j k)) [
  | inl same ↦ rw (insert, same) (ground (arith, one, rest))
  | inr other ↦
      rw (insert, other) (ground (arith, rest, all-insert test k v m one (ground (arith, rest))))
]

-- A node at which nothing has happened is valid in any projection.
new_node_valid :
    (p : PlanProjection) (id : String) (is_entry : Bool)
    → node_entry_valid p (
      id,
      record zero_projection {
        node_id = id;
        status = if is_entry then AttemptStatus.ready else AttemptStatus.pending;
      },
    )
      ≡ true
unfolding node_entry_valid
new_node_valid p id true = rw (node_entry_valid, (eq_iff id id).1 refl) refl
new_node_valid p id false = rw (node_entry_valid, (eq_iff id id).1 refl) refl

fresh_nodes_valid :
    (p : PlanProjection) (entries : List String) (ns : List WorkflowNode)
    (nodes : Assoc NodeProjection)
    → all (node_entry_valid p) nodes ≡ true
    → all (node_entry_valid p) (fresh_nodes entries ns nodes) ≡ true
unfolding fresh_nodes
fresh_nodes_valid p entries [] nodes h = h
fresh_nodes_valid p entries (n ∷ ns) nodes h =
    fresh_nodes_valid p entries ns _
      (all-insert (node_entry_valid p) n.id _ nodes (new_node_valid p n.id (member n.id entries)) h)

none≢some : {x : PlanProjection} → none ≢ some x
none≢some h = cc

-- What `NewProjection` has tested where it gives a projection.
new_projection-some :
    (plan : RequirementExecutionPlan) (p : PlanProjection)
    → new_projection plan ≡ some p
    → (str_eq plan.id "" ≡ false)
      × (is_live_plan plan.status ≡ true)
      × (ltb_ℤ plan.revision (pos 1) ≡ false)
      × (validate_graph plan.graph_snapshot ≡ true)
      × (fresh_projection plan ≡ p)
unfolding new_projection
new_projection-some plan p h = elim (Bool-cases (str_eq plan.id "")) [
  | inl unnamed ↦ absurd (none≢some (rw (new_projection, unnamed) at h))
  | inr named ↦
      elim (Bool-cases (
        not (is_live_plan plan.status)
        || str_eq plan.plan_hash ""
        || ltb_ℤ plan.revision (pos 1))) [
          | inl thawed ↦ absurd (none≢some (rw (new_projection, named, thawed) at h))
          | inr frozen ↦ elim (Bool-cases (validate_graph plan.graph_snapshot)) [
            | inr broken ↦ absurd (none≢some (rw (new_projection, named, frozen, broken) at h))
            | inl sound ↦ (
              named,
              ground (arith, frozen),
              ground (arith, frozen),
              sound,
              some-injective (fresh_projection plan) p
                  (rw (new_projection, named, frozen, sound) at h),
            )
          ]
        ]
]

fresh_succeeds :
    (s : PlanStatus)
    → (elim s as (λ _. Bool) [ PlanStatus.terminal ↦ str_eq "" "succeeded" | _ ↦ false ]) ≡ false
fresh_succeeds PlanStatus.terminal = refl
fresh_succeeds PlanStatus.draft = refl
fresh_succeeds PlanStatus.validating = refl
fresh_succeeds PlanStatus.ready = refl
fresh_succeeds PlanStatus.waiting = refl
fresh_succeeds PlanStatus.running = refl
fresh_succeeds (PlanStatus.unknown _) = refl

-- A projection that `NewProjection` gives of a plan can be stored: `Validate` accepts it. The graph of
-- the plan has then passed its own validation.
pub new_projection-validate_projection :
    (plan : RequirementExecutionPlan) (p : PlanProjection)
    → new_projection plan ≡ some p
    → (validate_projection p ≡ true) × (validate_graph plan.graph_snapshot ≡ true)
unfolding validate_projection fresh_projection
new_projection-validate_projection plan p h =
    let (named, live, revised, sound, same) = new_projection-some plan p h in
    let nodes =
      fresh_nodes_valid (fresh_projection plan) plan.graph_snapshot.entry_node_ids
        plan.graph_snapshot.nodes [] refl in
    (
      subst (λ q. validate_projection q ≡ true) same
          (rw (validate_projection, named, revised, live, fresh_succeeds plan.status, nodes) refl),
      sound,
    )
