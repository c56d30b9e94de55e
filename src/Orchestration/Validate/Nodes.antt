-- ===== src/Orchestration/Validate/Nodes.antt =====
-- The tests of a node alone: `ValidateGraph` of internal/orchestration/validate.go, `validateBudget`
-- of model.go.
use adro.Prelude.{
  Bool, true, false, not, ◌&&◌, ◌||◌, String, str_eq, List, [], ◌∷◌, none, some, all, is_empty,
}
use adro.Prelude.Int.{pos, ltb_ℤ, eqb_ℤ, is_neg}
use adro.Prelude.Text.{is_blank}
use adro.Orchestration.Predicate.{Predicate, validate_predicate}
use adro.Orchestration.Graph.{NodeKind, JoinPolicy, Budget, WorkflowNode}
use adro.Orchestration.Paths.{member}

unfoldable pub predicate_valid : Predicate → Bool
predicate_valid p = elim (validate_predicate p 0) [ none ↦ true | some _ ↦ false ]

unfoldable pub budget_valid : Budget → Bool
budget_valid b = not (
    is_neg b.tokens
    || is_neg b.tool_calls
    || is_neg b.cost_cents
    || is_neg b.duration
    || is_neg b.concurrent)

-- `b == Budget{}`
unfoldable pub is_zero_budget : Budget → Bool
is_zero_budget b =
    eqb_ℤ b.tokens (pos 0)
    && eqb_ℤ b.tool_calls (pos 0)
    && eqb_ℤ b.cost_cents (pos 0)
    && eqb_ℤ b.duration (pos 0)
    && eqb_ℤ b.concurrent (pos 0)

unfoldable pub all_named : List String → Bool
all_named texts = all (λ t. not (is_blank t)) texts

-- The references of the node to its agent and its squad, and its kind.
unfoldable pub refs_valid : WorkflowNode → Bool
refs_valid n =
    let agent_valid : Bool = elim n.agent_ref [
      | none ↦ true
      | some r ↦ not (is_blank r.id) && not (ltb_ℤ r.revision (pos 1))
    ] in
    let squad_valid : Bool = elim n.squad_ref [
      | none ↦ true
      | some r ↦ not (is_blank r.id) && not (ltb_ℤ r.revision (pos 1) && ltb_ℤ r.version (pos 1))
    ] in
    let has_agent : Bool = elim n.agent_ref [ none ↦ false | some _ ↦ true ] in
    let has_squad : Bool = elim n.squad_ref [ none ↦ false | some _ ↦ true ] in
    let kind_valid : Bool = elim n.kind [
      | NodeKind.agent ↦ has_agent
      | NodeKind.squad ↦ has_squad
      | NodeKind.unknown _ ↦ false
      | _ ↦ true
    ] in
    kind_valid && agent_valid && squad_valid

unfoldable pub numbers_valid : WorkflowNode → Bool
numbers_valid n = not (
    is_neg n.timeout
    || is_neg n.context_policy.max_tokens
    || is_neg n.budget.tokens
    || is_neg n.budget.tool_calls
    || is_neg n.budget.cost_cents
    || is_neg n.budget.concurrent
    || is_neg n.budget.duration
    || is_neg n.retry_policy.max_attempts
    || is_neg n.retry_policy.backoff)

unfoldable pub join_valid : WorkflowNode → Bool
join_valid n =
    elim n.join_policy [ JoinPolicy.unknown _ ↦ false | _ ↦ true ]
    && not (is_neg n.join_quorum)
    && (str_eq n.join_failure_policy ""
        || str_eq n.join_failure_policy "wait"
        || str_eq n.join_failure_policy "short_circuit")

unfoldable pub gate_policy_valid : WorkflowNode → Bool
unfolding predicate_valid all_named
gate_policy_valid n =
    let p = n.gate_policy in
    let unused =
      is_blank (predicate_kind p.predicate)
      && is_empty p.required_evidence
      && is_blank p.failure_code in
    predicate_valid p.predicate
    && elim n.kind [ NodeKind.gate ↦ true | _ ↦ unused ]
    && all_named p.required_evidence
  where
    predicate_kind : Predicate → String
    predicate_kind (Predicate.node kind field op value children) = kind

unfoldable pub merge_policy_valid : WorkflowNode → Bool
unfolding all_named
merge_policy_valid n =
    let p = n.merge_policy in
    let unused = is_blank p.conflict_policy && is_empty p.key_fields && not p.require_evidence in
    elim n.kind [ NodeKind.merge ↦ true | _ ↦ unused ]
    && (str_eq p.conflict_policy ""
        || str_eq p.conflict_policy "collect"
        || str_eq p.conflict_policy "prefer_priority"
        || str_eq p.conflict_policy "fail")
    && all_named p.key_fields

unfoldable pub repair_policy_valid : WorkflowNode → Bool
unfolding budget_valid is_zero_budget all_named
repair_policy_valid n =
    let p = n.repair_policy in
    let unused =
      is_blank p.target_node_id
      && is_empty p.scope
      && is_empty p.verification_node_ids
      && eqb_ℤ p.max_rounds (pos 0)
      && is_zero_budget p.budget in
    let used =
      not (str_eq p.target_node_id n.id)
      && not (is_empty p.verification_node_ids)
      && not (eqb_ℤ p.max_rounds (pos 0)) in
    elim n.kind [ NodeKind.repair ↦ used | _ ↦ unused ]
    && not (is_neg p.max_rounds)
    && budget_valid p.budget
    && all_named p.scope

-- A node, after those with the IDs.
unfoldable pub node_valid : List String → WorkflowNode → Bool
unfolding refs_valid numbers_valid join_valid gate_policy_valid merge_policy_valid
    repair_policy_valid
node_valid earlier n =
    not (is_blank n.id)
    && not (member n.id earlier)
    && refs_valid n
    && numbers_valid n
    && join_valid n
    && gate_policy_valid n
    && merge_policy_valid n
    && repair_policy_valid n

unfoldable pub nodes_valid : List String → List WorkflowNode → Bool
unfolding node_valid
nodes_valid earlier [] = true
nodes_valid earlier (n ∷ ns) = node_valid earlier n && nodes_valid (n.id ∷ earlier) ns
