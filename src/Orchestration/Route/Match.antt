-- ===== src/Orchestration/Route/Match.antt =====
-- Which edges match a completed attempt: `eventMatches` and the first loop of `route` of internal/orchestration/transition.go.
use adro.Prelude.{
  Bool, true, false, ◌&&◌, ◌||◌, not, String, str_eq, List, [], ◌∷◌, none, some, if◌then◌else◌, any,
  all, is_empty,
}
use adro.Prelude.Int.{ltb_ℤ}
use adro.Prelude.Assoc.{insert}
use adro.Prelude.Text.{trim_space, equal_fold}
use adro.Orchestration.Value.{text, Fields}
use adro.Orchestration.Predicate.{evaluate_predicate, holds, invalid}
use adro.Orchestration.Graph.{EdgeEvent, WorkflowNode, WorkflowEdge}
use adro.Orchestration.Paths.{member}
use adro.Orchestration.Projection.{
  AttemptStatus, StructuredResult, NodeAttempt, TransitionInput, Error, edge_evidence_missing,
  predicate_invalid, same_status,
}

-- `eventMatches`
unfoldable pub event_matches : EdgeEvent → AttemptStatus → String → String → Bool
unfolding same_status
event_matches EdgeEvent.success s event outcome =
    same_status s AttemptStatus.passed
    && not (str_eq event "approval_granted")
    && not (str_eq event "approved")
    && not (str_eq outcome "approved")
event_matches EdgeEvent.failure s event outcome =
    same_status s AttemptStatus.failed && not (str_eq event "bug") && not (str_eq outcome "bug")
event_matches EdgeEvent.bug s event outcome =
    same_status s AttemptStatus.failed && (str_eq event "bug" || str_eq outcome "bug")
event_matches EdgeEvent.timeout s event outcome = same_status s AttemptStatus.timed_out
event_matches EdgeEvent.cancel s event outcome = same_status s AttemptStatus.cancelled
event_matches EdgeEvent.approval s event outcome =
    str_eq event "approval_granted" || str_eq event "approved" || str_eq outcome "approved"
event_matches (EdgeEvent.unknown k) s event outcome = false

-- `resultFields`
unfoldable pub result_fields : StructuredResult → Fields
result_fields r = insert "summary" (text r.summary) (insert "outcome" (text r.outcome) r.fields)

-- The inner loops of `retryAllowed`.
configured_matches : List String → String → Bool
configured_matches values configured =
    let c = trim_space configured in any (λ v. not (str_eq c "") && equal_fold c v) values

-- `retryAllowed`
unfoldable pub retry_allowed : WorkflowNode → NodeAttempt → TransitionInput → Bool
unfolding configured_matches
retry_allowed n a input = elim a.failure_reason [
  | none ↦ false
  | some f ↦
      if not f.retryable
      then false
      else if is_empty n.retry_policy.retry_on
      then true
      else any (configured_matches (f.code ∷ input.event ∷ a.result.outcome ∷ []))
          n.retry_policy.retry_on
]

-- The edges that match, or the error that the first bad one raises.
pub data Matched : Type 0 where
  edges : List WorkflowEdge → Matched
  fails : Error → Matched

unfoldable pub cons_matched : WorkflowEdge → Matched → Matched
cons_matched e (edges es) = edges (e ∷ es)
cons_matched e (fails x) = fails x

-- The loop of `route` over the graph's edges.
unfoldable pub match_edges : List WorkflowEdge → NodeAttempt → String → Matched
unfolding cons_matched
match_edges [] a event = edges []
match_edges (e ∷ es) a event =
    let rest = match_edges es a event in
    if not (str_eq e.from a.node_id) || not (event_matches e.on a.status event a.result.outcome)
    then rest
    else elim (evaluate_predicate e.predicate (result_fields a.result)) [
      | invalid x ↦ fails predicate_invalid
      | holds false ↦ rest
      | holds true ↦
          if all (λ r. member r a.result.evidence_ids) e.required_evidence
          then cons_matched e rest
          else fails edge_evidence_missing
    ]

-- `best`: the first edge of the highest priority.
unfoldable pub best_edge : WorkflowEdge → List WorkflowEdge → WorkflowEdge
best_edge best [] = best
best_edge best (e ∷ es) = best_edge (if ltb_ℤ best.priority e.priority then e else best) es
