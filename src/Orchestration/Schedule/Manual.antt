-- ===== src/Orchestration/Schedule/Manual.antt =====
-- Manual transitions: `Retry` and `TakeOver` of internal/orchestration/scheduler.go.
use adro.Prelude.{
  ◌≡◌, ◌≢◌, refl, sym, ap, ◌∙◌, inl, inr, Bool, false, Option, none, some, arith, Option-cases,
  Bool-cases, is_none, String, str_eq, ◌||◌, eq_iff,
}
use adro.Prelude.Assoc.{Assoc, lookup, insert, lookup-insert}
use adro.Prelude.Text.{trim_space}
use adro.Orchestration.Projection.{AttemptStatus, NodeProjection, PlanProjection, same_status}
use adro.Orchestration.Schedule.{retry}

-- The status that `Retry` takes: failed or timed out.
abbrev pub is_retryable : NodeProjection → Bool
is_retryable n =
    same_status n.status AttemptStatus.failed || same_status n.status AttemptStatus.timed_out

none≢some_node : {n : NodeProjection} → none ≢ some n
none≢some_node h = cc

insert_elsewhere :
    (k j : String) (v n : NodeProjection) (m : Assoc NodeProjection)
    → lookup k m ≡ none
    → lookup j m ≡ some n
    → lookup j (insert k v m) ≡ some n
insert_elsewhere k j v n m missing there = elim (Bool-cases (str_eq k j)) [
  | inl same ↦
      absurd (none≢some_node (sym missing ∙ ap (λ i. lookup i m) ((eq_iff k j).0 same) ∙ there))
  | inr other ↦ lookup-insert k j v m ∙ rw other there
]

-- A node that `Retry` takes is there.
abbrev pub has_retryable : Option NodeProjection → Bool
has_retryable none = false
has_retryable (some n) = is_retryable n

-- Where no node has the ID as it was given, `Retry` leaves every node as it was, whatever it answers;
-- and it gives no error exactly where the trimmed ID is that of a node that has failed or timed out.
-- So with space around the ID of such a node, it reports a success and does not open the node.
pub retry_misses_spaced_id :
    (p : PlanProjection) (node_id j : String) (n : NodeProjection)
    → lookup node_id p.nodes ≡ none
    → lookup j p.nodes ≡ some n
    → (lookup j (retry p node_id).0.nodes ≡ some n)
      × (is_none (retry p node_id).1 ≡ has_retryable (lookup (trim_space node_id) p.nodes))
unfolding retry
retry_misses_spaced_id p node_id j n missing there =
    elim (Option-cases (lookup (trim_space node_id) p.nodes)) [
      | inl absent ↦ (rw (retry, absent) there, rw (retry, absent) refl)
      | inr (old, found) ↦ elim (Bool-cases (is_retryable old)) [
        | inl failed ↦ (
          ground (
            arith,
            found,
            failed,
            insert_elsewhere node_id j (record old { status = AttemptStatus.ready }) n p.nodes
                missing there,
          ),
          ground (arith, found, failed),
        )
        | inr settled ↦ (ground (arith, found, settled, there), ground (arith, found, settled))
      ]
    ]
