-- ===== src/Orchestration/Repair/Advance.antt =====
-- How a completion moves a repair plan: `advanceRepairAttemptState` of internal/orchestration/transition.go.
use adro.Prelude.{
  Bool, true, false, ◌&&◌, not, String, str_eq, List, [], ◌∷◌, none, some, if◌then◌else◌, any, all,
  is_empty, length, ◌==◌, leb,
}
use adro.Prelude.Int.{pos, ltb_ℤ, add64}
use adro.Prelude.Assoc.{Assoc, lookup, lookup_or, insert}
use adro.Orchestration.Projection.{
  AttemptStatus, RepairLifecycle, planned, dispatched, patched, verifying, verified, exhausted,
  NodeAttempt, RepairPlan, NodeProjection, PlanProjection, invalid_transition, Result, ok, err,
  same_status, is_setback,
}
use adro.Orchestration.Repair.Lifecycle.{same_state, set_repair_state, append_unique}
use adro.Orchestration.Repair.Contract.{is_retryable_provider_failure, target_marker}

-- One node of `resetRepairRound`.
unfoldable pub reset_node : RepairPlan → String → Assoc NodeProjection → Assoc NodeProjection
unfolding same_status
reset_node r node_id nodes = elim (lookup node_id nodes) [
  | none ↦ nodes
  | some n ↦
      if same_status n.status AttemptStatus.running
      then nodes
      else if str_eq node_id r.target_node_id
      then insert node_id
          (record n {
            retry_at = none;
            status = AttemptStatus.ready;
            ready_edge_ids = target_marker r.id ∷ [];
          })
          nodes
      else insert node_id
          (record n { retry_at = none; status = AttemptStatus.pending; ready_edge_ids = [] }) nodes
]

reset_nodes : RepairPlan → List String → Assoc NodeProjection → Assoc NodeProjection
unfolding reset_node
reset_nodes r [] nodes = nodes
reset_nodes r (id ∷ ids) nodes = reset_nodes r ids (reset_node r id nodes)

-- `resetRepairRound`
unfoldable pub reset_repair_round : PlanProjection → RepairPlan → PlanProjection
unfolding reset_nodes
reset_repair_round p r = record p {
  nodes = reset_nodes r (r.target_node_id ∷ r.verification_node_ids) p.nodes;
}

unfoldable pub save_repair : PlanProjection → RepairPlan → PlanProjection
save_repair p r = record p { repair_plans = insert r.id r p.repair_plans }

-- The plan of the next round: nothing is dispatched or verified yet.
unfoldable pub next_round : RepairPlan → RepairPlan
next_round r = record r {
  round = add64 r.round (pos 1);
  target_attempt_id = "";
  verification_attempts = [];
  verified_nodes = [];
}

abbrev pub Advanced : Type 0
Advanced = PlanProjection × Result RepairLifecycle

-- A plan that has failed: one round more, or the end.
unfoldable pub reopen_or_exhaust : PlanProjection → RepairPlan → Advanced
unfolding next_round reset_repair_round save_repair
reopen_or_exhaust p r =
    if ltb_ℤ r.round r.max_rounds
    then (let opened = next_round r in
        let cleared = reset_repair_round p opened in
        elim (set_repair_state opened planned) [
          | none ↦ (cleared, err invalid_transition)
          | some r' ↦ (save_repair cleared r', ok RepairLifecycle.failed)
        ])
    else elim (set_repair_state r exhausted) [
      | none ↦ (p, err invalid_transition)
      | some r' ↦ (save_repair p r', ok exhausted)
    ]

-- The branch of a failed, timed out or cancelled target or verification.
unfoldable pub fail_round : PlanProjection → RepairPlan → Advanced
unfolding reopen_or_exhaust
fail_round p r = elim (set_repair_state r RepairLifecycle.failed) [
  | none ↦ (p, err invalid_transition)
  | some r' ↦ reopen_or_exhaust p r'
]

-- A passed patch of the target.
unfoldable pub patch_passed : PlanProjection → RepairPlan → NodeAttempt → Advanced
unfolding save_repair
patch_passed p r a = elim (set_repair_state r patched) [
  | none ↦ (p, err invalid_transition)
  | some r' ↦ (
    save_repair p
        (record r' { patch_artifact_ids = append_unique r'.patch_artifact_ids a.output_artifacts }),
    ok patched,
  )
]

-- A passed verification. The map of verified nodes, which `createRepairPlan` makes, is shared with
-- the stored plan, so the write to it stays when the state cannot be set.
unfoldable pub verification_passed : PlanProjection → RepairPlan → NodeAttempt → Advanced
unfolding save_repair
verification_passed p r a =
    let marked = record r {
      verified_nodes = insert a.node_id true r.verified_nodes;
      verification_artifact_ids = append_unique r.verification_artifact_ids a.output_artifacts;
    } in
    let state =
      if length marked.verified_nodes == length r.verification_node_ids
      then verified
      else verifying in
    elim (set_repair_state marked state) [
      | none ↦ (
        record p {
          repair_plans =
              insert a.repair_plan_id (record r { verified_nodes = marked.verified_nodes })
                p.repair_plans;
        },
        err invalid_transition,
      )
      | some r' ↦ (save_repair p r', ok state)
    ]

-- The `switch` of `advanceRepairAttemptState`.
unfoldable pub advance_repair :
    RepairLifecycle → PlanProjection → RepairPlan → NodeAttempt → Advanced
unfolding same_status is_setback patch_passed verification_passed fail_round
advance_repair dispatched p r a =
    if same_status a.status AttemptStatus.passed
    then patch_passed p r a
    else if is_setback a.status
    then fail_round p r
    else (p, ok dispatched)
advance_repair verifying p r a =
    if same_status a.status AttemptStatus.passed
    then verification_passed p r a
    else if is_setback a.status
    then fail_round p r
    else (p, ok verifying)
advance_repair s p r a = (p, ok s)

-- `advanceRepairAttemptState`
unfoldable pub advance_repair_attempt : PlanProjection → NodeAttempt → Advanced
unfolding advance_repair is_retryable_provider_failure save_repair
advance_repair_attempt p a =
    if str_eq a.repair_plan_id ""
    then (p, ok a.repair_state)
    else elim (lookup a.repair_plan_id p.repair_plans) [
      | none ↦ (p, err invalid_transition)
      | some r ↦
          if is_retryable_provider_failure a
          then (save_repair p r, ok a.repair_state)
          else advance_repair a.repair_state p r a
    ]

-- The nodes that a plan names are all verified.
unfoldable pub repair_verified : RepairPlan → Bool
unfolding same_state
repair_verified r =
    same_state r.state verified
    && not (is_empty r.verification_node_ids)
    && leb (length r.verification_node_ids) (length r.verified_nodes)
    && all (λ v. lookup_or false v r.verified_nodes) r.verification_node_ids

-- `allRepairsVerified`
unfoldable pub all_repairs_verified : PlanProjection → Bool
unfolding repair_verified
all_repairs_verified p = all (λ e. repair_verified e.1) p.repair_plans

unfoldable pub is_open_repair : RepairLifecycle → Bool
is_open_repair planned = true
is_open_repair dispatched = true
is_open_repair patched = true
is_open_repair verifying = true
is_open_repair _ = false

-- `repairVerificationPending`
unfoldable pub repair_verification_pending : PlanProjection → Bool
unfolding is_open_repair
repair_verification_pending p = any (λ e. is_open_repair e.1.state) p.repair_plans
