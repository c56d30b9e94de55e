-- ===== src/Orchestration/Repair/Rounds.antt =====
-- Repair rounds are bounded: internal/orchestration/transition.go.
use adro.Prelude.{
  ◌≡◌, inl, inr, true, none, some, arith, ◌≤◌, ◌<◌, ◌^◌, All, if◌then◌else◌, str_eq, Bool-cases,
  Option-cases,
}
use adro.Prelude.Int.{pos_part, neg_part, add64, ltb_ℤ}
use adro.Prelude.Assoc.{lookup, All-insert, All-lookup}
use adro.Orchestration.Projection.{
  RepairLifecycle, planned, dispatched, patched, verifying, verified, exhausted, RepairPlan,
  NodeAttempt, PlanProjection, ok, err, invalid_transition,
}
use adro.Orchestration.Repair.Contract.{is_retryable_provider_failure}
use adro.Orchestration.Repair.Lifecycle.{set_repair_state}
use adro.Orchestration.Repair.Advance.{
  reset_repair_round, save_repair, next_round, Advanced, reopen_or_exhaust, fail_round,
  patch_passed, verification_passed, advance_repair, advance_repair_attempt,
}

-- The round of a plan is within its limit, which an `int` holds.
abbrev pub RoundIsBounded : RepairPlan → Type 0
RoundIsBounded r =
    (neg_part r.round ≡ 0)
    × (pos_part r.round ≤ pos_part r.max_rounds)
    × (pos_part r.max_rounds < 2 ^ 63)

abbrev pub RoundsAreBounded : PlanProjection → Type 0
RoundsAreBounded p = All (λ e. RoundIsBounded e.1) p.repair_plans

set_repair_state_rounds :
    (r r' : RepairPlan) (next : RepairLifecycle)
    → set_repair_state r next ≡ some r'
    → RoundIsBounded r
    → RoundIsBounded r'
unfolding set_repair_state
set_repair_state_rounds r r' next h b = ground arith

save_repair_rounds :
    (p : PlanProjection) (r : RepairPlan)
    → RoundsAreBounded p
    → RoundIsBounded r
    → RoundsAreBounded (save_repair p r)
unfolding save_repair
save_repair_rounds p r b k = All-insert RoundIsBounded r.id r p.repair_plans b k

next_round_bounded :
    (r : RepairPlan)
    → RoundIsBounded r
    → ltb_ℤ r.round r.max_rounds ≡ true
    → RoundIsBounded (next_round r)
unfolding next_round add64
next_round_bounded r b h = ground arith

reopen_or_exhaust_rounds :
    (p : PlanProjection) (r : RepairPlan)
    → RoundsAreBounded p
    → RoundIsBounded r
    → RoundsAreBounded (reopen_or_exhaust p r).0
unfolding reopen_or_exhaust reset_repair_round
reopen_or_exhaust_rounds p r b k = elim (Bool-cases (ltb_ℤ r.round r.max_rounds)) [
  | inl less ↦ elim (Option-cases (set_repair_state (next_round r) planned)) [
    | inl refused ↦ rw (reopen_or_exhaust, less, refused) b
    | inr (r', kept) ↦
        rw (reopen_or_exhaust, less, kept)
          (save_repair_rounds (reset_repair_round p (next_round r)) r' b
            (set_repair_state_rounds (next_round r) r' planned kept (next_round_bounded r k less)))
  ]
  | inr more ↦ elim (Option-cases (set_repair_state r exhausted)) [
    | inl refused ↦ rw (reopen_or_exhaust, more, refused) b
    | inr (r', kept) ↦
        rw (reopen_or_exhaust, more, kept)
          (save_repair_rounds p r' b (set_repair_state_rounds r r' exhausted kept k))
  ]
]

fail_round_rounds :
    (p : PlanProjection) (r : RepairPlan)
    → RoundsAreBounded p
    → RoundIsBounded r
    → RoundsAreBounded (fail_round p r).0
unfolding fail_round
fail_round_rounds p r b k = elim (Option-cases (set_repair_state r RepairLifecycle.failed)) [
  | inl refused ↦ rw (fail_round, refused) b
  | inr (r', kept) ↦
      rw (fail_round, kept)
        (reopen_or_exhaust_rounds p r' b
          (set_repair_state_rounds r r' RepairLifecycle.failed kept k))
]

patch_passed_rounds :
    (p : PlanProjection) (r : RepairPlan) (a : NodeAttempt)
    → RoundsAreBounded p
    → RoundIsBounded r
    → RoundsAreBounded (patch_passed p r a).0
unfolding patch_passed
patch_passed_rounds p r a b k = elim (Option-cases (set_repair_state r patched)) [
  | inl refused ↦ rw (patch_passed, refused) b
  | inr (r', kept) ↦
      rw (patch_passed, kept)
        (All-insert RoundIsBounded r'.id _ p.repair_plans b
          (set_repair_state_rounds r r' patched kept k))
]

state_rounds :
    (p shared : PlanProjection) (r : RepairPlan) (next : RepairLifecycle)
    → RoundsAreBounded p
    → RoundIsBounded r
    → RoundsAreBounded shared
    → RoundsAreBounded
        (elim (set_repair_state r next) as (λ o. Advanced) [
          | none ↦ (shared, err invalid_transition)
          | some r' ↦ (save_repair p r', ok next)
        ]).0
state_rounds p shared r next b k m = elim (Option-cases (set_repair_state r next)) [
  | inl refused ↦ rw refused m
  | inr (r', kept) ↦ rw kept (save_repair_rounds p r' b (set_repair_state_rounds r r' next kept k))
]

verification_passed_rounds :
    (p : PlanProjection) (r : RepairPlan) (a : NodeAttempt)
    → RoundsAreBounded p
    → RoundIsBounded r
    → RoundsAreBounded (verification_passed p r a).0
unfolding verification_passed
verification_passed_rounds p r a b k =
    state_rounds p _ _ _ b k (All-insert RoundIsBounded a.repair_plan_id _ p.repair_plans b k)

advance_repair_rounds :
    (s : RepairLifecycle) (p : PlanProjection) (r : RepairPlan) (a : NodeAttempt)
    → RoundsAreBounded p
    → RoundIsBounded r
    → RoundsAreBounded (advance_repair s p r a).0
unfolding advance_repair
advance_repair_rounds dispatched p r a b k =
    ground (arith, fail_round_rounds p r b k, patch_passed_rounds p r a b k)
advance_repair_rounds verifying p r a b k =
    ground (arith, fail_round_rounds p r b k, verification_passed_rounds p r a b k)
advance_repair_rounds planned p r a b k = b
advance_repair_rounds patched p r a b k = b
advance_repair_rounds verified p r a b k = b
advance_repair_rounds RepairLifecycle.failed p r a b k = b
advance_repair_rounds exhausted p r a b k = b
advance_repair_rounds RepairLifecycle.unset p r a b k = b
advance_repair_rounds (RepairLifecycle.unknown t) p r a b k = b

known_plan_rounds :
    (p : PlanProjection) (r : RepairPlan) (a : NodeAttempt)
    → RoundsAreBounded p
    → RoundIsBounded r
    → RoundsAreBounded
        (if is_retryable_provider_failure a
          then (save_repair p r, ok a.repair_state)
          else advance_repair a.repair_state p r a).0
known_plan_rounds p r a b k =
    ground (arith, save_repair_rounds p r b k, advance_repair_rounds a.repair_state p r a b k)

-- Where every stored repair plan has a round between 0 and its limit, and a limit below 2 ^ 63,
-- `advanceRepairAttemptState` keeps it so, for every attempt and with an error or without.
pub rounds_stay_bounded :
    (p : PlanProjection) (a : NodeAttempt)
    → RoundsAreBounded p
    → RoundsAreBounded (advance_repair_attempt p a).0
unfolding advance_repair_attempt
rounds_stay_bounded p a b = elim (Bool-cases (str_eq a.repair_plan_id "")) [
  | inl free ↦ rw (advance_repair_attempt, free) b
  | inr bound ↦
      rw (advance_repair_attempt, bound)
        (elim (Option-cases (lookup a.repair_plan_id p.repair_plans)) [
          | inl absent ↦ rw absent b
          | inr (r, found) ↦ rw found (
              known_plan_rounds p r a b
                (All-lookup RoundIsBounded a.repair_plan_id r p.repair_plans b found))
        ])
]
