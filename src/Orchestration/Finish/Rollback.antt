-- ===== src/Orchestration/Finish/Rollback.antt =====
-- What an error of `FinishAttempt` leaves as it was: internal/orchestration/transition.go.
use adro.Prelude.{
  ◌≡◌, refl, ap, ◌∙◌, inl, inr, Bool, not, ◌&&◌, none, some, arith, String, str_eq, Bool-cases,
  Option-cases, if◌then◌else◌, eq_iff,
}
use adro.Prelude.Int.{pos, eqb_ℤ}
use adro.Prelude.Assoc.{
  Assoc, lookup, lookup_or, insert, delete, lookup-insert, lookup-delete, lookup-insert_back,
}
use adro.Orchestration.Projection.{
  Time, NodeAttempt, NodeProjection, PlanProjection, RequirementExecutionPlan, TransitionInput, ok,
  err, Error, Result-cases, now_or,
}
use adro.Orchestration.Route.{Routed, node_definition}
use adro.Orchestration.Route.Records.{records}
use adro.Orchestration.Repair.Shell.{shell}
use adro.Orchestration.Finish.Checks.{event_status, Usage, result_usage}
use adro.Orchestration.Finish.Contract.{repair_step, stamp, with_result}
use adro.Orchestration.Finish.Commit.{commit_attempt, roll_back, note_reason, Finished, settle}
use adro.Orchestration.Finish.Attempt.{
  Gate, pass, replay, reject, complete, finish_current, finish_attempt,
}
use adro.Orchestration.Finish.Carried.{shell-repair_step}
use adro.Orchestration.Finish.Routed.{routed, routed_records}

-- Attempts and idempotency keys read the same; the counters, decisions and status are the same.
pub record IsKept (p q : PlanProjection) : Type 0 where
  pub attempts : (j : String) → lookup j q.attempts ≡ lookup j p.attempts
  pub idempotency : (k : String) → lookup k q.idempotency ≡ lookup k p.idempotency
  pub traversals : q.traversals ≡ p.traversals
  pub decisions : q.decisions ≡ p.decisions
  pub status : q.status ≡ p.status

keys_back :
    (m b : Assoc String) (key hash k : String)
    → m ≡ (if str_eq key "" then b else insert key hash b)
    → lookup k (
        if str_eq key "" then m else elim (lookup key b) as (λ _. Assoc String) [
          | none ↦ delete key m
          | some h ↦ insert key h m
        ])
      ≡ lookup k b
keys_back m b key hash k e = elim (Bool-cases (str_eq key "")) [
  | inl empty ↦ rw empty (ap (lookup k) (rw empty at e))
  | inr used ↦
      (let e' : m ≡ insert key hash b = rw used at e in
        elim (Option-cases (lookup key b)) [
          | inl absent ↦
              rw (used, absent, e')
                (ground (
                  arith,
                  eq_iff key k,
                  lookup-delete key k (insert key hash b),
                  lookup-insert key k hash b,
                ))
          | inr (h, found) ↦ rw (used, found, e') (lookup-insert_back key k hash h b found)
        ])
]

pub roll_back-IsKept :
    (before q : PlanProjection) (id key hash : String) (a a0 : NodeAttempt) (n : NodeProjection)
    (out : Usage)
    → lookup id before.attempts ≡ some a0
    → records q ≡ records (commit_attempt before id key hash a n out)
    → IsKept before (roll_back before q id key a)
unfolding roll_back commit_attempt records lookup_or lookup
roll_back-IsKept before q id key hash a a0 n out h same =
    let kept : q.attempts ≡ insert id a before.attempts = ap (λ r. r.attempts) same in
    let keys : q.idempotency
        ≡ (if str_eq key "" then before.idempotency else insert key hash before.idempotency) =
      ap (λ r. r.idempotency) same in
    record {
      attempts = λ j. rw (kept, lookup_or, h) (lookup-insert_back id j a a0 before.attempts h);
      idempotency = λ k. keys_back q.idempotency before.idempotency key hash k keys;
      traversals = refl;
      decisions = refl;
      status = refl;
    }

IsKept-shell : (p q : PlanProjection) → shell q ≡ shell p → IsKept p q
unfolding shell
IsKept-shell p q e = record {
  attempts = λ j. ap (λ x. lookup j x.attempts) e;
  idempotency = λ k. ap (λ x. lookup k x.idempotency) e;
  traversals = ap (λ x. x.traversals) e;
  decisions = ap (λ x. x.decisions) e;
  status = ap (λ x. x.status) e;
}

answered-IsKept :
    (before : PlanProjection) (id key : String) (a : NodeAttempt) (r : Routed) {e : Error}
    → IsKept before (roll_back before r.0 id key a)
    → (elim r.1 as (λ _. Finished) [
      | some x ↦ (roll_back before r.0 id key a, err x)
      | none ↦ (note_reason a r.0, ok a)
    ]).1
      ≡ err e
    → IsKept before
        (elim r.1 as (λ _. Finished) [
          | some x ↦ (roll_back before r.0 id key a, err x)
          | none ↦ (note_reason a r.0, ok a)
        ]).0
answered-IsKept before id key a (q, some x) k f = k
answered-IsKept before id key a (q, none) k f = cc

IsKept-trans : {p q r : PlanProjection} → IsKept p q → IsKept q r → IsKept p r
IsKept-trans a b = record {
  attempts = λ j. b.attempts j ∙ a.attempts j;
  idempotency = λ k. b.idempotency k ∙ a.idempotency k;
  traversals = b.traversals ∙ a.traversals;
  decisions = b.decisions ∙ a.decisions;
  status = b.status ∙ a.status;
}

gate-IsKept :
    (p : PlanProjection) (a : NodeAttempt) (g : Gate) (c : Finished) {e : Error}
    → IsKept p p
    → (c.1 ≡ err e → IsKept p c.0)
    → (elim g as (λ _. Finished) [ replay ↦ (p, ok a) | reject x ↦ (p, err x) | pass ↦ c ]).1
      ≡ err e
    → IsKept p
        (elim g as (λ _. Finished) [ replay ↦ (p, ok a) | reject x ↦ (p, err x) | pass ↦ c ]).0
gate-IsKept p a replay c k m f = k
gate-IsKept p a (reject x) c k m f = k
gate-IsKept p a pass c k m f = m f

settle-IsKept :
    (clock : Time) (plan : RequirementExecutionPlan) (i : TransitionInput) (id key hash : String)
    (n : NodeProjection) (before : PlanProjection) (prepared a0 : NodeAttempt) {e : Error}
    → lookup id before.attempts ≡ some a0
    → (settle clock plan i id key hash n before prepared).1 ≡ err e
    → IsKept before (settle clock plan i id key hash n before prepared).0
unfolding settle routed
settle-IsKept clock plan i id key hash n before prepared a0 h =
    let a = stamp prepared (now_or clock i.now) in
    let r = routed clock plan i id key hash n before a in
    answered-IsKept before id key a r (
      roll_back-IsKept before r.0 id key hash a a0 n (result_usage i.result) h
        (routed_records clock plan i id key hash n before a))

complete-IsKept :
    (clock : Time) (plan : RequirementExecutionPlan) (i : TransitionInput) (id key hash : String)
    (n : NodeProjection) (p : PlanProjection) (a : NodeAttempt) {e : Error}
    → lookup id p.attempts ≡ some a
    → (complete clock plan i id key hash n p a).1 ≡ err e
    → IsKept p (complete clock plan i id key hash n p a).0
unfolding complete
complete-IsKept clock plan i id key hash n p a h f = elim (Option-cases (event_status i.event)) [
  | inl absent ↦ rw (complete, absent) (IsKept-shell p p refl)
  | inr (s, known) ↦
      (let node = node_definition plan.graph_snapshot a.node_id in
        let b = with_result a i s in
        let k : IsKept p (repair_step plan node p b).0 =
          IsKept-shell p _ (shell-repair_step plan node p b) in
        elim (Result-cases (repair_step plan node p b).1) [
          | inr (x, failed) ↦ rw (complete, known, failed) k
          | inl (c, done) ↦
              rw (complete, known, done)
                (IsKept-trans k (
                  settle-IsKept clock plan i id key hash n (repair_step plan node p b).0 c a
                    (k.attempts id ∙ h) (rw (complete, known, done) at f)))
        ])
]

finish_current-IsKept :
    (payload_hash : TransitionInput → String) (clock : Time) (plan : RequirementExecutionPlan)
    (id : String) (i : TransitionInput) (p : PlanProjection) (a : NodeAttempt) (n : NodeProjection)
    {e : Error}
    → lookup id p.attempts ≡ some a
    → (finish_current payload_hash clock plan id i p a n).1 ≡ err e
    → IsKept p (finish_current payload_hash clock plan id i p a n).0
unfolding finish_current
finish_current-IsKept payload_hash clock plan id i p a n h =
    gate-IsKept p a _ _ (IsKept-shell p p refl) (complete-IsKept clock plan i id _ _ n p a h)

abbrev pub is_stale : TransitionInput → PlanProjection → Bool
is_stale i p = not (eqb_ℤ i.plan_revision (pos 0)) && not (eqb_ℤ i.plan_revision p.revision)

-- An error of `FinishAttempt` leaves the attempts and the idempotency keys as they read before, and
-- the traversal counters, the decisions and the plan's status as they were.
pub finish_error_keeps :
    (payload_hash : TransitionInput → String) (clock : Time) (plan : RequirementExecutionPlan)
    (id : String) (i : TransitionInput) (p : PlanProjection) {e : Error}
    → (finish_attempt payload_hash clock plan id i p).1 ≡ err e
    → IsKept p (finish_attempt payload_hash clock plan id i p).0
unfolding finish_attempt
finish_error_keeps payload_hash clock plan id i p f =
    let self = IsKept-shell p p refl in
    elim (Option-cases (lookup id p.attempts)) [
      | inl absent ↦ rw (finish_attempt, absent) self
      | inr (a, found) ↦ elim (Bool-cases (is_stale i p)) [
        | inl stale ↦ rw (finish_attempt, found, stale) self
        | inr fresh ↦ elim (Option-cases (lookup a.node_id p.nodes)) [
          | inl lost ↦ rw (finish_attempt, found, fresh, lost) self
          | inr (n, known) ↦ elim (Bool-cases (not (str_eq n.current_attempt id))) [
            | inl other ↦ rw (finish_attempt, found, fresh, known, other) self
            | inr current ↦
                rw (finish_attempt, found, fresh, known, current)
                  (finish_current-IsKept payload_hash clock plan id i p a n found
                    (rw (finish_attempt, found, fresh, known, current) at f))
          ]
        ]
      ]
    ]
