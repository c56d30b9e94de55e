-- ===== src/Orchestration/Finish/Lineage.antt =====
-- Attempts that have ended are never written again: `FinishAttempt`, internal/orchestration/transition.go.
use adro.Prelude.{
  ◌≡◌, ◌≢◌, refl, sym, ap, ◌∙◌, ◌⊎◌, inl, inr, Bool, true, false, not, ◌&&◌, none, some, arith,
  String, str_eq, Bool-cases, Option-cases, if◌then◌else◌, eq_iff,
}
use mathlib.Core.Option.{some-injective}
use adro.Prelude.Assoc.{Assoc, lookup, lookup_or, insert, lookup-insert}
use adro.Prelude.Text.{trim_space}
use adro.Orchestration.Projection.{
  Time, AttemptStatus, NodeAttempt, NodeProjection, PlanProjection, RequirementExecutionPlan,
  TransitionInput, ok, err, now_or, Result-cases, same_status,
}
use adro.Orchestration.Route.{Routed, node_definition}
use adro.Orchestration.Route.Records.{records}
use adro.Orchestration.Repair.Shell.{shell}
use adro.Orchestration.Finish.Checks.{event_status}
use adro.Orchestration.Finish.Contract.{repair_step, stamp, with_result}
use adro.Orchestration.Finish.Commit.{commit_attempt, roll_back, note_reason, Finished, settle}
use adro.Orchestration.Finish.Attempt.{
  Gate, pass, replay, reject, replay_gate, state_gate, finish_gate, complete, finish_current,
  finish_attempt,
}
use adro.Orchestration.Finish.Rollback.{is_stale}
use adro.Orchestration.Finish.Routed.{routed, routed_records}
use adro.Orchestration.Finish.Carried.{shell-repair_step}

-- The attempt `j` reads as it did before.
abbrev SameAt : String → PlanProjection → PlanProjection → Type 0
SameAt j p q = lookup j q.attempts ≡ lookup j p.attempts

insert-SameAt :
    (id j : String) (a : NodeAttempt) (m : Assoc NodeAttempt)
    → id ≢ j
    → lookup j (insert id a m) ≡ lookup j m
insert-SameAt id j a m other = ground (arith, lookup-insert id j a m, eq_iff id j)

note_reason_attempts :
    (a : NodeAttempt) (p : PlanProjection) → (note_reason a p).attempts ≡ p.attempts
unfolding note_reason
note_reason_attempts a p = ground arith

answered-SameAt :
    (j : String) (before : PlanProjection) (id key : String) (a : NodeAttempt) (r : Routed)
    → id ≢ j
    → SameAt j before r.0
    → SameAt j before
        (elim r.1 as (λ _. Finished) [
          | some x ↦ (roll_back before r.0 id key a, err x)
          | none ↦ (note_reason a r.0, ok a)
        ]).0
unfolding roll_back
answered-SameAt j before id key a (q, some x) other same =
    insert-SameAt id j (lookup_or a id before.attempts) q.attempts other ∙ same
answered-SameAt j before id key a (q, none) other same = rw (note_reason_attempts a q) same

settle-SameAt :
    (clock : Time) (plan : RequirementExecutionPlan) (i : TransitionInput) (id key hash : String)
    (n : NodeProjection) (before : PlanProjection) (prepared : NodeAttempt) (j : String)
    → id ≢ j
    → SameAt j before (settle clock plan i id key hash n before prepared).0
unfolding settle routed records commit_attempt
settle-SameAt clock plan i id key hash n before prepared j other =
    let a = stamp prepared (now_or clock i.now) in
    answered-SameAt j before id key a (routed clock plan i id key hash n before a) other (
      ap (λ r. lookup j r.attempts) (routed_records clock plan i id key hash n before a)
      ∙ insert-SameAt id j a before.attempts other)

complete-SameAt :
    (clock : Time) (plan : RequirementExecutionPlan) (i : TransitionInput) (id key hash : String)
    (n : NodeProjection) (p : PlanProjection) (a : NodeAttempt) (j : String)
    → id ≢ j
    → SameAt j p (complete clock plan i id key hash n p a).0
unfolding complete shell
complete-SameAt clock plan i id key hash n p a j other =
    elim (Option-cases (event_status i.event)) [
      | inl absent ↦ rw (complete, absent) refl
      | inr (s, known) ↦
          (let node = node_definition plan.graph_snapshot a.node_id in
            let b = with_result a i s in
            let k : SameAt j p (repair_step plan node p b).0 =
              ap (λ x. lookup j x.attempts) (shell-repair_step plan node p b) in
            elim (Result-cases (repair_step plan node p b).1) [
              | inr (x, failed) ↦ rw (complete, known, failed) k
              | inl (c, done) ↦
                  rw (complete, known, done)
                    (settle-SameAt clock plan i id key hash n (repair_step plan node p b).0 c j
                        other
                      ∙ k)
            ])
    ]

-- The attempt can still be completed.
abbrev pub is_open : AttemptStatus → Bool
is_open AttemptStatus.running = true
is_open AttemptStatus.waiting = true
is_open _ = false

closed_gate :
    (plan : RequirementExecutionPlan) (p : PlanProjection) (a : NodeAttempt) (i : TransitionInput)
    (now : Time)
    → is_open a.status ≡ false
    → state_gate plan p a i now ≢ pass
unfolding state_gate same_status
closed_gate plan p a i now closed h = ground arith

gate-SameAt :
    (j : String) (p : PlanProjection) (a : NodeAttempt) (g s : Gate) (c : Finished)
    → (s ≢ pass) ⊎ SameAt j p c.0
    → SameAt j p
        (elim (elim g as (λ _. Gate) [ replay ↦ replay | reject e ↦ reject e | pass ↦ s ])
          as (λ _. Finished) [ replay ↦ (p, ok a) | reject x ↦ (p, err x) | pass ↦ c ]).0
gate-SameAt j p a replay s c k = refl
gate-SameAt j p a (reject e) s c k = refl
gate-SameAt j p a pass replay c k = refl
gate-SameAt j p a pass (reject e) c k = refl
gate-SameAt j p a pass pass c (inl no_pass) = absurd (no_pass refl)
gate-SameAt j p a pass pass c (inr same) = same

finish_current-SameAt :
    (payload_hash : TransitionInput → String) (clock : Time) (plan : RequirementExecutionPlan)
    (id : String) (i : TransitionInput) (p : PlanProjection) (a : NodeAttempt) (n : NodeProjection)
    (j : String)
    → (id ≢ j) ⊎ (is_open a.status ≡ false)
    → SameAt j p (finish_current payload_hash clock plan id i p a n).0
unfolding finish_current finish_gate
finish_current-SameAt payload_hash clock plan id i p a n j spared =
    let key = trim_space i.idempotency_key in
    let hash =
      if not (str_eq key "") && str_eq i.payload_hash "" then payload_hash i else i.payload_hash in
    let now = now_or clock i.now in
    gate-SameAt j p a (replay_gate p a i key hash) (state_gate plan p a i now)
      (complete clock plan i id key hash n p a)
      (elim spared [
        | inl other ↦ inr (complete-SameAt clock plan i id key hash n p a j other)
        | inr closed ↦ inl (closed_gate plan p a i now closed)
      ])

passed_by :
    (payload_hash : TransitionInput → String) (clock : Time) (plan : RequirementExecutionPlan)
    (id : String) (i : TransitionInput) (p : PlanProjection) (j : String)
    → ((a : NodeAttempt) → lookup id p.attempts ≡ some a → (id ≢ j) ⊎ (is_open a.status ≡ false))
    → SameAt j p (finish_attempt payload_hash clock plan id i p).0
unfolding finish_attempt
passed_by payload_hash clock plan id i p j spared = elim (Option-cases (lookup id p.attempts)) [
  | inl absent ↦ rw (finish_attempt, absent) refl
  | inr (a, found) ↦ elim (Bool-cases (is_stale i p)) [
    | inl stale ↦ rw (finish_attempt, found, stale) refl
    | inr fresh ↦ elim (Option-cases (lookup a.node_id p.nodes)) [
      | inl lost ↦ rw (finish_attempt, found, fresh, lost) refl
      | inr (n, known) ↦ elim (Bool-cases (not (str_eq n.current_attempt id))) [
        | inl other ↦ rw (finish_attempt, found, fresh, known, other) refl
        | inr current ↦
            rw (finish_attempt, found, fresh, known, current)
              (finish_current-SameAt payload_hash clock plan id i p a n j (spared a found))
      ]
    ]
  ]
]

false≢true : false ≢ true
false≢true e = ground arith

-- The history of attempts is immutable: an attempt that neither runs nor waits reads the same after
-- every completion, of whatever attempt, with or without an error.
pub ended_attempts_stay :
    (payload_hash : TransitionInput → String) (clock : Time) (plan : RequirementExecutionPlan)
    (id j : String) (i : TransitionInput) (p : PlanProjection) (b : NodeAttempt)
    → lookup j p.attempts ≡ some b
    → is_open b.status ≡ false
    → lookup j (finish_attempt payload_hash clock plan id i p).0.attempts ≡ some b
ended_attempts_stay payload_hash clock plan id j i p b found ended =
    passed_by payload_hash clock plan id i p j spared ∙ found
  where
    spared :
        (a : NodeAttempt) → lookup id p.attempts ≡ some a → (id ≢ j) ⊎ (is_open a.status ≡ false)
    spared a h = elim (Bool-cases (str_eq id j)) [
      | inl same ↦ inr (
          let e : id ≡ j = (eq_iff id j).0 same in
          let ab : a ≡ b = some-injective a b (sym h ∙ ap (λ x. lookup x p.attempts) e ∙ found) in
          rw ab ended)
      | inr other ↦ inl (λ e. false≢true (sym other ∙ (eq_iff id j).1 e))
    ]
