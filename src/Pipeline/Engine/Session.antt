-- ===== src/Pipeline/Engine/Session.antt =====
-- Session continuity and the append-only context: internal/pipeline/engine.go.
use adro.Prelude.{
  ◌≡◌, refl, sym, ◌∙◌, Bool-cases, ◌⊎◌, inl, inr, Bool, true, false, not, arith, List, [], ◌∷◌,
  ◌++◌, none, String, str_eq, eq_iff, if◌then◌else◌, any, ◌||◌,
}
use mathlib.Core.List.{append-nil, append_assoc}
use adro.Prelude.Text.{is_blank, trim_space}
use adro.Pipeline.Stage.{PipelineStage, development}
use adro.Pipeline.Run.{Time, PipelineContext, PipelineRun, PipelineStepResult}
use adro.Pipeline.Engine.{
  Step, on, stop, account, accounted, commit, apply, with_context, merge_context, append_unique,
  append_unseen,
}

-- `ys` starts with `xs`.
abbrev pub Extends {ℓ} : {A : Type ℓ} → List A → List A → Type ℓ
Extends {A} xs ys = (more : List A) × (ys ≡ xs ++ more)

append_unseen-Extends : (seen acc vs : List String) → Extends acc (append_unseen seen acc vs)
unfolding append_unseen
append_unseen-Extends seen acc [] = ([], sym (append-nil acc))
append_unseen-Extends seen acc (v ∷ vs) =
    elim (Bool-cases (str_eq (trim_space v) "" || any (str_eq (trim_space v)) seen)) [
      | inl skip ↦ rw skip (append_unseen-Extends seen acc vs)
      | inr add ↦
          let (more, e) =
            append_unseen-Extends (trim_space v ∷ seen) (acc ++ trim_space v ∷ []) vs in
          rw add (trim_space v ∷ more, e ∙ append_assoc acc (trim_space v ∷ []) more)
    ]

abbrev run_of : Step → PipelineRun
run_of (on s) = s
run_of (stop s e) = s

account_ctx :
    (g : PipelineStage) (r : PipelineRun) (x : PipelineStepResult)
    → (run_of (account g r x)).ctx ≡ r.ctx
unfolding account
account_ctx development r x = ground arith
account_ctx _ r x = ground arith

commit_ctx :
    (x : PipelineStepResult) (now : Time) (s : Step) → (commit x now s).0.ctx ≡ (run_of s).ctx
unfolding commit
commit_ctx x now (stop s e) = refl
commit_ctx x now (on s) = ground arith

-- After any result the context is the old one, or the old one with the result merged into it.
apply_ctx :
    (r : PipelineRun) (x : PipelineStepResult) (now : Time)
    → ((apply r x now).0.ctx ≡ r.ctx) ⊎ ((apply r x now).0.ctx ≡ merge_context r.ctx x)
unfolding apply accounted
apply_ctx r x now =
    ground
      (arith, commit_ctx x now (accounted r x), account_ctx r.pipeline_stage (with_context r x) x)

-- What a context keeps when a result is merged into it.
abbrev pub AppendOnly : PipelineContext → PipelineContext → Type 0
AppendOnly c d =
    Extends c.passed_tests d.passed_tests
    × Extends c.failed_tests d.failed_tests
    × Extends c.error_logs d.error_logs
    × Extends c.repair_notes d.repair_notes
    × (d.requirement_text ≡ c.requirement_text)

append_unique-Extends : (xs ys : List String) → Extends xs (append_unique xs ys)
unfolding append_unique
append_unique-Extends xs ys = append_unseen-Extends xs xs ys

Extends-self : (xs : List String) → Extends xs xs
Extends-self xs = ([], sym (append-nil xs))

add_note-Extends :
    (b : Bool) (xs : List String) (v : String) → Extends xs (if b then xs ++ v ∷ [] else xs)
add_note-Extends true xs v = (v ∷ [], refl)
add_note-Extends false xs v = Extends-self xs

merge_context-AppendOnly :
    (c : PipelineContext) (x : PipelineStepResult) → AppendOnly c (merge_context c x)
unfolding merge_context
merge_context-AppendOnly c x = (
  append_unique-Extends c.passed_tests x.passed_tests,
  append_unique-Extends c.failed_tests x.failed_tests,
  add_note-Extends (not (is_blank x.error_log)) c.error_logs x.error_log,
  add_note-Extends (not (is_blank x.repair_note)) c.repair_notes x.repair_note,
  refl,
)

-- The context is append-only: whatever the result, and whether it is accepted or refused, the test
-- lists, the error logs and the repair notes are extended at their ends and the requirement's text
-- is kept.
pub context-AppendOnly :
    (r : PipelineRun) (x : PipelineStepResult) (now : Time) → AppendOnly r.ctx (apply r x now).0.ctx
context-AppendOnly r x now = elim (apply_ctx r x now) [
  | inl e ↦ rw e (
    Extends-self r.ctx.passed_tests,
    Extends-self r.ctx.failed_tests,
    Extends-self r.ctx.error_logs,
    Extends-self r.ctx.repair_notes,
    refl,
  )
  | inr e ↦ rw e (merge_context-AppendOnly r.ctx x)
]

merge_baseline :
    (c : PipelineContext) (x : PipelineStepResult)
    → str_eq c.baseline_commit "" ≡ false
    → (merge_context c x).baseline_commit ≡ c.baseline_commit
unfolding merge_context
merge_baseline c x h = ground arith

-- The baseline commit, once set, is never replaced.
pub baseline_pinned :
    (r : PipelineRun) (x : PipelineStepResult) (now : Time)
    → str_eq r.ctx.baseline_commit "" ≡ false
    → (apply r x now).0.ctx.baseline_commit ≡ r.ctx.baseline_commit
baseline_pinned r x now h = elim (apply_ctx r x now) [
  | inl e ↦ rw e
  | inr e ↦ rw e (merge_baseline r.ctx x h)
]

-- The session and the work directory of a run.
abbrev pub SameSession : PipelineRun → PipelineRun → Type 0
SameSession r s =
    (s.parent_session_id ≡ r.parent_session_id) × (s.provider_work_dir ≡ r.provider_work_dir)

account-SameSession :
    (g : PipelineStage) (r : PipelineRun) (x : PipelineStepResult)
    → str_eq r.parent_session_id "" ≡ false
    → SameSession r (run_of (account g r x))
unfolding account
account-SameSession development r x h = ground arith
account-SameSession _ r x h = ground arith

commit-SameSession :
    (x : PipelineStepResult) (now : Time) (s : Step) → SameSession (run_of s) (commit x now s).0
unfolding commit
commit-SameSession x now (stop s e) = (refl, refl)
commit-SameSession x now (on s) = ground arith

-- Once a session is pinned, no result changes the run's session or its work directory.
pub session_pinned :
    (r : PipelineRun) (x : PipelineStepResult) (now : Time)
    → str_eq r.parent_session_id "" ≡ false
    → SameSession r (apply r x now).0
unfolding apply accounted
session_pinned r x now h = ground (
  arith,
  commit-SameSession x now (accounted r x),
  account-SameSession r.pipeline_stage (with_context r x) x h,
)

abbrev is_on : Step → Bool
is_on (on s) = true
is_on (stop s e) = false

account_accepts :
    (g : PipelineStage) (r : PipelineRun) (x : PipelineStepResult)
    → g ≡ development
    → is_on (account g r x) ≡ true
    → str_eq r.parent_session_id "" ≡ false
    → (x.provider_session_id ≡ r.parent_session_id) × (x.provider_work_dir ≡ r.provider_work_dir)
unfolding account
account_accepts development r x g e h = ground (
  arith,
  eq_iff x.provider_session_id r.parent_session_id,
  eq_iff x.provider_work_dir r.provider_work_dir,
)
account_accepts _ r x g e h = cc

commit_on :
    (x : PipelineStepResult) (now : Time) (s : Step) → (commit x now s).1 ≡ none → is_on s ≡ true
unfolding commit
commit_on x now (on s) h = refl
commit_on x now (stop s e) h = cc

apply-none :
    (r : PipelineRun) (x : PipelineStepResult) (now : Time)
    → (apply r x now).1 ≡ none
    → (commit x now (accounted r x)).1 ≡ none
unfolding apply
apply-none r x now h = ground arith

-- A development result that is accepted for a run with a pinned session comes from that very session
-- and work directory.
pub development_continues :
    (r : PipelineRun) (x : PipelineStepResult) (now : Time)
    → r.pipeline_stage ≡ development
    → str_eq r.parent_session_id "" ≡ false
    → (apply r x now).1 ≡ none
    → (x.provider_session_id ≡ r.parent_session_id) × (x.provider_work_dir ≡ r.provider_work_dir)
development_continues r x now g h e =
    let ok : is_on (account r.pipeline_stage (with_context r x) x) ≡ true =
      unfold accounted in commit_on x now (accounted r x) (apply-none r x now e) in
    account_accepts r.pipeline_stage (with_context r x) x g ok h
