-- ===== src/Pipeline/Engine/Progress.antt =====
-- A pipeline run ends: internal/pipeline/engine.go.
use adro.Prelude.{
  length, ap, ℕ, ◌+◌, ◌-◌, ◌*◌, ◌≤◌, ◌<◌, ◌≡◌, ◌∙◌, ◌||◌, true, false, arith, List, [], ◌∷◌, none,
  String, str_eq,
}
use adro.Prelude.Int.{pos_part}
use adro.Pipeline.Stage.{
  PipelineStage, design, development, unit_test, integration, arbitration, revalidation, report,
  other, running,
}
use adro.Pipeline.Run.{Time, PipelineRun, PipelineStepResult}
use adro.Pipeline.Next.{go, next_default, needs_approval}
use adro.Pipeline.Engine.{on, account, apply, with_context}
use adro.Pipeline.Engine.Retries.{
  apply-IsBounded, IsBounded, add64_one, outcome_one, apply-Ran, account_keeps, account-IsBounded,
  IsBounded-context,
}

-- How far a stage stands from the end.
abbrev pub weight : PipelineStage → ℕ
weight design = 7
weight development = 6
weight unit_test = 5
weight integration = 4
weight revalidation = 3
weight arbitration = 2
weight report = 1
weight (other n) = 0

-- A bound on the results that a run can still accept while it is running.
abbrev pub remaining : PipelineStage → PipelineRun → ℕ
remaining g r =
    8
      * (pos_part r.max_retries
          - pos_part r.retry_count
          + (pos_part r.max_retries - pos_part r.unit_retry_count))
    + weight g

account_falls :
    (g to : PipelineStage) (r s : PipelineRun) (x : PipelineStepResult) (why : String)
    → IsBounded r
    → IsBounded s
    → needs_approval s ≡ false
    → (str_eq x.outcome "pass" || str_eq x.outcome "fail") ≡ true
    → account g r x ≡ on s
    → next_default g s x ≡ go to running why
    → remaining to s < remaining g r
unfolding account next_default
account_falls development to r s x why b c a d h n =
    ground (arith, add64_one r.retry_count, outcome_one x.outcome)
account_falls unit_test to r s x why b c a d h n =
    ground (arith, add64_one r.unit_retry_count, outcome_one x.outcome)
account_falls arbitration to r s x why b c a d h n = ground (arith, add64_one r.retry_count)
account_falls integration to r s x why b c a d h n = ground arith
account_falls _ to r s x why b c a d h n = ground arith

-- Results that a run accepts one after the other, running after each.
abbrev pub RunsOn : PipelineRun → List (PipelineStepResult × Time) → Type 0
RunsOn r [] = Unit
RunsOn r ((x, now) ∷ xs) =
    ((apply r x now).1 ≡ none) × ((apply r x now).0.status ≡ running) × RunsOn (apply r x now).0 xs

approval_kept :
    (s r : PipelineRun) (x : PipelineStepResult)
    → needs_approval s ≡ needs_approval (with_context r x)
    → needs_approval r ≡ false
    → needs_approval s ≡ false
unfolding needs_approval
approval_kept s r x e a = ground arith

remaining_bound :
    (g : PipelineStage) (r : PipelineRun) → remaining g r ≤ 16 * pos_part r.max_retries + 7
remaining_bound g r = ground arith

apply_falls :
    (r r' : PipelineRun) (x : PipelineStepResult) (now : Time)
    → IsBounded r
    → needs_approval r ≡ false
    → apply r x now ≡ (r', none)
    → r'.status ≡ running
    → (remaining r'.pipeline_stage r' < remaining r.pipeline_stage r) × (needs_approval r' ≡ false)
apply_falls r r' x now b a h n =
    let (s, ran) = apply-Ran r r' x now b.default_steps h n in
    let kept = account_keeps r.pipeline_stage (with_context r x) s x ran.counted in
    let c : IsBounded s =
      account-IsBounded r.pipeline_stage r'.pipeline_stage (with_context r x) s x r'.suspend_reason
        (IsBounded-context r x b) ran.counted ran.routed in
    let plain : needs_approval s ≡ false = approval_kept s r x kept.2 a in
    let falls =
      account_falls r.pipeline_stage r'.pipeline_stage (with_context r x) s x r'.suspend_reason
        (IsBounded-context r x b) c plain ran.decided ran.counted ran.routed in
    (ground (arith, ran, falls), ran.approval ∙ plain)

runs_fall :
    (r : PipelineRun) (xs : List (PipelineStepResult × Time))
    → IsBounded r
    → needs_approval r ≡ false
    → RunsOn r xs
    → length xs ≤ remaining r.pipeline_stage r
runs_fall r [] b a h = ground arith
runs_fall r ((x, now) ∷ xs) b a h =
    let r' = (apply r x now).0 in
    let accepted : apply r x now ≡ (r', none) = ap (λ e. (r', e)) h.0 in
    let falls = apply_falls r r' x now b a accepted h.1 in
    let rest = runs_fall r' xs (apply-IsBounded r r' x now b accepted h.1) falls.1 h.2 in
    ground (arith, falls.0, rest)

-- A pipeline ends. A run with the default workflow, without design approval and with its counters
-- within its limit accepts, while it keeps running, no more results than its stage and counters leave
-- room for, which is at most sixteen times the limit and seven.
pub pipeline_terminates :
    (r : PipelineRun) (xs : List (PipelineStepResult × Time))
    → IsBounded r
    → needs_approval r ≡ false
    → RunsOn r xs
    → (length xs ≤ remaining r.pipeline_stage r) × (length xs ≤ 16 * pos_part r.max_retries + 7)
pipeline_terminates r xs b a h =
    let fits = runs_fall r xs b a h in
    (fits, ground (arith, fits, remaining_bound r.pipeline_stage r))
