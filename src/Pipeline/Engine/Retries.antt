-- ===== src/Pipeline/Engine/Retries.antt =====
-- Retry limits of a run with the default workflow: internal/pipeline/engine.go.
use adro.Prelude.{
  suc, ◌^◌, ◌≤◌, ◌<◌, ◌≡◌, refl, ◌||◌, true, false, arith, none, String, str_eq, eq_iff, is_empty,
}
use adro.Prelude.Int.{ℤ, pos, negsuc, add64, pos_part, neg_part}
use adro.Pipeline.Stage.{PipelineStage, development, unit_test, integration, arbitration, running}
use adro.Pipeline.Run.{Time, PipelineRun, PipelineStepResult}
use adro.Pipeline.Next.{go, next_stage, next_default, needs_approval}
use adro.Pipeline.Engine.{Step, on, stop, account, accounted, refusal, commit, apply, with_context}

-- Counters that are not negative, and a limit far from the end of the 64-bit range.
pub record IsBounded (r : PipelineRun) : Type 0 where
  pub default_steps : is_empty r.workflow ≡ true
  pub limit_sign : neg_part r.max_retries ≡ 0
  pub limit_room : pos_part r.max_retries < 2 ^ 62
  pub retry_sign : neg_part r.retry_count ≡ 0
  pub unit_sign : neg_part r.unit_retry_count ≡ 0
  pub retry_limited : pos_part r.retry_count ≤ pos_part r.max_retries
  pub unit_limited : pos_part r.unit_retry_count ≤ pos_part r.max_retries

-- One more on a 64-bit counter that is not at the end of its range.
pub add64_one :
    (z : ℤ)
    → neg_part z ≡ 0
    → pos_part z ≤ 2 ^ 62
    → (neg_part (add64 z (pos 1)) ≡ 0) × (pos_part (add64 z (pos 1)) ≡ suc (pos_part z))
unfolding add64
add64_one (pos n) h k = ground arith
add64_one (negsuc n) h k = omega arith

pub outcome_one : (s : String) → str_eq s "pass" ≡ true → str_eq s "fail" ≡ false
outcome_one s h = rw ((eq_iff s "pass").0 h)

pub account-IsBounded :
    (g to : PipelineStage) (r s : PipelineRun) (x : PipelineStepResult) (why : String)
    → IsBounded r
    → account g r x ≡ on s
    → next_default g s x ≡ go to running why
    → IsBounded s
unfolding account next_default
account-IsBounded development to r s x why b h n =
    ground (arith, add64_one r.retry_count, outcome_one x.outcome)
account-IsBounded unit_test to r s x why b h n =
    ground (arith, add64_one r.unit_retry_count, outcome_one x.outcome)
account-IsBounded arbitration to r s x why b h n = ground (arith, add64_one r.retry_count)
account-IsBounded integration to r s x why b h n = ground arith
account-IsBounded _ to r s x why b h n = ground arith

pub account_keeps :
    (g : PipelineStage) (r s : PipelineRun) (x : PipelineStepResult)
    → account g r x ≡ on s
    → (s.workflow ≡ r.workflow)
      × (s.pipeline_stage ≡ r.pipeline_stage)
      × (needs_approval s ≡ needs_approval r)
unfolding account needs_approval
account_keeps development r s x h = ground arith
account_keeps _ r s x h = ground arith

-- What `apply` did to a run with the default workflow that is still running.
pub record Ran (r r' : PipelineRun) (x : PipelineStepResult) (s : PipelineRun) : Type 0 where
  pub counted : account r.pipeline_stage (with_context r x) x ≡ on s
  pub routed : next_default r.pipeline_stage s x ≡ go r'.pipeline_stage running r'.suspend_reason
  pub decided : (str_eq x.outcome "pass" || str_eq x.outcome "fail") ≡ true
  pub limit : r'.max_retries ≡ s.max_retries
  pub retries : r'.retry_count ≡ s.retry_count
  pub unit_retries : r'.unit_retry_count ≡ s.unit_retry_count
  pub steps : r'.workflow ≡ s.workflow
  pub approval : needs_approval r' ≡ needs_approval s

commit-Ran :
    (r r' : PipelineRun) (x : PipelineStepResult) (now : Time) (t : Step)
    → t ≡ account r.pipeline_stage (with_context r x) x
    → is_empty r.workflow ≡ true
    → (str_eq x.outcome "pass" || str_eq x.outcome "fail") ≡ true
    → commit x now t ≡ (r', none)
    → r'.status ≡ running
    → (s : PipelineRun) × Ran r r' x s
unfolding commit next_stage needs_approval
commit-Ran r r' x now (stop s e) a w d h n = cc
commit-Ran r r' x now (on s) a w d h n =
    (s, ground (arith, account_keeps r.pipeline_stage (with_context r x) s x))

refusal_decided :
    (r : PipelineRun) (x : PipelineStepResult)
    → refusal r x ≡ none
    → (str_eq x.outcome "pass" || str_eq x.outcome "fail") ≡ true
unfolding refusal
refusal_decided r x h = ground arith

apply_parts :
    (r r' : PipelineRun) (x : PipelineStepResult) (now : Time)
    → apply r x now ≡ (r', none)
    → (refusal r x ≡ none)
      × (commit x now (account r.pipeline_stage (with_context r x) x) ≡ (r', none))
unfolding apply accounted
apply_parts r r' x now h = ground arith

pub apply-Ran :
    (r r' : PipelineRun) (x : PipelineStepResult) (now : Time)
    → is_empty r.workflow ≡ true
    → apply r x now ≡ (r', none)
    → r'.status ≡ running
    → (s : PipelineRun) × Ran r r' x s
apply-Ran r r' x now w h n =
    let (ok, c) = apply_parts r r' x now h in
    commit-Ran r r' x now (account r.pipeline_stage (with_context r x) x) refl w
      (refusal_decided r x ok) c n

pub IsBounded-context :
    (r : PipelineRun) (x : PipelineStepResult) → IsBounded r → IsBounded (with_context r x)
IsBounded-context r x b = ground arith

-- A run with the default workflow whose counters are within its limit keeps them there, as long as
-- it is running.
pub apply-IsBounded :
    (r r' : PipelineRun) (x : PipelineStepResult) (now : Time)
    → IsBounded r
    → apply r x now ≡ (r', none)
    → r'.status ≡ running
    → IsBounded r'
apply-IsBounded r r' x now b h n =
    let (s, ran) = apply-Ran r r' x now b.default_steps h n in
    let c : IsBounded s =
      account-IsBounded r.pipeline_stage r'.pipeline_stage (with_context r x) s x r'.suspend_reason
        (IsBounded-context r x b) ran.counted ran.routed in
    ground (arith, ran, c)
