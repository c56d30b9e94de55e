-- ===== src/Pipeline/Stage.antt =====
-- Stages, statuses and roles of a pipeline: internal/domain/pipeline.go.
use adro.Prelude.{Bool, true, false, ◌&&◌, ◌||◌, not, String}
use adro.Prelude.Int.{ℤ, pos, leb_ℤ, eqb_ℤ}
use adro.Prelude.Text.{is_blank}

-- `other` is any number that is none of 1 to 7.
pub data PipelineStage : Type 0 where
  design development unit_test integration arbitration revalidation report : PipelineStage
  other : ℤ → PipelineStage

-- The number that Go stores.
unfoldable pub stage_number : PipelineStage → ℤ
stage_number design = pos 1
stage_number development = pos 2
stage_number unit_test = pos 3
stage_number integration = pos 4
stage_number arbitration = pos 5
stage_number revalidation = pos 6
stage_number report = pos 7
stage_number (other n) = n

-- `a == b` on stages
unfoldable pub same_stage : PipelineStage → PipelineStage → Bool
unfolding stage_number
same_stage a b = eqb_ℤ (stage_number a) (stage_number b)

-- `PipelineStage.Valid`
unfoldable pub valid_stage : PipelineStage → Bool
unfolding stage_number
valid_stage s = leb_ℤ (pos 1) (stage_number s) && leb_ℤ (stage_number s) (pos 7)

pub data PipelineStatus : Type 0 where
  running waiting_provider waiting_approval suspended completed failed : PipelineStatus
  unknown : String → PipelineStatus

-- A run in one of these takes no more results.
unfoldable pub is_terminal : PipelineStatus → Bool
is_terminal completed = true
is_terminal suspended = true
is_terminal failed = true
is_terminal _ = false

pub record PipelineAgentRoles : Type 0 where
  pub designer : String
  pub developer : String
  pub tester : String
  pub arbitrator : String

-- `PipelineAgentRoles.Validate`: true where no role is missing.
unfoldable pub roles_complete : PipelineAgentRoles → Bool
roles_complete r =
    not (is_blank r.designer || is_blank r.developer || is_blank r.tester || is_blank r.arbitrator)

-- `PipelineAgentRoles.AgentFor`
unfoldable pub role_agent_for : PipelineAgentRoles → PipelineStage → String
role_agent_for r design = r.designer
role_agent_for r development = r.developer
role_agent_for r unit_test = r.tester
role_agent_for r integration = r.tester
role_agent_for r revalidation = r.tester
role_agent_for r report = r.tester
role_agent_for r arbitration = r.arbitrator
role_agent_for r (other n) = ""
