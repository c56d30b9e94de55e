-- ===== src/Pipeline.antt =====
-- The seven-stage delivery pipeline: internal/domain/pipeline.go, internal/domain/workflow_chat.go
-- and internal/pipeline/engine.go.
pub mod Stage
pub mod Steps
pub mod Run
pub mod Next
pub mod Engine
