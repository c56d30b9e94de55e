-- ===== src/Orchestration.antt =====
-- Graph orchestration: internal/orchestration.
pub mod Value
pub mod Predicate
pub mod Graph
pub mod Paths
pub mod Projection
pub mod Repair
pub mod Route
pub mod Finish
pub mod Start
pub mod Schedule
pub mod Validate
pub mod Stored
