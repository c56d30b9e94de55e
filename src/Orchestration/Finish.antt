-- ===== src/Orchestration/Finish.antt =====
-- The end of an attempt: `FinishAttempt` of internal/orchestration/transition.go, with `edgeSatisfied`
-- of scheduler.go. The parameter `payload_hash` is the hash of the JSON text of the input's event,
-- result and failure (`transitionPayloadHash`).
mod Checks
mod Contract
mod Commit
mod Attempt
pub mod Guards
mod Routed
mod Carried
pub mod Rollback
pub mod Usage
pub mod Lineage
unfoldable pub use Checks.*
unfoldable pub use Contract.*
unfoldable pub use Commit.*
unfoldable pub use Attempt.*
