-- ===== src/Orchestration/Start.antt =====
-- The start of an attempt: `StartAttempt` of internal/orchestration/transition.go. The parameter
-- `envelope_valid` is `ContextEnvelope.Validate` of internal/harness, which checks the hashes of the
-- blocks that `ContextEnvelope` leaves out here.
mod Dispatch
mod Checks
mod Attempt
pub mod Atomic
pub mod Written
pub mod Started
unfoldable pub use Dispatch.*
unfoldable pub use Checks.*
unfoldable pub use Attempt.*
