-- ===== src/Orchestration/Repair.antt =====
-- The bounded repair contract: the repair functions of internal/orchestration/transition.go.
mod Lifecycle
mod Contract
mod Advance
pub mod Shell
pub mod States
pub mod Rounds
unfoldable pub use Lifecycle.*
unfoldable pub use Contract.*
unfoldable pub use Advance.*
