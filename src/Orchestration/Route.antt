-- ===== src/Orchestration/Route.antt =====
-- The routing of a completed attempt: `route`, `eventMatches`, `retryAllowed` and `resultFields` of
-- internal/orchestration/transition.go. `route` writes to the projection before some of its errors,
-- so its result holds the projection on an error too.
mod Match
mod Follow
mod Take
pub mod Records
pub mod Loops
pub mod Terminal
unfoldable pub use Match.*
unfoldable pub use Follow.*
unfoldable pub use Take.*
