-- ===== src/Orchestration/Validate.antt =====
-- The validation of a workflow graph: `ValidateGraph` of internal/orchestration/validate.go. A test is
-- true where the code gives no error.
mod Nodes
mod Edges
mod Paths
mod Graph
pub mod Loops
unfoldable pub use Nodes.*
unfoldable pub use Edges.*
unfoldable pub use Paths.*
unfoldable pub use Graph.*
