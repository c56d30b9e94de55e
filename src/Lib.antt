-- ===== src/Lib.antt =====
-- The requirement pipeline and the plan orchestration of adro.
--
-- A requirement goes through statuses that quality gates move (Domain, Workflow). Its work runs either
-- as a pipeline of fixed stages (Pipeline) or as an execution plan over a workflow graph, in which
-- agents make attempts at nodes (Orchestration). A pipeline run is changed by the results that
-- providers report; a plan's projection is changed by the starts and the completions of attempts,
-- which are routed over the edges of the graph, and by manual transitions, and the scheduler reads
-- from it which nodes are ready.
--
-- What happens is published on an event bus (Events), which keeps a bounded history, as a hash chain
-- with numbers, in memory and in a file that other processes write too; consumers read it page by page
-- and acknowledge what they have read. The audit ledger (Audit) is a chain of its own.
--
-- Files and code:
--   Domain/Requirement     internal/domain/domain.go: RequirementStatus, Valid, CanTransition, Transition
--   Workflow               internal/workflow/workflow.go: NewEngine, ApplyGate
--   Pipeline/Stage, Run    internal/domain/pipeline.go: stages, roles, PipelineRun and its methods
--   Pipeline/Steps         internal/domain/workflow_chat.go: WorkflowStep, DefaultWorkflow
--   Pipeline/Next, Engine  internal/pipeline/engine.go: nextStage, nextCustomStage, Apply
--   Orchestration/Graph, Projection
--                          internal/orchestration/model.go, and PlanProjection of transition.go
--   Orchestration/Value    field values: usageInt64, number, intValue, stringSliceValue
--   Orchestration/Predicate, Paths
--                          internal/orchestration/validate.go: predicates and graph searches;
--                          resolveRepairTarget of structural.go
--   Orchestration/Repair   transition.go: setRepairState, createRepairPlan, advanceRepairAttemptState
--   Orchestration/Route    transition.go: route and what it calls
--   Orchestration/Validate internal/orchestration/validate.go: ValidateGraph
--   Orchestration/Stored   transition.go: Validate, NewProjection
--   Orchestration/Start    transition.go: StartAttempt, with its tests and writes
--   Orchestration/Finish   transition.go: FinishAttempt, with its tests, writes and rollback
--   Orchestration/Schedule internal/orchestration/scheduler.go: ReadyNodesAt, Retry, Cancel, Timeout,
--                          TakeOver
--   Events/Envelope, History
--                          internal/events/events.go: Envelope, New, its hashes,
--                          validatePersistedEvents, mergePeerEventsPreservingCommitted
--   Events/Bus             events.go: Bus, its snapshot file and retention; below it File, Publish,
--                          Consumer (acknowledgements, deliveries) and Replay (the readers)
--   Audit                  internal/audit/ledger.go: Append, Verify
--   Tests                  the witnesses: each theorem at a concrete input
-- A file that stands below one of these proves laws of it. Prelude has the shared lists, Boolean tests,
-- 64-bit integers, texts, floats and association lists.
--
-- How the code is modelled. A method that writes through a pointer takes the state and gives the new
-- state beside its error, so that what an error leaves behind can be stated. A map is an association
-- list whose lookups are the map's. An int is an integer whose sums wrap at 64 bits. A text type with
-- constants is a data type with a constructor for any other text. The maps of a
-- projection are never nil, as NewProjection and the copies of the repository and the executor make
-- them; on a nil Traversals the code would panic where a bounded edge is counted. strings.EqualFold is
-- Unicode's simple folding, as a table in Prelude/Folds. A time is the number of nanoseconds since the
-- zero time, and the clock is a parameter. The hash of a completion's payload is a parameter
-- too; so are encoding/json and crypto/sha256, as the fields of Encoding, and the check of an attempt's
-- context envelope, which is in internal/harness. The snapshot file of the bus is the content that was
-- written to it, which other processes may change between two operations, and Io says how the calls of
-- the operating system come out. A subscriber's channel is a queue that no one reads while an event is
-- sent. Errors are values; their messages are left out.
--
-- Fuel. The searches of Paths and Validate run on fuel: as many steps as the graph has edges, and the
-- start, which each edge is queued once for at most. The depth-first search of ValidateGraph has fuel
-- for one node more than there are, as its path never meets a node twice. read_all, a client that reads
-- a stream page by page, has fuel for one page more than the history has events. The doubling of a
-- retry's backoff runs as many rounds as the loop in the code. Everything else is structural recursion.
--
-- Not modelled: the structural adapters of gates, merges and repairs, the file formats that
-- NewPersistentBus and NewPersistentLedger read, the scheduler's Tick and its executor, the stores, the
-- runtime kernel, the provider adapters, the HTTP API, the commands. They are input and output, or wait
-- for a later extension.
pub mod Prelude
pub mod Domain
pub mod Workflow
pub mod Pipeline
pub mod Orchestration
pub mod Events
pub mod Audit
pub mod Tests
