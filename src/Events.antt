-- ===== src/Events.antt =====
-- The event bus: internal/events/events.go.
pub mod Envelope
pub mod History
pub mod Chain
pub mod Bus
pub mod Merge
