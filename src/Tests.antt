-- ===== src/Tests.antt =====
-- Concrete runs of the gates, of pipelines, of execution plans and of the stores of events.
mod Data
mod Gates
mod Runs
mod Plans
mod Starts
mod Graphs
mod Streams
mod Deliveries
mod Ledgers
