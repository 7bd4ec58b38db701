-- ===== src/Runtime.antt =====
-- The runtime package: what a job demands of a model runtime, and which providers may serve it.
pub mod Demand
pub mod Planner
pub mod Lifecycle
