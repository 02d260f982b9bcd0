-- ===== src/Training.antt =====
-- go/internal/training/lifecycle.go: the life of a training job, its attempts and its leases.
pub mod Types
pub mod Claims
pub mod Metrics
pub mod Control
pub mod Completion
pub mod Failure
pub mod Repository
pub mod Service
pub mod Steps
pub mod Ownership
pub mod Cases
pub mod Invariant
pub mod Fencing
pub mod Replay
pub mod Graph
pub mod Terminal
pub mod Dispatch
pub mod Leases
pub mod Recovery
pub mod Budget
pub mod Storage
pub mod Creation
mod Examples
mod StoredExamples
