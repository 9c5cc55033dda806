-- ===== src/Saga.antt =====
-- internal/saga/saga.go: the engine that drives a payment through its steps.
pub mod World
pub mod Persist
pub mod Steps
pub mod Drive
pub mod Sweep
pub mod Spec
pub mod Invariant
pub mod Refine
pub mod Life
pub mod Settled
pub mod Requested
pub mod Compensate
pub mod Gaps
pub mod Tests
