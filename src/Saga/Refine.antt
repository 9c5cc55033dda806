-- ===== src/Saga/Refine.antt =====
-- The operations of the engine keep to the specification: each of them is a run of its moves.
pub mod Saves
pub mod Compensation
pub mod Stages
pub mod Captures
pub mod Operations
pub mod Sweeps
pub mod Progress
pub mod Termination
pub mod Panics
