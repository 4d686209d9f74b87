-- ===== src/Store.antt =====
-- internal/store: the durable state, one module for each group of operations.
pub mod Schema
pub mod Query
pub mod Run
pub mod Board
pub mod Plan
pub mod Transcript
pub mod Invariant
pub mod Safety
pub mod Rows
pub mod Laws
pub mod Approval
pub mod Tasks
pub mod Clearing
