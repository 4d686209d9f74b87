-- ===== src/Agent.antt =====
-- internal/agent: the operator's calls and the runner's loop.
pub mod State
pub mod Control
pub mod Outside
pub mod Stream
pub mod Touched
pub mod Ship
pub mod Apply
pub mod Calls
pub mod Loop
pub mod Safety
pub mod Worker
pub mod History
pub mod Retry
pub mod Gates
pub mod Turns
pub mod Atomic
pub mod Delta
pub mod Deltas
pub mod Reviewer
pub mod Verdicts
