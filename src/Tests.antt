-- ===== src/Tests.antt =====
-- The tests: sample data, runs of the operations, and the theorems at concrete inputs.
pub mod Fixtures
mod Tables
mod Turns
mod Frames
mod Files
mod Calls
mod Settings
mod Sandboxes
mod Projects
