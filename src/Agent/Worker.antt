-- ===== src/Agent/Worker.antt =====
-- The worker's part of internal/agent/agent.go never breaks the invariant of the tables.
pub mod Ship
pub mod Apply
pub mod Calls
pub mod Loop
pub mod Run
