-- ===== src/Events.antt =====
-- internal/events and what internal/web streams of it.
pub mod Hub
pub mod Delivery
