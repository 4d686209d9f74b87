-- ===== src/Web.antt =====
-- internal/web: the session cookie and the stream of events.
pub mod Session
pub mod Decimal
pub mod Tokens
pub mod Sse
pub mod Reader
pub mod Frames
