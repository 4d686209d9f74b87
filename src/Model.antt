-- ===== src/Model.antt =====
-- internal/model: what a model call returns, and what is sent to it.
pub mod Response
pub mod Input
pub mod Conversation
pub mod Stream
pub mod Assembly
pub mod Answer
