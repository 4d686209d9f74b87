-- ===== src/Project.antt =====
-- internal/project, with internal/store/project.go and background.go: the one project, its sandbox
-- and the processes that run there.
pub mod Rows
pub mod Background
pub mod Single
pub mod Names
pub mod Service
pub mod Lifecycle
pub mod Attempts
pub mod Steps
pub mod Provision
pub mod Goal
pub mod Synced
pub mod Setup
