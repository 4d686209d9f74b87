-- ===== src/Tools.antt =====
-- internal/tools: results, the registries, and the tools that drive the loop.
pub mod Result
pub mod Registry
pub mod Control
pub mod Truncate
mod Ends
pub mod Shown
pub mod Clipping
pub mod Buffer
pub mod Paths
pub mod Containment
pub mod Quote
pub mod Edit
pub mod Read
pub mod Splitting
pub mod Pages
pub mod Diff
pub mod Commands
pub mod Git
pub mod Gitting
pub mod Github
pub mod Remotes
pub mod Requests
pub mod Shell
pub mod Jobs
pub mod Marking
pub mod Stopping
mod Matching
pub mod Editing
