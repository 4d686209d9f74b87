-- ===== src/Config.antt =====
-- internal/store/appconfig.go: the settings, their cache, and what the first start writes.
pub mod Fields
pub mod Values
pub mod Cache
pub mod Coherence
pub mod Seeds
pub mod Form
