-- ===== src/Config.antt =====
-- internal/config/config.go: what a project's configuration is made of, and what is checked of it.
pub mod Runtime
pub mod Project
pub mod Context
