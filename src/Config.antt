-- ===== src/Config.antt =====
-- internal/config: the rules for owners, and the templates of tasks.
pub mod Owners
pub mod Templates
pub mod Workflows
