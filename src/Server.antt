-- ===== src/Server.antt =====
-- internal/server.
pub mod Json
pub mod Auth
pub mod Parsing
pub mod Handlers
pub mod Router
