-- ===== src/Server.antt =====
-- The server: db/sqliteconnector, handlers and middleware.
pub mod Database
pub mod Signatures
pub mod Connections
pub mod Auth
