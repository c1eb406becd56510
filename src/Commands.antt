-- ===== src/Commands.antt =====
-- cmd/tillit/commands/: what the client's commands do to its store.
pub mod Snapshot
pub mod Check
pub mod Publish
pub mod Signing
pub mod Sign
pub mod Trust
pub mod Tree
