-- ===== src/Resolver.antt =====
-- resolver/: trust verdicts about packages, computed from the local cache.
pub mod Version
pub mod TrustSet
pub mod Verdict
pub mod Spans
pub mod Collect
