-- ===== src/Models.antt =====
-- models/: the signed payloads, the rows of signatures, connections and users.
pub mod Payload
pub mod AuthToken
pub mod Signature
