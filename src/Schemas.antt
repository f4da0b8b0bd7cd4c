-- ===== src/Schemas.antt =====
-- app/schemas: the bodies of requests and their validators. The proofs are in Accepts.
pub mod Fields
pub mod Bodies
pub mod Accepts
pub mod Checks
