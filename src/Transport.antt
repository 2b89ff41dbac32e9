-- ===== src/Transport.antt =====
-- The message transport between nodes (packages/actor-core-runtime/src/transport and the
-- runtime-transport files beside it).
pub mod Values
pub mod Identity
pub mod Contract
pub mod Core
pub mod Idempotency
pub mod Reliability
