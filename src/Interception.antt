-- ===== src/Interception.antt =====
-- The interceptors of messages (packages/actor-core-runtime/src/interceptors).
pub mod Retry
