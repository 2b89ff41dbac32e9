-- ===== src/Provider.antt =====
-- Providers that nodes start as processes (packages/actor-core-runtime/src/node-provider-*).
pub mod Journal
