-- ===== src/Session.antt =====
-- The sessions of agents (packages/actor-core-runtime/src/agent-session-*).
pub mod Checkpoint
