-- ===== src/Planning.antt =====
-- The planning of agents (packages/actor-core-runtime/src/planning).
pub mod Htn
