-- ===== src/Memory.antt =====
-- The memory of agents (packages/actor-core-runtime/src/memory).
pub mod ShortTerm
