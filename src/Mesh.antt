-- ===== src/Mesh.antt =====
-- The experimental mesh (packages/actor-labs-mesh/src): which nodes are known, where actors live,
-- and the next hop to a node.
pub mod Incarnation
mod Numerals
pub mod Strength
pub mod Membership
pub mod Directory
pub mod Routing
