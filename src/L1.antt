-- ===== src/L1.antt =====
-- internal/l1: the node's view of the hub.
pub mod Hub
pub mod Clones
pub mod Contract
mod Tests
