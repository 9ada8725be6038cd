-- ===== src/Wire.antt =====
-- internal/wire: the contracts that nodes and hubs share.
pub mod Protocol
pub mod Version
pub mod Status
pub mod Record
pub mod MutationId
pub mod Options
pub mod Partition
pub mod Requests
pub mod Clones
mod Tests
