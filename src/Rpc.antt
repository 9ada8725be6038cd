-- ===== src/Rpc.antt =====
-- internal/rpc: the data plane's messages above the gRPC service.
pub mod Handshake
pub mod Status
pub mod Read
pub mod Mutation
pub mod Dedup
pub mod Convert
pub mod Transfer
pub mod Clones
pub mod Ports
mod Tests
