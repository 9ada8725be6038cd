-- ===== src/Pb.antt =====
-- api/gen/gossipcache/v1: the protobuf messages, by their fields. The runtime's own fields (`state`,
-- `unknownFields`, `sizeCache`) belong to the protobuf library and are left out. A pointer is an
-- `Option`, and an enumeration is the int32 that may come from a peer, also one that is not defined.
mod Common
mod Data
mod Control
pub use Common.*
pub use Data.*
pub use Control.*
