-- ===== src/Rpc/Convert.antt =====
-- internal/rpc/convert.go: the data-plane messages, to protobuf and back.
pub mod Enums
pub mod Values
pub mod ToProto
pub mod FromProto
pub mod Requests
pub mod Sessions
pub mod Responses
pub mod Closed
pub mod Types
pub mod Retries
pub mod Size
