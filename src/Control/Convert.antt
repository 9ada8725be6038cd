-- ===== src/Control/Convert.antt =====
-- internal/control/convert.go: the control messages, to protobuf and back.
pub mod Values
pub mod ToProto
pub mod FromProto
pub mod Encoded
pub mod Envelope
pub mod Payloads
pub mod Messages
pub mod Streams
pub mod Closed
pub mod Agreement
pub mod Size
pub mod Limits
pub mod ClientLimits
mod Tests
