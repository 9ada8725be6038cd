-- ===== src/Control.antt =====
-- internal/control: the messages of the control stream.
pub mod Session
pub mod Batch
pub mod Delivery
pub mod Convert
pub mod Transfer
pub mod Clones
mod Tests
