-- ===== src/Push.antt =====
-- src/push: notifications to phones.
mod Tests
pub mod Qos
pub mod QosChannel
pub mod QosInv
pub mod QosBound
pub mod QosDangles
pub mod QosFault
