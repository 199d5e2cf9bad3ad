-- ===== src/Dispatch.antt =====
-- src/dispatcher: the addresses, channels and queue of messages that are dispatched.
mod Tests
pub mod Address
pub mod Channel
pub mod Manager
pub mod Events
pub mod Presence
pub mod PresenceSteps
pub mod PresenceRun
pub mod Replace
pub mod Order
pub mod OrderSteps
pub mod OrderOthers
pub mod OrderWork
pub mod OrderRun
pub mod PresenceParts
pub mod OrderParts
pub mod Race
