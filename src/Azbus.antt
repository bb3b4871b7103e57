-- ===== src/Azbus.antt =====
-- The package azbus: sends and receives messages of Azure service bus.
pub mod Error
pub mod Bus
pub mod Protocol
pub mod Sender
pub mod Disposition
pub mod Receiver
pub mod Batch
pub mod Messages
pub mod Pool
mod Scenarios
mod Deliveries
