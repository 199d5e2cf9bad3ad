-- ===== src/Redis.antt =====
-- src/redis: the partitions of the redis servers that tell who is online.
mod Tests
pub mod Partition
pub mod PartitionInv
pub mod Online
pub mod Publish
pub mod Manager
pub mod Failover
pub mod Commands
mod ManagerTests
pub mod ManagerInv
pub mod Placement
pub mod ManagerBack
