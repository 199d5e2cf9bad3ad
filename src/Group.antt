-- ===== src/Group.antt =====
-- src/group and src/program/offline-server: who is in which group, kept in memory beside the database.
mod Tests
pub mod Sets
pub mod Offline
pub mod OfflineInv
pub mod OfflineEvents
pub mod OfflineQueries
pub mod Online
pub mod Subscribed
pub mod Noise
pub mod NoiseEnds
pub mod NoiseChoice
pub mod Partition
pub mod Servers
pub mod ServersKnown
pub mod ServersAgree
mod ServersTests
