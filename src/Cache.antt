-- ===== src/Cache.antt =====
-- src/dao/dao_cache/fifo_cache.h: the cache in front of the database.
mod Tests
pub mod Fifo
pub mod FifoInv
pub mod FifoSet
