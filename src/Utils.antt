-- ===== src/Utils.antt =====
-- src/utils: the ring of consistent hashing.
mod Tests
pub mod Fnv
pub mod Ring
pub mod RingMoves
