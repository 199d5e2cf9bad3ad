-- ===== src/Bitmaps.antt =====
-- The bitmaps of the server: src/features (the features of a client) and src/bloom (a contact filter).
mod Tests
pub mod Bytes
pub mod Features
pub mod Bloom
pub mod BloomContent
