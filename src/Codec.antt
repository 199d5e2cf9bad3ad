-- ===== src/Codec.antt =====
-- The encoders of src/crypto: numbers in any base, bytes in hex, and URLs.
mod Tests
pub mod AnyBase
pub mod Hex
pub mod Url
pub mod UrlFree
