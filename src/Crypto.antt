-- ===== src/Crypto.antt =====
-- src/crypto.c: SHA-256 (`Words`, `Compress`, `Context`), what it computes (`Padding`,
-- `Streaming`), and hash strings (`Hex`).
pub mod Words
pub mod Compress
pub mod Context
pub mod Padding
pub mod Streaming
pub mod PadLaws
pub mod Final
pub mod WordLaws
pub mod Hex
pub mod HexLaws
mod Tests
