-- ===== src/Ftp.antt =====
-- src/ftp_client.c and include/ftp_client.h: the memory buffer of a transfer.
pub mod Buffer
pub mod Connection
pub mod Transfers
pub mod ConnectionLaws
pub mod Pool
pub mod PoolLaws
pub mod Remote
pub mod Shelf
pub mod BufferLaws
mod Tests
mod PoolTests
