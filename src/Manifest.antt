-- ===== src/Manifest.antt =====
-- src/manifest.c and include/manifest.h: the record of a file and its chunks, its checks, and the
-- files that hold it.
pub mod Types
pub mod Build
pub mod Check
pub mod CheckLaws
pub mod Cjson
pub mod Json
pub mod JsonLaws
pub mod ChunkJson
pub mod Nesting
pub mod RoundTrip
pub mod Files
pub mod FileLaws
pub mod SaveLoad
mod TreeJson
mod JsonTests
mod Tests
