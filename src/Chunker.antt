-- ===== src/Chunker.antt =====
-- src/chunker.c and include/chunker.h: chunks and their locations, the chunker, the sums over
-- chunks, and the reconstruction of a file.
pub mod Types
pub mod Chunk
pub mod ChunkLaws
pub mod Locations
pub mod Table
pub mod TableRemove
pub mod LocationLaws
pub mod Count
pub mod Stream
pub mod Cut
pub mod Cutting
pub mod File
pub mod Whole
pub mod Reconstruct
pub mod ReconstructLaws
pub mod RoundTrip
pub mod Stats
pub mod StatsLaws
mod Tests
mod ReconstructTests
