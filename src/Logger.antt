-- ===== src/Logger.antt =====
-- src/logger.c and include/logger.h: the log file and its backups.
pub mod Types
pub mod Write
pub mod Rotation
pub mod Shift
pub mod History
pub mod Rotated
pub mod Refine
mod Tests
