-- ===== src/Config.antt =====
-- src/config.c and include/config.h: the configuration, its defaults, its file and its checks.
pub mod Types
pub mod Names
pub mod Values
pub mod Path
pub mod Parse
pub mod Load
pub mod ServerBounds
pub mod Bounds
pub mod LoadBounds
pub mod Laws
pub mod PathLaws
mod Tests
