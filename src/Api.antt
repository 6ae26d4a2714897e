-- ===== src/Api.antt =====
-- src/netchunk.c: the operations that a user of the program calls.
pub mod Types
pub mod Download
pub mod DownloadLaws
pub mod Operations
pub mod OperationLaws
mod Tests
pub mod Upload
pub mod Turns
pub mod UploadLaws
mod UploadTests
