-- ===== src/Exec.antt =====
-- The package adapter/internal/exec: one record per exec, and the registry of records.
pub mod Chunk
pub mod Channel
pub mod Record
pub mod Load
pub mod Table
pub mod Registry
pub mod Listing
pub mod Waiting
