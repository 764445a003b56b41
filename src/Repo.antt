-- ===== src/Repo.antt =====
-- The package internal/repo.
pub mod BlockMap
pub mod CidSet
pub mod Codec
pub mod Write
pub mod Commit
pub mod Outside
pub mod Sample
pub mod Blobs
pub mod Repository
pub mod Diff
pub mod Format
