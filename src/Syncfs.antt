-- ===== src/Syncfs.antt =====
-- internal/syncfs: manifests, blobs and their transfer in chunks.
pub mod Hash
pub mod Chunks
pub mod Receiver
pub mod Manifest
pub mod Apply
