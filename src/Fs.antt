-- ===== src/Fs.antt =====
-- The file system layer (fs/): paths, inode metadata, keys, the lock server and the engine.
pub mod Path
pub mod Inode
pub mod Key
pub mod KvClient
pub mod Outcome
pub mod Central
pub mod Engine
pub mod Samples
mod Examples
mod PathExamples
mod CentralExamples
