-- ===== src/Kv.antt =====
-- The key-value store below the file system (src/): the hash index, memory, and the client.
pub mod Consensus
pub mod Hash
pub mod Blocks
pub mod ServerMm
pub mod GcSlot
pub mod Subblocks
pub mod Buckets
pub mod Recover
pub mod Candidates
pub mod Rounds
pub mod Client
pub mod Server
pub mod Log
mod Examples
