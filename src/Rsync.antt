-- ===== src/Rsync.antt =====
-- The file synchroniser of rsync/.
pub mod Checksum
pub mod Chunk
pub mod Delta
pub mod Buffer
pub mod Search
pub mod Transfer
pub mod Blocks
