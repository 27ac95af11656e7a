-- ===== src/Fs.antt =====
-- project3/fs.c: the file system over the buffer cache and the log.
pub mod Block
pub mod State
pub mod Alloc
pub mod Inode
pub mod Map
pub mod Content
pub mod Path
pub mod Cache
pub mod Directory
pub mod Lookup
mod Tests
mod CacheTests
