-- ===== src/Vfs.antt =====
-- src/vfs.rs: the mounted file system: its caches and tables, and its operations on them.
pub mod Inodes
pub mod Blocks
pub mod Errno
pub mod State
pub mod Journal
pub mod Mutate
pub mod Names
pub mod Uploads
pub mod Writes
pub mod Lookup
pub mod Create
pub mod Move
pub mod Attrs
pub mod Feed
pub mod Reads
pub mod Readahead
