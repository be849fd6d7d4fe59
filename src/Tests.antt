-- ===== src/Tests.antt =====
-- Runs of the definitions at inputs that can be followed in the source, and the theorems at
-- concrete inputs.
mod Snapshot
mod Paths
mod Inodes
mod Blocks
mod Changes
mod Crypto
mod Daemon
mod Sync
mod Mount
mod Tables
mod Storage
mod Config
mod Journal
mod Remote
mod Connection
