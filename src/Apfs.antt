-- ===== src/Apfs.antt =====
-- include/: the structs of the file system on disk, and what is read out of them.
pub mod Layout
pub mod Types
pub mod Objects
pub mod Nodes
pub mod Superblocks
pub mod Records
pub mod Keys
pub mod KeyBytes
pub mod Sizes
