-- ===== src/Ext4.antt =====
-- src/fs/ext4_reader.cpp with its two headers: the reader of ext2, ext3 and ext4 volumes.
pub mod Layout
pub mod Reader
pub mod Inode
pub mod Extent
pub mod Indirect
pub mod File
pub mod Directory
pub mod Path
pub mod Runs
