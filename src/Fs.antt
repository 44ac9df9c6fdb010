-- ===== src/Fs.antt =====
-- src/metal-filesystem: inodes, directories, extents and the heap of free extents over LMDB.
pub mod Types
pub mod State
pub mod Tiling
pub mod Space
pub mod View
pub mod Heap
pub mod Extent
pub mod Inode
pub mod Directory
pub mod FileData
pub mod Path
pub mod Namespace
pub mod Storage
pub mod Backend
