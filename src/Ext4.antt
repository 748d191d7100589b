-- ===== src/Ext4.antt =====
-- The parts of ext4 that the extended VFS reads and writes: the group descriptors, the superblock
-- and the state of a mounted file system, with what they use of the rest of the kernel.
pub mod Desc
pub mod Desc64
pub mod Kernel
pub mod State
pub mod Bitmap
