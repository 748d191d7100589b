-- ===== src/Tests.antt =====
-- Runs of the theorems at small concrete inputs.
mod Tracks
mod Blocks
mod Inodes
mod Extents
mod Iters
mod Dentries
mod Updates
mod Moves
mod Threads
mod DirBlocks
mod Dirs
mod Links
