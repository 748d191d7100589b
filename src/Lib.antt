-- ===== src/Lib.antt =====
-- Extended VFS for ext4: models and proofs of linux-6.8/fs/ext4/evfs.c and evfs-bmt.c, the ioctl
-- interface through which a user program allocates blocks and inodes by number, moves extents
-- and edits directory entries of a mounted ext4 file system.
--
-- The parts. A bitmap tracker (evfs-bmt.c) remembers which inodes were made through the
-- interface; evfs.c asks it in `__evfs_inode_track` and its kin. `evfs_block_alloc`,
-- `evfs_block_free` and `evfs_inode_alloc` change bitmaps, group descriptors and counters under
-- the group lock inside a journal handle. `evfs_fspace_iter` and `evfs_inode_iter` search the
-- bitmaps. `evfs_extent_move` swaps the physical blocks of a logical range, extent by extent,
-- through `__evfs_extent_map`, and `evfs_extent_read` lists the extents of an inode.
--
-- The files. Base: shared names, list and number lemmas over the native numbers, error numbers.
-- Tracker: evfs-bmt.c and evfs-bmt.h, in Tracker/Threads several threads in `evfs_bit_wrapper`
-- on one bitmap, as a step relation, and in Tracker/Mount the tracker's life from mount to
-- unmount (super.c). Track: the tracker's calls in evfs.c. Ext4: group descriptors and their
-- accessors (super.c, ext4.h), the file system's state, and the kernel's bit operations. Block:
-- `evfs_block_alloc` and `evfs_block_free`. Iter: the two searches. Extent: `__evfs_extent_map`
-- over an interface to the extent tree; Extent/Laws says what is relied on. Leaf: the functions
-- of extents.c behind that interface, on a tree with one leaf. Move: `evfs_iver`,
-- `evfs_extent_move`, `evfs_extent_read`. InodeAlloc: `evfs_inode_alloc`. InodeFree:
-- `evfs_inode_free`. InodeRead: `evfs_inode_read`. Dentry: `evfs_dentry_add`,
-- `evfs_dentry_read`, `evfs_dentry_delete`, `evfs_dentry_update`. DirBlock: the entries of one
-- block of a directory, as namei.c searches and changes them. Dir: a directory of several
-- blocks, and in Dir/Link `__ext4_link` and `__ext4_unlink` of namei.c, in which
-- `evfs_dentry_add` and `evfs_dentry_delete` end; Dentry/Calls and Dir/Calls put them together.
-- Ioctl: `ext4_ioctl_evfs` and the arguments of include/uapi/linux/evfs.h. Samples: concrete
-- instances of the interfaces; Tests: runs on them.
--
-- How it is modelled. State is a record that is passed on; what a call holds (buffers, handles,
-- locks, references) is counted in it. A `goto` label is a function of what is live at the
-- label. Calls into the kernel are fields of a record of which each value is one course of
-- events; an error pointer is `some e` and stands for a negative number. `oops` is a call that
-- never returns: a read through a null pointer in the tracker, or `inode_lock` of an inode that
-- the call has locked itself. Numbers are natural numbers, and the wrap-around of 32 and 64 bit
-- arithmetic is written out. Bitmaps are lists of bits. What other threads do to the tracker
-- while it is not locked is a function that keeps it valid.
--
-- Bounds and fuel. The searches and `evfs_bm_tracker_final` run on the exact count of rounds of
-- the source's loop. The loops of `evfs_dentry_read` and `evfs_dentry_update` run on fuel; one
-- round more than the block has bytes is enough, as each round moves on. `__evfs_extent_map`
-- runs on fuel, one unit for each round, and is `none` when it runs out; three are enough for a
-- call on a mapped range; `none` also stands for the fault on an error pointer at its end. The
-- binary search of a leaf runs on as much fuel as there are entries. The search of a directory
-- takes one unit for each block, and `__ext4_link` one for each attempt.
--
-- Not modelled: ext4 itself beyond the accessors, the leaf and the directory functions above,
-- since it is a copy of Linux and enters as an interface; the hash tree of a directory, and
-- inline, encrypted and casefolded directories; the index levels of the extent tree, and the
-- insertion of an extent that may merge it, which evfs does not ask for; the division of a full
-- leaf block in two, for which a call gives the room that the leaf then has; the accessors of
-- ext4_extents.h, which is not in the repository; the user programs under test/. Memory that is
-- released is not tracked, except the array of the extent commands.
pub mod Base
pub mod Tracker
pub mod Ext4
pub mod Block
pub mod Iter
pub mod Extent
pub mod Leaf
pub mod Move
pub mod Track
pub mod InodeAlloc
pub mod InodeFree
pub mod InodeRead
pub mod Ioctl
pub mod Dentry
pub mod DirBlock
pub mod Dir
pub mod Samples
pub mod Tests
