-- ===== src/InodeAlloc/State.antt =====
-- The state of `evfs_inode_alloc` (evfs.c), and what it calls outside the repository.
use linux_evfs.Base.{ℕ, Bool, Option, List}
use linux_evfs.Base.Int.{ℤ}
use linux_evfs.Ext4.Desc.{GroupDesc}
use linux_evfs.Ext4.State.{Bits, Buf, Fs}
use linux_evfs.Tracker.{EvfsBmTracker}

-- The fields of `struct inode` and `struct ext4_inode_info` that the function sets.
pub record Inode : Type 0 where
  pub i_ino : ℕ
  pub i_mode : ℕ
  pub i_blocks : ℕ
  pub i_time : ℕ
  pub i_nlink : ℕ
  pub i_generation : ℕ
  pub s_noquota : Bool
  pub i_crtime : ℕ
  pub i_data : List ℕ
  pub i_dir_start_lookup : ℕ
  pub i_disksize : ℕ
  pub i_flags : ℕ
  pub i_file_acl : ℕ
  pub i_dtime : ℕ
  pub i_block_group : ℕ
  pub i_last_alloc_group : ℕ
  pub i_csum_seed : ℕ
  pub state_new : Bool

-- The file system and the tracker, with the references to the new inode, its `I_NEW` locks, the
-- inodes charged to the quota, whether `clear_nlink` took the link of the new inode, and the
-- inodes that were handed to the journal, the latest first.
pub record AllocState (S : Type 0) : Type 0 where
  pub fs : Fs
  pub tracker : Option (EvfsBmTracker S)
  pub inode_refs : ℕ
  pub inode_locks : ℕ
  pub quota : ℕ
  pub is_cleared : Bool
  pub journaled : List Inode

-- How the calls outside the repository end; `some e` is an error pointer.
pub record InodeKernel : Type 0 where
  pub ext4_read_inode_bitmap : ℕ → Option ℕ
  pub ext4_read_block_bitmap : ℕ → Option ℕ
  pub ext4_get_group_desc : ℕ → Bool
  pub new_inode : Option Inode
  pub dquot_initialize : ℤ
  pub ext4_journal_start : Option ℕ
  pub ext4_journal_get_write_access : Buf → ℤ
  pub ext4_handle_dirty_metadata : Buf → ℤ
  pub ext4_journal_stop : ℤ
  pub current_time : ℕ
  pub ext4_set_inode_flags : Inode → Inode
  pub insert_inode_locked : ℤ
  pub get_random_u32 : ℕ
  pub s_csum_seed : ℕ
  pub ext4_chksum : ℕ → ℕ → ℕ
  pub dquot_alloc_inode : ℤ
  pub ext4_mark_inode_dirty : ℤ
  pub ext4_free_clusters_after_init : ℕ → GroupDesc → ℕ
  pub ext4_block_bitmap_csum_set : GroupDesc → Bits → GroupDesc
  pub ext4_inode_bitmap_csum_set : GroupDesc → Bits → GroupDesc
  pub ext4_group_desc_csum : ℕ → GroupDesc → ℕ
