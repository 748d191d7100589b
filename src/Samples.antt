-- ===== src/Samples.antt =====
-- Small concrete instances of the interfaces to the kernel, and of the data they work on.
use linux_evfs.Base.{
  ℕ, ◌+◌, ◌-◌, ◌/◌, ◌%◌, refl, true, false, Option, none, some, List, [], ◌∷◌, ◌++◌, arith, get_or,
  set, replicate, ltb, ◌==◌, ◌&&◌, if◌then◌else◌,
}
use linux_evfs.Base.Int.{pos}
use linux_evfs.Tracker.Kernel.{Rwsem, Bitops}
use linux_evfs.Tracker.{EvfsBmTracker}
use linux_evfs.Tracker.Valid.{IsValid, get_or-replicate-none}
use linux_evfs.Tracker.Ready.{Keeps}
use linux_evfs.Track.{TrackEnv}
use linux_evfs.Ext4.Desc.{GroupDesc}
use linux_evfs.Ext4.State.{Group, SuperBlock, SbInfo, Fs}
use linux_evfs.Ext4.Kernel.{LeBitops, BlockKernel}
use linux_evfs.Iter.{IterKernel}
use linux_evfs.Extent.{Extent, FindResult, found, TreeOps, ext_max_blocks}
use linux_evfs.Move.{State, MoveKernel}
use linux_evfs.InodeAlloc.{Inode, InodeKernel, AllocState}

-- A semaphore that counts its holders.
abbrev pub rwsem : Rwsem ℕ
rwsem = record {
  init_rwsem = 0;
  down_read = λ s. s + 1;
  up_read = λ s. s - 1;
  down_write = λ s. s + 1;
  up_write = λ s. s - 1;
  downgrade_write = λ s. s;
  up-down_read = λ s. omega arith;
  up-down_write = λ s. omega arith;
  up-downgrade = λ s. omega arith;
}

abbrev pub bitops : Bitops
bitops = record {
  test_and_set_bit = λ n m. (get_or m n false, set m n true);
  test_and_clear_bit = λ n m. (get_or m n false, set m n false);
  clear_bit = λ n m. set m n false;
  test_and_set_bit_lem = λ n m h. refl;
  test_and_clear_bit_lem = λ n m h. refl;
  clear_bit_lem = λ n m h. refl;
}

abbrev pub tracker : EvfsBmTracker ℕ
tracker = record { bitmaps = replicate 2 none; rwsems = replicate 2 0; num_bitmaps = 2 }

pub tracker-IsValid : IsValid tracker
tracker-IsValid = record {
  bitmaps_len = refl;
  rwsems_len = refl;
  whole = λ n b e. cc (e, get_or-replicate-none 2 n);
}

abbrev pub alone : EvfsBmTracker ℕ → EvfsBmTracker ℕ
alone t = t

pub alone-Keeps : Keeps rwsem alone
alone-Keeps = record { valid = λ t v. v; rwsems = λ t. refl; size = λ t. refl }

abbrev pub track_env : TrackEnv ℕ
track_env = record { sem = rwsem; bits = bitops; others = alone; kzalloc_ok = true }

abbrev pub le_bitops : LeBitops
le_bitops = record {
  ext4_test_and_set_bit = λ n m. (get_or m n false, set m n true);
  ext4_test_and_clear_bit = λ n m. (get_or m n false, set m n false);
  ext4_test_bit = λ n m. get_or m n false;
  test_and_set_lem = λ n m h. refl;
  test_and_clear_lem = λ n m h. refl;
  test_lem = λ n m h. refl;
}

abbrev pub desc : GroupDesc
desc = record {
  bg_block_bitmap_lo = 3;
  bg_inode_bitmap_lo = 4;
  bg_inode_table_lo = 5;
  bg_free_blocks_count_lo = 3;
  bg_free_inodes_count_lo = 6;
  bg_used_dirs_count_lo = 1;
  inode_uninit = false;
  block_uninit = false;
  bg_block_bitmap_csum = 0;
  bg_inode_bitmap_csum = 0;
  bg_itable_unused_lo = 5;
  bg_checksum = 0;
  bg_block_bitmap_hi = 0;
  bg_inode_bitmap_hi = 0;
  bg_inode_table_hi = 0;
  bg_free_blocks_count_hi = 0;
  bg_free_inodes_count_hi = 0;
  bg_used_dirs_count_hi = 0;
  bg_itable_unused_hi = 0;
}

-- Of four blocks the first is in use, of eight inodes the first and the third.
abbrev pub group : Group
group = record {
  block_bits = true ∷ false ∷ false ∷ false ∷ [];
  inode_bits = true ∷ false ∷ true ∷ false ∷ false ∷ false ∷ false ∷ false ∷ [];
  desc = desc;
}

abbrev pub sbi : SbInfo
sbi = record {
  s_cluster_bits = 0;
  s_inodes_per_group = 8;
  wide = true;
  feature_64bit = true;
  feature_gdt_csum = true;
  has_metadata_csum = true;
}

abbrev pub super_block : SuperBlock
super_block = record {
  s_blocks_count_lo = 8;
  s_blocks_count_hi = 0;
  s_free_blocks_count_lo = 6;
  s_free_blocks_count_hi = 0;
  s_inodes_count = 16;
  s_checksum = 0;
}

abbrev pub fs : Fs
fs = record {
  group = λ j. group;
  es = super_block;
  s_freeclusters_counter = 6;
  s_freeinodes_counter = 12;
  held = record { buffers = 0; handles = 0; group_locks = 0; buffer_locks = 0 };
  dirtied = [];
}

abbrev pub block_kernel : BlockKernel
block_kernel = record {
  ext4_get_group_no_and_offset = λ b. (b / 4, b % 4);
  ext4_read_block_bitmap = λ g. none;
  ext4_get_group_desc = λ g. true;
  ext4_journal_start = none;
  ext4_journal_get_write_access = λ b. pos 0;
  ext4_handle_dirty_metadata = λ b. pos 0;
  ext4_journal_stop = pos 0;
  ext4_free_clusters_after_init = λ g d. 3;
  ext4_block_bitmap_csum_set = λ d m. record d { bg_block_bitmap_csum = 7 };
  ext4_group_desc_csum = λ g d. g + 1;
  ext4_superblock_csum = λ es. 9;
}

abbrev pub inode : Inode
inode = record {
  i_ino = 0;
  i_mode = 0;
  i_blocks = 0;
  i_time = 0;
  i_nlink = 0;
  i_generation = 0;
  s_noquota = false;
  i_crtime = 0;
  i_data = [];
  i_dir_start_lookup = 0;
  i_disksize = 0;
  i_flags = 0;
  i_file_acl = 0;
  i_dtime = 0;
  i_block_group = 0;
  i_last_alloc_group = 0;
  i_csum_seed = 0;
  state_new = false;
}

abbrev pub inode_kernel : InodeKernel
inode_kernel = record {
  ext4_read_inode_bitmap = λ g. none;
  ext4_read_block_bitmap = λ g. none;
  ext4_get_group_desc = λ g. true;
  new_inode = some inode;
  dquot_initialize = pos 0;
  ext4_journal_start = none;
  ext4_journal_get_write_access = λ b. pos 0;
  ext4_handle_dirty_metadata = λ b. pos 0;
  ext4_journal_stop = pos 0;
  current_time = 1700000000;
  ext4_set_inode_flags = λ i. i;
  insert_inode_locked = pos 0;
  get_random_u32 = 4;
  s_csum_seed = 1;
  ext4_chksum = λ a c. a + c;
  dquot_alloc_inode = pos 0;
  ext4_mark_inode_dirty = pos 0;
  ext4_free_clusters_after_init = λ g d. 3;
  ext4_block_bitmap_csum_set = λ d m. record d { bg_block_bitmap_csum = 7 };
  ext4_inode_bitmap_csum_set = λ d m. record d { bg_inode_bitmap_csum = 7 };
  ext4_group_desc_csum = λ g d. g + 1;
}

abbrev pub alloc_state : AllocState ℕ
alloc_state = record {
  fs = fs;
  tracker = some tracker;
  inode_refs = 0;
  inode_locks = 0;
  quota = 0;
  is_cleared = false;
  journaled = [];
}

abbrev pub iter_kernel : IterKernel
iter_kernel = record {
  ext4_get_group_no_and_offset = λ b. (b / 4, b % 4);
  ext4_read_block_bitmap = λ g. if g == 0 then some (group.block_bits) else none;
  ext4_read_inode_bitmap = λ g. if g == 0 then some (group.inode_bits) else none;
}

-- An extent tree as the sorted list of its extents; it never merges two of them.
abbrev find_from : Option Extent → List Extent → ℕ → FindResult
find_from last [] lblk = found last ext_max_blocks
find_from none (e ∷ es) lblk =
    let rest = find_from (some e) es lblk in
    if ltb lblk e.ee_block then found (some e) ext_max_blocks else rest
find_from (some last) (e ∷ es) lblk =
    let rest = find_from (some e) es lblk in
    if ltb lblk e.ee_block then found (some last) e.ee_block else rest

abbrev split_at : List Extent → ℕ → List Extent
split_at [] at = []
split_at (e ∷ es) at =
    (if ltb e.ee_block at && ltb at (e.ee_block + e.actual_len)
      then record e { actual_len = at - e.ee_block }
        ∷ record {
          ee_block = at;
          actual_len = e.ee_block + e.actual_len - at;
          pblock = e.pblock + (at - e.ee_block);
        }
        ∷ []
      else e ∷ [])
    ++ split_at es at

abbrev store : List Extent → ℕ → ℕ → List Extent
store [] at pb = []
store (e ∷ es) at pb = (if e.ee_block == at then record e { pblock = pb } else e) ∷ store es at pb

abbrev pub tree_ops : TreeOps (List Extent)
tree_ops = record {
  ext4_find_extent = λ t lblk. find_from none t lblk;
  ext4_force_split_extent_at = λ t at. (pos 0, split_at t at);
  ext4_ext_store_pblock = store;
  ext4_ext_try_to_merge = λ t at. t;
  ext4_ext_dirty = λ t at. (pos 0, t);
}

-- Blocks 10 to 19 of the file, at 100.
abbrev pub extent : Extent
extent = record { ee_block = 10; actual_len = 10; pblock = 100 }

abbrev pub inode_state : State (List Extent)
inode_state = record {
  tree = extent ∷ [];
  i_version = 5;
  held = record { inode_refs = 0; inode_locks = 0; readers = 0; writers = 0; handles = 0 };
}

abbrev pub move_kernel : MoveKernel
move_kernel = record { ext4_iget = λ n. none; ext4_journal_start = none; ext4_journal_stop = pos 0 }
