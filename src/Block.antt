-- ===== src/Block.antt =====
-- `evfs_block_alloc` and `evfs_block_free` of linux-6.8/fs/ext4/evfs.c. A label of the source is a
-- function of what is live there, and each returns the result with the file system it leaves.
pub mod Balance
pub mod Counts
pub mod Invariant
pub mod Result
pub mod Refuse
pub mod Drift
use linux_evfs.Base.{
  ℕ, zero, suc, ◌+◌, ◌-◌, ◌*◌, ◌/◌, ◌%◌, ◌^◌, ◌≤◌, ◌<◌, min, ◌≡◌, refl, sym, ap, ◌∙◌, ◌≢◌, ◌↔◌, ◌⊎◌,
  inl, inr, Bool, true, false, not, ◌&&◌, ◌||◌, Option, none, some, List, [], ◌∷◌, ◌++◌, map, arith,
  length, get_elem?, get_or, set, replicate, ltb, leb, ◌==◌, if◌then◌else◌, Bool-cases,
  Option-cases, length-set, length-replicate, length-append, get_or-set, get_or-set_self,
  get_or-set_ne, get_or-replicate, set-set, set-get_or, set-undo, set-compose, get_or-set_default,
  ltb→lt, lt→ltb, ltb→le, le→ltb, leb→le, leb→lt, le→leb, lt→leb, ==_iff, tests,
}
use linux_evfs.Base.Int.{ℤ, pos, negsuc, is_neg, is_nonzero}
use linux_evfs.Base.Errno
use linux_evfs.Ext4.Desc.{GroupDesc, ext4_free_group_clusters, ext4_free_group_clusters_set}
use linux_evfs.Ext4.State.{
  Bits, Buf, block_bitmap_bh, inode_bitmap_bh, grpdsc_bh, Group, SuperBlock, SbInfo, Held, Fs,
  ext4_has_group_desc_csum, ext4_c2b, ext4_num_b2c, ext4_free_blocks_count,
  ext4_free_blocks_count_set, ext4_group_desc_csum_set, ext4_superblock_csum_set, sub_wrap,
  set_group, dirty, get_bh, brelse, start_handle, stop_handle, ext4_lock_group, ext4_unlock_group,
  lock_buffer, unlock_buffer,
}
use linux_evfs.Ext4.Kernel.{LeBitops, BlockKernel}

module _ (b : LeBitops) (k : BlockKernel) (sbi : SbInfo) where
  open b use {ext4_test_and_set_bit, ext4_test_and_clear_bit}
  open k use {
    ext4_get_group_no_and_offset, ext4_read_block_bitmap, ext4_get_group_desc, ext4_journal_start,
    ext4_journal_get_write_access, ext4_handle_dirty_metadata, ext4_journal_stop,
    ext4_free_clusters_after_init, ext4_block_bitmap_csum_set, ext4_group_desc_csum,
    ext4_superblock_csum,
  }

  -- `out:`
  out : ℤ → Fs → ℤ × Fs
  out ret fs = (ret, brelse fs)

  -- `stop_journal:`
  stop_journal : ℤ → Fs → ℤ × Fs
  stop_journal ret fs =
      let fs = stop_handle fs in
      if is_neg ext4_journal_stop then out ext4_journal_stop fs else out ret fs

  -- The two calls of `ext4_handle_dirty_metadata` that end both functions.
  dirty_metadata : ℕ → Fs → ℤ × Fs
  dirty_metadata g fs =
      if is_neg (ext4_handle_dirty_metadata (grpdsc_bh g))
      then stop_journal (ext4_handle_dirty_metadata (grpdsc_bh g)) fs
      else if is_neg (ext4_handle_dirty_metadata (block_bitmap_bh g))
      then stop_journal (ext4_handle_dirty_metadata (block_bitmap_bh g)) (dirty (grpdsc_bh g) fs)
      else stop_journal (pos 0) (dirty (block_bitmap_bh g) (dirty (grpdsc_bh g) fs))

  -- The block under `if (grpdsc->bg_flags & cpu_to_le16(EXT4_BG_BLOCK_UNINIT))`.
  pub init_blocks : ℕ → GroupDesc → GroupDesc
  init_blocks g grpdsc =
      let started = record grpdsc { block_uninit = false } in
      if grpdsc.block_uninit
      then ext4_free_group_clusters_set sbi.wide started (ext4_free_clusters_after_init g started)
      else grpdsc

  -- The descriptor after an allocation, from "decrease free count" to the checksums.
  pub alloc_desc : ℕ → Bits → GroupDesc → GroupDesc
  alloc_desc g bits grpdsc =
      let taken = ext4_free_group_clusters_set sbi.wide grpdsc (
        ext4_num_b2c sbi
          (sub_wrap 32 (ext4_c2b sbi (ext4_free_group_clusters sbi.wide grpdsc)) 1)) in
      if ext4_has_group_desc_csum sbi
      then ext4_group_desc_csum_set sbi ext4_group_desc_csum g
          (ext4_block_bitmap_csum_set (init_blocks g taken) bits)
      else taken

  -- The free counters of the whole file system after an allocation.
  pub alloc_super : Fs → Fs
  alloc_super fs =
      let fs = lock_buffer (record fs {
        s_freeclusters_counter = sub_wrap 64 fs.s_freeclusters_counter (ext4_num_b2c sbi 1);
      }) in
      let es =
        ext4_free_blocks_count_set fs.es (sub_wrap 64 (ext4_free_blocks_count sbi fs.es) 1) in
      unlock_buffer (record fs { es = ext4_superblock_csum_set sbi ext4_superblock_csum es })

  -- The function from `ext4_lock_group` on, with both buffers open for writing.
  alloc_locked : ℕ → ℕ → Fs → ℤ × Fs
  alloc_locked g offset fs =
      let fs = ext4_lock_group fs in
      let grp = fs.group g in
      let (old, bits) = ext4_test_and_set_bit offset grp.block_bits in
      if old
      then stop_journal Errno.eexist
          (ext4_unlock_group (set_group g (record grp { block_bits = bits }) fs))
      else (let grp' : Group = record grp {
        block_bits = bits;
        desc = alloc_desc g bits grp.desc;
      } in
          dirty_metadata g (alloc_super (ext4_unlock_group (set_group g grp' fs))))

  -- What both functions do up to `ext4_lock_group`, and then `locked`.
  pub open_group : (ℕ → ℕ → Fs → ℤ × Fs) → ℕ → Fs → ℤ × Fs
  open_group locked bindex fs =
      let (g, offset) = ext4_get_group_no_and_offset bindex in
      elim (ext4_read_block_bitmap g) [
        | some e ↦ (negsuc e, fs)
        | none ↦
            if not (ext4_get_group_desc g)
            then (Errno.einval, brelse (get_bh fs))
            else elim ext4_journal_start [
              | some e ↦ out (negsuc e) (get_bh fs)
              | none ↦
                  if is_neg (ext4_journal_get_write_access (block_bitmap_bh g))
                  then stop_journal (ext4_journal_get_write_access (block_bitmap_bh g))
                      (start_handle (get_bh fs))
                  else if is_neg (ext4_journal_get_write_access (grpdsc_bh g))
                  then stop_journal (ext4_journal_get_write_access (grpdsc_bh g))
                      (start_handle (get_bh fs))
                  else locked g offset (start_handle (get_bh fs))
            ]
      ]

  pub evfs_block_alloc : ℕ → Fs → ℤ × Fs
  evfs_block_alloc = open_group alloc_locked

  -- The descriptor after a release.
  pub free_desc : ℕ → Bits → GroupDesc → GroupDesc
  free_desc g bits grpdsc =
      let given = ext4_free_group_clusters_set sbi.wide grpdsc (
        ext4_num_b2c sbi
          ((ext4_c2b sbi (ext4_free_group_clusters sbi.wide grpdsc) + 1) % 2 ^ 32)) in
      if ext4_has_group_desc_csum sbi
      then ext4_group_desc_csum_set sbi ext4_group_desc_csum g
          (ext4_block_bitmap_csum_set given bits)
      else given

  -- The free counters of the whole file system after a release.
  pub free_super : Fs → Fs
  free_super fs =
      let fs = lock_buffer (record fs {
        s_freeclusters_counter = (fs.s_freeclusters_counter + ext4_num_b2c sbi 1) % 2 ^ 64;
      }) in
      let es = ext4_free_blocks_count_set fs.es ((ext4_free_blocks_count sbi fs.es + 1) % 2 ^ 64) in
      unlock_buffer (record fs { es = ext4_superblock_csum_set sbi ext4_superblock_csum es })

  free_locked : ℕ → ℕ → Fs → ℤ × Fs
  free_locked g offset fs =
      let fs = ext4_lock_group fs in
      let grp = fs.group g in
      let (old, bits) = ext4_test_and_clear_bit offset grp.block_bits in
      if not old
      then stop_journal Errno.eexist
          (ext4_unlock_group (set_group g (record grp { block_bits = bits }) fs))
      else (let grp' : Group = record grp { block_bits = bits; desc = free_desc g bits grp.desc } in
          dirty_metadata g (free_super (ext4_unlock_group (set_group g grp' fs))))

  pub evfs_block_free : ℕ → Fs → ℤ × Fs
  evfs_block_free = open_group free_locked
