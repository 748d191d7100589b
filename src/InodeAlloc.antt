-- ===== src/InodeAlloc.antt =====
-- `evfs_inode_alloc` of linux-6.8/fs/ext4/evfs.c. A label of the source is a function of what is live
-- there, and each returns the result with the state it leaves, or faults with the tracker.
use linux_evfs.Base.{
  ℕ, ◌+◌, ◌-◌, ◌/◌, ◌%◌, ◌^◌, Bool, true, false, not, Option, none, some, List, ◌∷◌, replicate, ltb,
  if◌then◌else◌,
}
use linux_evfs.Base.Int.{ℤ, pos, negsuc, is_neg, is_nonzero}
use linux_evfs.Base.Errno
use linux_evfs.Ext4.Desc.{GroupDesc, ext4_free_group_clusters_set}
use linux_evfs.Ext4.State.{
  Bits, Buf, block_bitmap_bh, inode_bitmap_bh, grpdsc_bh, Group, SbInfo, Fs,
  ext4_has_group_desc_csum, ext4_group_desc_csum_set, sub_wrap, set_group, dirty, get_bh, brelse,
  start_handle, stop_handle, ext4_lock_group, ext4_unlock_group,
}
use linux_evfs.Ext4.Kernel.{LeBitops}
use linux_evfs.Ext4.Desc.{
  ext4_free_inodes_count, ext4_free_inodes_set, ext4_itable_unused_count, ext4_itable_unused_set,
}
use linux_evfs.Tracker.{EvfsBmTracker, Run, done, oops}
use linux_evfs.Track.{TrackEnv, evfs_inode_track}
mod State
pub use State.{Inode, AllocState, InodeKernel}
pub mod Balance
pub mod Unused
pub mod Counts
pub mod Result

-- An `int` that is compared with an `unsigned long`, from its 32 bits.
unfoldable pub int_to_ulong : ℕ → ℕ
int_to_ulong n = if ltb n (2 ^ 31) then n else n + (2 ^ 64 - 2 ^ 32)

module _ {S : Type 0} (b : LeBitops) (k : InodeKernel) (v : TrackEnv S) (sbi : SbInfo) where
  open k use {
    ext4_read_inode_bitmap, ext4_read_block_bitmap, ext4_get_group_desc, new_inode,
    dquot_initialize, ext4_journal_start, ext4_journal_get_write_access, ext4_handle_dirty_metadata,
    ext4_journal_stop, current_time, ext4_set_inode_flags, insert_inode_locked, get_random_u32,
    s_csum_seed, ext4_chksum, dquot_alloc_inode, ext4_mark_inode_dirty,
    ext4_free_clusters_after_init, ext4_block_bitmap_csum_set, ext4_inode_bitmap_csum_set,
    ext4_group_desc_csum,
  }

  abbrev on_fs : (Fs → Fs) → AllocState S → AllocState S
  on_fs f s = record s { fs = f s.fs }

  -- `out:`
  pub out : ℤ → AllocState S → Run (ℤ × AllocState S)
  out ret s = done (ret, on_fs (λ fs. brelse (brelse fs)) s)

  abbrev iput : AllocState S → AllocState S
  iput s = record s { inode_refs = s.inode_refs - 1 }

  -- `fail_init:`. The inode that gets `S_NOQUOTA` is given up right after.
  pub fail_init : ℤ → AllocState S → Run (ℤ × AllocState S)
  fail_init ret s = out ret (iput s)

  -- `stop_journal:`
  pub stop_journal : ℤ → AllocState S → Run (ℤ × AllocState S)
  stop_journal ret s =
      let s = on_fs stop_handle s in
      let ret = if is_neg ext4_journal_stop then ext4_journal_stop else ret in
      if not (is_neg ret) then out ret (iput s) else fail_init ret s

  -- `fail_drop:`, with its `clear_nlink`.
  pub fail_drop : ℤ → AllocState S → Run (ℤ × AllocState S)
  fail_drop ret s =
      stop_journal ret (record s { is_cleared = true; inode_locks = s.inode_locks - 1 })

  -- `fail_free_drop:`
  pub fail_free_drop : ℤ → AllocState S → Run (ℤ × AllocState S)
  fail_free_drop ret s = fail_drop ret (record s { quota = s.quota - 1 })

  -- The inode from `ino->i_mode = S_IFREG | 0644` to `ext4_set_inode_flags`.
  pub fill_inode : ℕ → ℕ → Inode → Inode
  fill_inode iindex group ino = ext4_set_inode_flags (record ino {
    i_ino = iindex;
    i_mode = 0o100644;
    i_blocks = 0;
    i_time = current_time;
    i_nlink = 1;
    i_crtime = current_time;
    i_data = replicate 15 0;
    i_dir_start_lookup = 0;
    i_disksize = 0;
    i_flags = 0;
    i_file_acl = 0;
    i_dtime = 0;
    i_block_group = group;
    i_last_alloc_group = 0xffff_ffff;
  })

  -- The generation, the checksum seed and the state flags.
  pub seed_inode : Inode → Inode
  seed_inode ino =
      let gen = get_random_u32 in
      record ino {
        i_generation = gen;
        i_csum_seed =
            if sbi.has_metadata_csum
            then ext4_chksum (ext4_chksum s_csum_seed (ino.i_ino % 2 ^ 32)) gen
            else ino.i_csum_seed;
        state_new = true;
      }

  -- The block of the group's bitmap, if it is not in use yet.
  pub init_blocks : ℕ → Bits → GroupDesc → GroupDesc
  init_blocks g block_bits d =
      let started = record d { block_uninit = false } in
      if d.block_uninit
      then ext4_block_bitmap_csum_set
          (ext4_free_group_clusters_set sbi.wide started (ext4_free_clusters_after_init g started))
          block_bits
      else d

  -- `free` before the test of `offset`.
  pub used_inodes : GroupDesc → ℕ
  used_inodes d =
      if d.inode_uninit
      then 0
      else int_to_ulong (sub_wrap 32 sbi.s_inodes_per_group (ext4_itable_unused_count sbi.wide d))

  -- The count of unused inodes at the end of the inode table.
  pub update_unused : ℕ → GroupDesc → GroupDesc
  update_unused offset d =
      let started = record d { inode_uninit = false } in
      if ltb (used_inodes d) offset
      then ext4_itable_unused_set sbi.wide started
          (sub_wrap 32 (sub_wrap 32 sbi.s_inodes_per_group offset) 1)
      else started

  -- The descriptor from "modify the free inode count" to the checksums.
  pub alloc_desc : ℕ → ℕ → Group → GroupDesc
  alloc_desc g offset grp =
      let taken =
        ext4_free_inodes_set sbi.wide grp.desc
          (sub_wrap 32 (ext4_free_inodes_count sbi.wide grp.desc) 1) in
      if ext4_has_group_desc_csum sbi
      then ext4_group_desc_csum_set sbi ext4_group_desc_csum g (
          ext4_inode_bitmap_csum_set (update_unused offset (init_blocks g grp.block_bits taken))
            grp.inode_bits)
      else taken

  abbrev set_desc : ℕ → GroupDesc → Fs → Fs
  set_desc g d fs = set_group g (record (fs.group g) { desc = d }) fs

  -- The three calls of `ext4_handle_dirty_metadata`, `unlock_new_inode` and the way out.
  pub dirty_metadata : ℕ → AllocState S → Run (ℤ × AllocState S)
  dirty_metadata g s =
      if is_neg (ext4_handle_dirty_metadata (grpdsc_bh g))
      then fail_free_drop (ext4_handle_dirty_metadata (grpdsc_bh g)) s
      else if is_neg (ext4_handle_dirty_metadata (block_bitmap_bh g))
      then fail_free_drop (ext4_handle_dirty_metadata (block_bitmap_bh g))
          (on_fs (dirty (grpdsc_bh g)) s)
      else if is_neg (ext4_handle_dirty_metadata (inode_bitmap_bh g))
      then fail_free_drop (ext4_handle_dirty_metadata (inode_bitmap_bh g))
          (on_fs (λ fs. dirty (block_bitmap_bh g) (dirty (grpdsc_bh g) fs)) s)
      else stop_journal (pos 0) (
          on_fs
            (λ fs. dirty (inode_bitmap_bh g) (dirty (block_bitmap_bh g) (dirty (grpdsc_bh g) fs)))
            (record s { inode_locks = s.inode_locks - 1 }))

  -- The group and the free inode counter, between `ext4_lock_group` and the counter.
  pub count_inode : ℕ → ℕ → Fs → Fs
  count_inode g offset fs =
      let fs = ext4_lock_group fs in
      let fs = ext4_unlock_group (set_desc g (alloc_desc g offset (fs.group g)) fs) in
      record fs { s_freeinodes_counter = sub_wrap 64 fs.s_freeinodes_counter 1 }

  -- From `insert_inode_locked` on.
  pub insert_inode : ℕ → ℕ → Inode → AllocState S → Run (ℤ × AllocState S)
  insert_inode g offset ino s =
      if is_neg insert_inode_locked
      then stop_journal Errno.eio s
      else (let s = record s { inode_locks = s.inode_locks + 1 } in
          if is_nonzero dquot_alloc_inode
          then fail_drop dquot_alloc_inode s
          else (let s = record s { quota = s.quota + 1 } in
              if is_nonzero ext4_mark_inode_dirty
              then fail_free_drop ext4_mark_inode_dirty s
              else dirty_metadata g (
                  on_fs (count_inode g offset)
                    (record s { journaled = seed_inode ino ∷ s.journaled }))))

  -- "track the inode"
  pub track_inode : ℕ → ℕ → ℕ → Inode → AllocState S → Run (ℤ × AllocState S)
  track_inode iindex g offset ino s = elim (evfs_inode_track v s.tracker iindex) [
    | oops ↦ oops
    | done (err, tracker) ↦
        let s = record s { tracker = tracker } in
        if is_neg err then stop_journal err s else insert_inode g offset (fill_inode iindex g ino) s
  ]

  -- The test and the setting of the inode's bit, under the lock of the group.
  pub take_bit : ℕ → ℕ → ℕ → Inode → AllocState S → Run (ℤ × AllocState S)
  take_bit iindex g offset ino s =
      let grp = s.fs.group g in
      let (old, bits) = b.ext4_test_and_set_bit offset grp.inode_bits in
      let s =
        on_fs
          (λ fs.
            ext4_unlock_group (set_group g (record grp { inode_bits = bits }) (ext4_lock_group fs)))
          s in
      if old then stop_journal Errno.eexist s else track_inode iindex g offset ino s

  -- The three calls of `ext4_journal_get_write_access`.
  pub open_buffers : ℕ → ℕ → ℕ → Inode → AllocState S → Run (ℤ × AllocState S)
  open_buffers iindex g offset ino s =
      if is_neg (ext4_journal_get_write_access (inode_bitmap_bh g))
      then stop_journal (ext4_journal_get_write_access (inode_bitmap_bh g)) s
      else if is_neg (ext4_journal_get_write_access (block_bitmap_bh g))
      then stop_journal (ext4_journal_get_write_access (block_bitmap_bh g)) s
      else if is_neg (ext4_journal_get_write_access (grpdsc_bh g))
      then stop_journal (ext4_journal_get_write_access (grpdsc_bh g)) s
      else take_bit iindex g offset ino s

  -- From `new_inode` on, with both bitmaps read.
  pub create_inode : ℕ → ℕ → ℕ → AllocState S → Run (ℤ × AllocState S)
  create_inode iindex g offset s = elim new_inode [
    | none ↦ out Errno.enomem s
    | some ino ↦
        let s = record s { inode_refs = s.inode_refs + 1 } in
        if is_nonzero dquot_initialize
        then fail_init dquot_initialize s
        else elim ext4_journal_start [
          | some e ↦ fail_init (negsuc e) s
          | none ↦ open_buffers iindex g offset ino (on_fs start_handle s)
        ]
  ]

  pub evfs_inode_alloc : ℕ → AllocState S → Run (ℤ × AllocState S)
  evfs_inode_alloc iindex s =
      let index = sub_wrap 64 iindex 1 in
      let g = index / sbi.s_inodes_per_group % 2 ^ 32 in
      let offset = index % sbi.s_inodes_per_group in
      elim (ext4_read_inode_bitmap g) [
        | some e ↦ done (negsuc e, s)
        | none ↦ elim (ext4_read_block_bitmap g) [
          | some e ↦ done (negsuc e, on_fs (λ fs. brelse (get_bh fs)) s)
          | none ↦
              let s = on_fs (λ fs. get_bh (get_bh fs)) s in
              if not (ext4_get_group_desc g)
              then out Errno.einval s
              else create_inode iindex g offset s
        ]
      ]
