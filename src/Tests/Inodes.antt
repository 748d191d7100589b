-- ===== src/Tests/Inodes.antt =====
-- Witnesses of the theorems on the allocation of an inode.
use linux_evfs.Base.{ℕ, ◌≡◌, refl, true, some, arith}
use linux_evfs.Base.Int.{pos}
use linux_evfs.Ext4.Desc.{ext4_itable_unused_count, ext4_free_inodes_count, ext4_used_dirs_count}
use linux_evfs.Tracker.{EvfsBmTracker, done, evfs_bm_test}
use linux_evfs.Tracker.Ready.{settled}
use linux_evfs.Track.{evfs_inode_track, evfs_inode_track_lem}
use linux_evfs.InodeAlloc.{AllocState, used_inodes, evfs_inode_alloc}
use linux_evfs.InodeAlloc.Balance.{evfs_inode_alloc-held}
use linux_evfs.InodeAlloc.Counts.{CsumLaw}
use linux_evfs.InodeAlloc.Result.{FlagsLaw, Opens, Closes, IsCreated, evfs_inode_alloc-creates}
use linux_evfs.InodeAlloc.Unused.{used_inodes_lem}
use linux_evfs.Samples.{
  le_bitops, inode_kernel, inode, track_env, tracker, tracker-IsValid, alone-Keeps, sbi,
  alloc_state, desc,
}

opens : (g : ℕ) → Opens inode_kernel g inode
opens g = record {
  inode_read = refl;
  block_read = refl;
  desc = refl;
  inode = refl;
  dquot = refl;
  start = refl;
  inode_access = refl;
  block_access = refl;
  desc_access = refl;
  stop = refl;
}

closes : (g : ℕ) → Closes inode_kernel g
closes g = record {
  locked = refl;
  quota = refl;
  inode_dirty = refl;
  desc_dirty = refl;
  block_dirty = refl;
  bitmap_dirty = refl;
}

abbrev far : ℕ
far = 132

-- The tracker after inode 12 is tracked.
tracked_12 :
    (t' : EvfsBmTracker ℕ) × (evfs_inode_track track_env (some tracker) 12 ≡ done (pos 0, some t'))
unfolding settled evfs_bm_test
tracked_12 =
    let r =
      evfs_inode_track_lem track_env alone-Keeps refl tracker 12 tracker-IsValid (omega arith) in
    (r.0, r.1)

free_count : ext4_free_inodes_count true desc ≡ 6
unfolding ext4_free_inodes_count
free_count = refl

csum_law : CsumLaw inode_kernel true
unfolding ext4_free_inodes_count ext4_used_dirs_count
csum_law = record { block = λ d m. refl; inode = λ d m. refl }

flags_law : FlagsLaw inode_kernel
flags_law = record {
  i_ino = λ i. refl;
  i_mode = λ i. refl;
  i_nlink = λ i. refl;
  i_block_group = λ i. refl;
}

evfs_inode_alloc-creates_example :
    (s' : AllocState ℕ) × (evfs_inode_alloc le_bitops inode_kernel track_env sbi 12 alloc_state
      ≡ done (pos 0, s'))
    × IsCreated le_bitops inode_kernel track_env sbi 12 inode alloc_state (some tracked_12.0) s'
evfs_inode_alloc-creates_example =
    evfs_inode_alloc-creates le_bitops inode_kernel track_env sbi 12 inode alloc_state (opens 1)
      (omega arith) refl (some tracked_12.0) tracked_12.1 (closes 1) csum_law flags_law
      (omega (arith, free_count)) (omega (arith, free_count))

evfs_inode_alloc-held_example :
    (evfs_inode_alloc-creates_example.0.fs.held ≡ alloc_state.fs.held)
    × (evfs_inode_alloc-creates_example.0.inode_refs ≡ 0)
    × (evfs_inode_alloc-creates_example.0.inode_locks ≡ 0)
evfs_inode_alloc-held_example =
    evfs_inode_alloc-held le_bitops inode_kernel track_env sbi 12 alloc_state
      evfs_inode_alloc-creates_example.0 (pos 0) evfs_inode_alloc-creates_example.1

unused_count : ext4_itable_unused_count true desc ≡ 5
unfolding ext4_itable_unused_count
unused_count = refl

used_3 : used_inodes le_bitops inode_kernel track_env sbi desc ≡ 3
used_3 = omega (
  arith,
  used_inodes_lem le_bitops inode_kernel track_env sbi (omega arith) desc refl
      (omega (arith, unused_count)),
  unused_count,
)
