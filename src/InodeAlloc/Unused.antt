-- ===== src/InodeAlloc/Unused.antt =====
-- The end of the used part of a group's inode table, as `evfs_inode_alloc` keeps it.
use linux_evfs.Base.{
  ℕ, ◌+◌, ◌-◌, ◌^◌, ◌≤◌, ◌<◌, ◌≡◌, ◌≢◌, refl, ap, ◌∙◌, Bool, false, arith, ltb, Bool-cases, inl,
  inr, if◌then◌else◌,
}
use linux_evfs.Ext4.Desc.{GroupDesc, ext4_itable_unused_count, ext4_itable_unused_set}
use linux_evfs.Ext4.Desc64.{count_bound, counts-ext4_itable_unused_set}
use linux_evfs.Ext4.State.{SbInfo, sub_wrap}
use linux_evfs.Ext4.Kernel.{LeBitops}
use linux_evfs.Track.{TrackEnv}
use linux_evfs.InodeAlloc.{InodeKernel, int_to_ulong, used_inodes, update_unused}

unused_set :
    (wide : Bool) (d : GroupDesc) (c : ℕ)
    → c < count_bound wide
    → ext4_itable_unused_count wide (ext4_itable_unused_set wide d c) ≡ c
unused_set wide d c h = ap (λ x. x.itable_unused) (counts-ext4_itable_unused_set wide d c h)

uninit_set :
    (wide : Bool) (d : GroupDesc) (c : ℕ)
    → (ext4_itable_unused_set wide d c).inode_uninit ≡ d.inode_uninit
unfolding ext4_itable_unused_set
uninit_set wide d c = ground arith

module _ {S : Type 0} (b : LeBitops) (k : InodeKernel) (v : TrackEnv S) (sbi : SbInfo)
    (small : sbi.s_inodes_per_group < 2 ^ 16) where
  pub used_inodes_lem :
      (d : GroupDesc)
      → d.inode_uninit ≡ false
      → ext4_itable_unused_count sbi.wide d ≤ sbi.s_inodes_per_group
      → used_inodes b k v sbi d ≡ sbi.s_inodes_per_group - ext4_itable_unused_count sbi.wide d
  unfolding used_inodes int_to_ulong
  used_inodes_lem d init h = rw init (ground arith)

  update_unused_lem :
      (offset : ℕ) (d : GroupDesc)
      → ext4_itable_unused_count sbi.wide d ≤ sbi.s_inodes_per_group
      → offset < sbi.s_inodes_per_group
      → used_inodes b k v sbi (update_unused b k v sbi offset d) ≡ (
          if ltb (used_inodes b k v sbi d) offset
          then offset + 1
          else sbi.s_inodes_per_group - ext4_itable_unused_count sbi.wide d)
  unfolding update_unused ext4_itable_unused_count
  update_unused_lem offset d h ho = elim (Bool-cases (ltb (used_inodes b k v sbi d) offset)) [
    | inl past ↦
        let started = record d { inode_uninit = false } in
        let left = sbi.s_inodes_per_group - offset - 1 in
        let same : sub_wrap 32 (sub_wrap 32 sbi.s_inodes_per_group offset) 1 ≡ left =
          ground arith in
        let count = unused_set sbi.wide started left (ground arith) in
        rw (past, same)
          (used_inodes_lem (ext4_itable_unused_set sbi.wide started left)
              (uninit_set sbi.wide started left) (omega (arith, count, ho))
            ∙ omega (arith, count, ho))
    | inr in_use ↦ rw in_use (used_inodes_lem (record d { inode_uninit = false }) refl h)
  ]

  -- In an initialised group of less than 2 ^ 16 inodes, an inode that does not stand right behind the used part of the inode table lies in the used
  -- part after its allocation, which then ends behind it if it did not reach so far.
  pub update_unused-covers :
      (offset : ℕ) (d : GroupDesc)
      → d.inode_uninit ≡ false
      → ext4_itable_unused_count sbi.wide d ≤ sbi.s_inodes_per_group
      → offset < sbi.s_inodes_per_group
      → used_inodes b k v sbi d ≢ offset
      → offset < used_inodes b k v sbi (update_unused b k v sbi offset d)
  update_unused-covers offset d init h ho ne =
      let used = used_inodes_lem d init h in
      rw (update_unused_lem offset d h ho) (ground (arith, used, ne))

  -- In an initialised group of less than 2 ^ 16 inodes, the inode that stands right behind the used part stays outside of it, though it is allocated.
  pub update_unused-boundary :
      (offset : ℕ) (d : GroupDesc)
      → d.inode_uninit ≡ false
      → ext4_itable_unused_count sbi.wide d ≤ sbi.s_inodes_per_group
      → offset < sbi.s_inodes_per_group
      → used_inodes b k v sbi d ≡ offset
      → used_inodes b k v sbi (update_unused b k v sbi offset d) ≡ offset
  update_unused-boundary offset d init h ho e =
      let used = used_inodes_lem d init h in
      rw (update_unused_lem offset d h ho) (ground (arith, used, e))
