-- ===== src/InodeAlloc/Counts.antt =====
-- The counts of free inodes and of directories of a group, as `evfs_inode_alloc` (evfs.c) leaves them.
use linux_evfs.Base.{
  ℕ, ◌-◌, ◌<◌, ◌≡◌, refl, ap, ◌∙◌, Bool, true, false, if◌then◌else◌, arith, inl, inr, Bool-cases,
}
use linux_evfs.Ext4.Desc.{
  GroupDesc, ext4_free_inodes_count, ext4_free_inodes_set, ext4_used_dirs_count,
  ext4_free_group_clusters_set, ext4_itable_unused_set,
}
use linux_evfs.Ext4.Desc64.{Counts, count_bound, counts-ext4_free_inodes_set}
use linux_evfs.Block.Counts.{count_bound-le}
use linux_evfs.Ext4.State.{
  Bits, Group, SbInfo, ext4_has_group_desc_csum, ext4_group_desc_csum_set, sub_wrap,
}
use linux_evfs.Ext4.Kernel.{LeBitops}
use linux_evfs.Track.{TrackEnv}
use linux_evfs.InodeAlloc.{InodeKernel, init_blocks, update_unused, alloc_desc}

-- The free inodes and the directories of a group.
abbrev pub inode_counts : Bool → GroupDesc → ℕ × ℕ
inode_counts wide d = (ext4_free_inodes_count wide d, ext4_used_dirs_count wide d)

-- The two functions that put the checksum of a bitmap into a descriptor leave its counts of inodes.
pub record CsumLaw (k : InodeKernel) (wide : Bool) : Type 0 where
  pub block :
      (d : GroupDesc) (bits : Bits)
      → inode_counts wide (k.ext4_block_bitmap_csum_set d bits) ≡ inode_counts wide d
  pub inode :
      (d : GroupDesc) (bits : Bits)
      → inode_counts wide (k.ext4_inode_bitmap_csum_set d bits) ≡ inode_counts wide d

either-inode_counts :
    (wide c : Bool) (x y d : GroupDesc)
    → inode_counts wide x ≡ inode_counts wide d
    → inode_counts wide y ≡ inode_counts wide d
    → inode_counts wide (if c then x else y) ≡ inode_counts wide d
either-inode_counts wide true x y d hx hy = hx
either-inode_counts wide false x y d hx hy = hy

clusters-inode_counts :
    (wide : Bool) (d : GroupDesc) (c : ℕ)
    → inode_counts wide (ext4_free_group_clusters_set wide d c) ≡ inode_counts wide d
unfolding ext4_free_group_clusters_set ext4_free_inodes_count ext4_used_dirs_count
clusters-inode_counts wide d c = refl

unused-inode_counts :
    (wide : Bool) (d : GroupDesc) (c : ℕ)
    → inode_counts wide (ext4_itable_unused_set wide d c) ≡ inode_counts wide d
unfolding ext4_itable_unused_set ext4_free_inodes_count ext4_used_dirs_count
unused-inode_counts wide d c = refl

flag-inode_counts :
    (wide : Bool) (d : GroupDesc) (u i : Bool)
    → inode_counts wide (record d { block_uninit = u; inode_uninit = i }) ≡ inode_counts wide d
unfolding ext4_free_inodes_count ext4_used_dirs_count
flag-inode_counts wide d u i = refl

csum-inode_counts :
    (sbi : SbInfo) (csum : ℕ → GroupDesc → ℕ) (g : ℕ) (d : GroupDesc)
    → inode_counts sbi.wide (ext4_group_desc_csum_set sbi csum g d) ≡ inode_counts sbi.wide d
unfolding ext4_group_desc_csum_set ext4_free_inodes_count ext4_used_dirs_count
csum-inode_counts sbi csum g d = ground arith

module _ {S : Type 0} (b : LeBitops) (k : InodeKernel) (v : TrackEnv S) (sbi : SbInfo)
    (law : CsumLaw k sbi.wide) where
  init_blocks-inode_counts :
      (g : ℕ) (bits : Bits) (d : GroupDesc)
      → inode_counts sbi.wide (init_blocks b k v sbi g bits d) ≡ inode_counts sbi.wide d
  unfolding init_blocks
  init_blocks-inode_counts g bits d =
      either-inode_counts sbi.wide d.block_uninit _ d d
        (law.block _ bits
          ∙ clusters-inode_counts sbi.wide _ _
          ∙ flag-inode_counts sbi.wide d _ d.inode_uninit)
        refl

  update_unused-inode_counts :
      (offset : ℕ) (d : GroupDesc)
      → inode_counts sbi.wide (update_unused b k v sbi offset d) ≡ inode_counts sbi.wide d
  unfolding update_unused
  update_unused-inode_counts offset d =
      grind (arith, unused-inode_counts, flag-inode_counts sbi.wide d d.block_uninit)

  -- One free inode less, and as many directories.
  pub alloc_desc-inode_counts :
      (g offset : ℕ) (grp : Group)
      → 0 < ext4_free_inodes_count sbi.wide grp.desc
      → ext4_free_inodes_count sbi.wide grp.desc < count_bound sbi.wide
      → inode_counts sbi.wide (alloc_desc b k v sbi g offset grp)
        ≡ (ext4_free_inodes_count sbi.wide grp.desc - 1, ext4_used_dirs_count sbi.wide grp.desc)
  unfolding alloc_desc
  alloc_desc-inode_counts g offset grp some_free fits =
      let free = ext4_free_inodes_count sbi.wide grp.desc in
      let lower : sub_wrap 32 free 1 ≡ free - 1 =
        omega (arith, some_free, fits, count_bound-le sbi.wide) in
      let taken = ext4_free_inodes_set sbi.wide grp.desc (sub_wrap 32 free 1) in
      let count : inode_counts sbi.wide taken ≡ (free - 1, ext4_used_dirs_count sbi.wide grp.desc) =
        rw lower (
          ap (λ (x : Counts). (x.free_inodes, x.used_dirs))
            (counts-ext4_free_inodes_set sbi.wide grp.desc (free - 1) (omega (arith, fits)))) in
      elim (Bool-cases (ext4_has_group_desc_csum sbi)) [
        | inl e ↦ rw e (
            csum-inode_counts sbi k.ext4_group_desc_csum g _
            ∙ law.inode _ grp.inode_bits
            ∙ update_unused-inode_counts offset _
            ∙ init_blocks-inode_counts g grp.block_bits taken
            ∙ count)
        | inr e ↦ rw e count
      ]
