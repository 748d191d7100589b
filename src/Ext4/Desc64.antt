-- ===== src/Ext4/Desc64.antt =====
-- The numbers of a group descriptor, and the setters of super.c.
use linux_evfs.Base.{ℕ, ◌^◌, ◌<◌, ◌≡◌, Bool, arith, if◌then◌else◌}
use linux_evfs.Ext4.Desc.{
  GroupDesc, ext4_block_bitmap, ext4_inode_bitmap, ext4_inode_table, ext4_free_group_clusters,
  ext4_free_inodes_count, ext4_used_dirs_count, ext4_itable_unused_count, ext4_block_bitmap_set,
  ext4_inode_bitmap_set, ext4_inode_table_set, ext4_free_group_clusters_set, ext4_free_inodes_set,
  ext4_used_dirs_set, ext4_itable_unused_set,
}

-- The largest number that a count of a descriptor holds, plus 1.
abbrev pub count_bound : Bool → ℕ
count_bound wide = if wide then 2 ^ 32 else 2 ^ 16

abbrev pub block_bound : Bool → ℕ
block_bound wide = if wide then 2 ^ 64 else 2 ^ 32

-- The seven numbers of a descriptor.
pub record Counts : Type 0 where
  pub block_bitmap : ℕ
  pub inode_bitmap : ℕ
  pub inode_table : ℕ
  pub free_clusters : ℕ
  pub free_inodes : ℕ
  pub used_dirs : ℕ
  pub itable_unused : ℕ

abbrev pub counts : Bool → GroupDesc → Counts
counts wide bg = record {
  block_bitmap = ext4_block_bitmap wide bg;
  inode_bitmap = ext4_inode_bitmap wide bg;
  inode_table = ext4_inode_table wide bg;
  free_clusters = ext4_free_group_clusters wide bg;
  free_inodes = ext4_free_inodes_count wide bg;
  used_dirs = ext4_used_dirs_count wide bg;
  itable_unused = ext4_itable_unused_count wide bg;
}

module _ (wide : Bool) (bg : GroupDesc) (c : ℕ) where
  counts-ext4_block_bitmap_set :
      c < block_bound wide
      → counts wide (ext4_block_bitmap_set wide bg c) ≡ record (counts wide bg) { block_bitmap = c }
  unfolding ext4_block_bitmap ext4_inode_bitmap ext4_inode_table ext4_free_group_clusters
      ext4_free_inodes_count ext4_used_dirs_count ext4_itable_unused_count ext4_block_bitmap_set
  counts-ext4_block_bitmap_set h = ground arith

  counts-ext4_inode_bitmap_set :
      c < block_bound wide
      → counts wide (ext4_inode_bitmap_set wide bg c) ≡ record (counts wide bg) { inode_bitmap = c }
  unfolding ext4_block_bitmap ext4_inode_bitmap ext4_inode_table ext4_free_group_clusters
      ext4_free_inodes_count ext4_used_dirs_count ext4_itable_unused_count ext4_inode_bitmap_set
  counts-ext4_inode_bitmap_set h = ground arith

  counts-ext4_inode_table_set :
      c < block_bound wide
      → counts wide (ext4_inode_table_set wide bg c) ≡ record (counts wide bg) { inode_table = c }
  unfolding ext4_block_bitmap ext4_inode_bitmap ext4_inode_table ext4_free_group_clusters
      ext4_free_inodes_count ext4_used_dirs_count ext4_itable_unused_count ext4_inode_table_set
  counts-ext4_inode_table_set h = ground arith

  pub counts-ext4_free_group_clusters_set :
      c < count_bound wide
      → counts wide (ext4_free_group_clusters_set wide bg c)
        ≡ record (counts wide bg) { free_clusters = c }
  unfolding ext4_block_bitmap ext4_inode_bitmap ext4_inode_table ext4_free_group_clusters
      ext4_free_inodes_count ext4_used_dirs_count ext4_itable_unused_count
      ext4_free_group_clusters_set
  counts-ext4_free_group_clusters_set h = ground arith

  pub counts-ext4_free_inodes_set :
      c < count_bound wide
      → counts wide (ext4_free_inodes_set wide bg c) ≡ record (counts wide bg) { free_inodes = c }
  unfolding ext4_block_bitmap ext4_inode_bitmap ext4_inode_table ext4_free_group_clusters
      ext4_free_inodes_count ext4_used_dirs_count ext4_itable_unused_count ext4_free_inodes_set
  counts-ext4_free_inodes_set h = ground arith

  counts-ext4_used_dirs_set :
      c < count_bound wide
      → counts wide (ext4_used_dirs_set wide bg c) ≡ record (counts wide bg) { used_dirs = c }
  unfolding ext4_block_bitmap ext4_inode_bitmap ext4_inode_table ext4_free_group_clusters
      ext4_free_inodes_count ext4_used_dirs_count ext4_itable_unused_count ext4_used_dirs_set
  counts-ext4_used_dirs_set h = ground arith

  pub counts-ext4_itable_unused_set :
      c < count_bound wide
      → counts wide (ext4_itable_unused_set wide bg c)
        ≡ record (counts wide bg) { itable_unused = c }
  unfolding ext4_block_bitmap ext4_inode_bitmap ext4_inode_table ext4_free_group_clusters
      ext4_free_inodes_count ext4_used_dirs_count ext4_itable_unused_count ext4_itable_unused_set
  counts-ext4_itable_unused_set h = ground arith

-- Each setter of a descriptor makes its own number the given one, if that fits the width of the
-- descriptor, and leaves the six others as they were.
pub counts_sets :
    (wide : Bool) (bg : GroupDesc) (c blk : ℕ)
    → c < count_bound wide
    → blk < block_bound wide
    → (counts wide (ext4_block_bitmap_set wide bg blk)
        ≡ record (counts wide bg) { block_bitmap = blk })
      × (counts wide (ext4_inode_bitmap_set wide bg blk)
          ≡ record (counts wide bg) { inode_bitmap = blk })
      × (counts wide (ext4_inode_table_set wide bg blk)
          ≡ record (counts wide bg) { inode_table = blk })
      × (counts wide (ext4_free_group_clusters_set wide bg c)
          ≡ record (counts wide bg) { free_clusters = c })
      × (counts wide (ext4_free_inodes_set wide bg c) ≡ record (counts wide bg) { free_inodes = c })
      × (counts wide (ext4_used_dirs_set wide bg c) ≡ record (counts wide bg) { used_dirs = c })
      × (counts wide (ext4_itable_unused_set wide bg c)
          ≡ record (counts wide bg) { itable_unused = c })
counts_sets wide bg c blk h hb = (
  counts-ext4_block_bitmap_set wide bg blk hb,
  counts-ext4_inode_bitmap_set wide bg blk hb,
  counts-ext4_inode_table_set wide bg blk hb,
  counts-ext4_free_group_clusters_set wide bg c h,
  counts-ext4_free_inodes_set wide bg c h,
  counts-ext4_used_dirs_set wide bg c h,
  counts-ext4_itable_unused_set wide bg c h,
)
