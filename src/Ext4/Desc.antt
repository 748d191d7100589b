-- ===== src/Ext4/Desc.antt =====
-- Group descriptors: `struct ext4_group_desc` of linux-6.8/fs/ext4/ext4.h and its accessors of
-- linux-6.8/fs/ext4/super.c. Fields hold the numbers that their little-endian bytes stand for; `|`
-- of a low half and a shifted high half is written as a sum.
use linux_evfs.Base.{ℕ, ◌+◌, ◌*◌, ◌/◌, ◌%◌, ◌^◌, Bool, if◌then◌else◌}

-- Of `bg_flags` the two bits that the code tests stand for themselves.
pub record GroupDesc : Type 0 where
  pub bg_block_bitmap_lo : ℕ
  pub bg_inode_bitmap_lo : ℕ
  pub bg_inode_table_lo : ℕ
  pub bg_free_blocks_count_lo : ℕ
  pub bg_free_inodes_count_lo : ℕ
  pub bg_used_dirs_count_lo : ℕ
  pub inode_uninit : Bool
  pub block_uninit : Bool
  pub bg_block_bitmap_csum : ℕ
  pub bg_inode_bitmap_csum : ℕ
  pub bg_itable_unused_lo : ℕ
  pub bg_checksum : ℕ
  pub bg_block_bitmap_hi : ℕ
  pub bg_inode_bitmap_hi : ℕ
  pub bg_inode_table_hi : ℕ
  pub bg_free_blocks_count_hi : ℕ
  pub bg_free_inodes_count_hi : ℕ
  pub bg_used_dirs_count_hi : ℕ
  pub bg_itable_unused_hi : ℕ

-- `lo | (EXT4_DESC_SIZE(sb) >= EXT4_MIN_DESC_SIZE_64BIT ? hi << bits : 0)`
abbrev join : Bool → ℕ → ℕ → ℕ → ℕ
join wide bits lo hi = lo + (if wide then hi * 2 ^ bits else 0)

-- The high half is written only where the descriptor has one.
abbrev high : Bool → ℕ → ℕ → ℕ
high wide new old = if wide then new else old

-- `wide` is `EXT4_DESC_SIZE(sb) >= EXT4_MIN_DESC_SIZE_64BIT`.
module _ (wide : Bool) where
  unfoldable pub ext4_block_bitmap : GroupDesc → ℕ
  ext4_block_bitmap bg = join wide 32 bg.bg_block_bitmap_lo bg.bg_block_bitmap_hi

  unfoldable pub ext4_inode_bitmap : GroupDesc → ℕ
  ext4_inode_bitmap bg = join wide 32 bg.bg_inode_bitmap_lo bg.bg_inode_bitmap_hi

  unfoldable pub ext4_inode_table : GroupDesc → ℕ
  ext4_inode_table bg = join wide 32 bg.bg_inode_table_lo bg.bg_inode_table_hi

  unfoldable pub ext4_free_group_clusters : GroupDesc → ℕ
  ext4_free_group_clusters bg = join wide 16 bg.bg_free_blocks_count_lo bg.bg_free_blocks_count_hi

  unfoldable pub ext4_free_inodes_count : GroupDesc → ℕ
  ext4_free_inodes_count bg = join wide 16 bg.bg_free_inodes_count_lo bg.bg_free_inodes_count_hi

  unfoldable pub ext4_used_dirs_count : GroupDesc → ℕ
  ext4_used_dirs_count bg = join wide 16 bg.bg_used_dirs_count_lo bg.bg_used_dirs_count_hi

  unfoldable pub ext4_itable_unused_count : GroupDesc → ℕ
  ext4_itable_unused_count bg = join wide 16 bg.bg_itable_unused_lo bg.bg_itable_unused_hi

  unfoldable pub ext4_block_bitmap_set : GroupDesc → ℕ → GroupDesc
  ext4_block_bitmap_set bg blk = record bg {
    bg_block_bitmap_lo = blk % 2 ^ 32;
    bg_block_bitmap_hi = high wide (blk / 2 ^ 32 % 2 ^ 32) bg.bg_block_bitmap_hi;
  }

  unfoldable pub ext4_inode_bitmap_set : GroupDesc → ℕ → GroupDesc
  ext4_inode_bitmap_set bg blk = record bg {
    bg_inode_bitmap_lo = blk % 2 ^ 32;
    bg_inode_bitmap_hi = high wide (blk / 2 ^ 32 % 2 ^ 32) bg.bg_inode_bitmap_hi;
  }

  unfoldable pub ext4_inode_table_set : GroupDesc → ℕ → GroupDesc
  ext4_inode_table_set bg blk = record bg {
    bg_inode_table_lo = blk % 2 ^ 32;
    bg_inode_table_hi = high wide (blk / 2 ^ 32 % 2 ^ 32) bg.bg_inode_table_hi;
  }

  unfoldable pub ext4_free_group_clusters_set : GroupDesc → ℕ → GroupDesc
  ext4_free_group_clusters_set bg count = record bg {
    bg_free_blocks_count_lo = count % 2 ^ 16;
    bg_free_blocks_count_hi = high wide (count / 2 ^ 16 % 2 ^ 16) bg.bg_free_blocks_count_hi;
  }

  unfoldable pub ext4_free_inodes_set : GroupDesc → ℕ → GroupDesc
  ext4_free_inodes_set bg count = record bg {
    bg_free_inodes_count_lo = count % 2 ^ 16;
    bg_free_inodes_count_hi = high wide (count / 2 ^ 16 % 2 ^ 16) bg.bg_free_inodes_count_hi;
  }

  unfoldable pub ext4_used_dirs_set : GroupDesc → ℕ → GroupDesc
  ext4_used_dirs_set bg count = record bg {
    bg_used_dirs_count_lo = count % 2 ^ 16;
    bg_used_dirs_count_hi = high wide (count / 2 ^ 16 % 2 ^ 16) bg.bg_used_dirs_count_hi;
  }

  unfoldable pub ext4_itable_unused_set : GroupDesc → ℕ → GroupDesc
  ext4_itable_unused_set bg count = record bg {
    bg_itable_unused_lo = count % 2 ^ 16;
    bg_itable_unused_hi = high wide (count / 2 ^ 16 % 2 ^ 16) bg.bg_itable_unused_hi;
  }
