-- ===== src/Ext4/State.antt =====
-- A mounted ext4 file system as the allocators of evfs.c see it: the groups with their bitmaps and
-- descriptors, the superblock, the counters, and what the running call holds.
use linux_evfs.Base.{ℕ, ◌+◌, ◌-◌, ◌*◌, ◌/◌, ◌%◌, ◌^◌, Bool, ◌||◌, List, ◌∷◌, ◌==◌, if◌then◌else◌}
use linux_evfs.Ext4.Desc.{GroupDesc}

-- The data of a bitmap block, bit by bit.
abbrev pub Bits : Type 0
Bits = List Bool

-- The buffers that a call hands to the journal: of a group its block bitmap, its inode bitmap and
-- the block of its descriptor.
pub data Buf : Type 0 where
  block_bitmap_bh inode_bitmap_bh grpdsc_bh : ℕ → Buf

pub record Group : Type 0 where
  pub block_bits : Bits
  pub inode_bits : Bits
  pub desc : GroupDesc

-- The fields of `struct ext4_super_block` that evfs.c reads or writes.
pub record SuperBlock : Type 0 where
  pub s_blocks_count_lo : ℕ
  pub s_blocks_count_hi : ℕ
  pub s_free_blocks_count_lo : ℕ
  pub s_free_blocks_count_hi : ℕ
  pub s_inodes_count : ℕ
  pub s_checksum : ℕ

-- The fields of `struct ext4_sb_info` that do not change while the file system is mounted.
-- `wide` is `EXT4_DESC_SIZE(sb) >= EXT4_MIN_DESC_SIZE_64BIT`.
pub record SbInfo : Type 0 where
  pub s_cluster_bits : ℕ
  pub s_inodes_per_group : ℕ
  pub wide : Bool
  pub feature_64bit : Bool
  pub feature_gdt_csum : Bool
  pub has_metadata_csum : Bool

-- How many buffer references, journal handles, group locks and buffer locks the call holds.
pub record Held : Type 0 where
  pub buffers : ℕ
  pub handles : ℕ
  pub group_locks : ℕ
  pub buffer_locks : ℕ

-- `dirtied` lists the buffers that were handed to the journal as changed, the latest first.
pub record Fs : Type 0 where
  pub group : ℕ → Group
  pub es : SuperBlock
  pub s_freeclusters_counter : ℕ
  pub s_freeinodes_counter : ℕ
  pub held : Held
  pub dirtied : List Buf

-- `ext4_has_group_desc_csum`
abbrev pub ext4_has_group_desc_csum : SbInfo → Bool
ext4_has_group_desc_csum sbi = sbi.feature_gdt_csum || sbi.has_metadata_csum

-- `EXT4_C2B` and `EXT4_NUM_B2C` on `unsigned int`; the cluster ratio is `1 << s_cluster_bits`.
unfoldable pub ext4_c2b : SbInfo → ℕ → ℕ
ext4_c2b sbi cluster = cluster * 2 ^ sbi.s_cluster_bits % 2 ^ 32

unfoldable pub ext4_num_b2c : SbInfo → ℕ → ℕ
ext4_num_b2c sbi blks = (blks + 2 ^ sbi.s_cluster_bits - 1) % 2 ^ 32 / 2 ^ sbi.s_cluster_bits

-- `ext4_read_incompat_64bit_val`, `ext4_blocks_count` and the accessors of the free count.
abbrev pub read_incompat_64bit_val : SbInfo → ℕ → ℕ → ℕ
read_incompat_64bit_val sbi lo hi = (if sbi.feature_64bit then hi * 2 ^ 32 else 0) + lo

unfoldable pub ext4_blocks_count : SbInfo → SuperBlock → ℕ
ext4_blocks_count sbi es = read_incompat_64bit_val sbi es.s_blocks_count_lo es.s_blocks_count_hi

unfoldable pub ext4_free_blocks_count : SbInfo → SuperBlock → ℕ
ext4_free_blocks_count sbi es =
    read_incompat_64bit_val sbi es.s_free_blocks_count_lo es.s_free_blocks_count_hi

unfoldable pub ext4_free_blocks_count_set : SuperBlock → ℕ → SuperBlock
ext4_free_blocks_count_set es blk = record es {
  s_free_blocks_count_lo = blk % 2 ^ 32;
  s_free_blocks_count_hi = blk / 2 ^ 32 % 2 ^ 32;
}

-- `ext4_group_desc_csum_set` and `ext4_superblock_csum_set`, over the checksum that they store.
unfoldable pub ext4_group_desc_csum_set : SbInfo → (ℕ → GroupDesc → ℕ) → ℕ → GroupDesc → GroupDesc
ext4_group_desc_csum_set sbi csum g gdp =
    if ext4_has_group_desc_csum sbi then record gdp { bg_checksum = csum g gdp } else gdp

unfoldable pub ext4_superblock_csum_set : SbInfo → (SuperBlock → ℕ) → SuperBlock → SuperBlock
ext4_superblock_csum_set sbi csum es =
    if sbi.has_metadata_csum then record es { s_checksum = csum es } else es

-- Subtraction of unsigned numbers of `w` bits.
abbrev pub sub_wrap : ℕ → ℕ → ℕ → ℕ
sub_wrap w a b = (a + 2 ^ w - b) % 2 ^ w

abbrev pub set_group : ℕ → Group → Fs → Fs
set_group g x fs = record fs { group = λ j. if j == g then x else fs.group j }

abbrev pub dirty : Buf → Fs → Fs
dirty b fs = record fs { dirtied = b ∷ fs.dirtied }

abbrev pub get_bh : Fs → Fs
get_bh fs = record fs { held = record (fs.held) { buffers = fs.held.buffers + 1 } }

abbrev pub brelse : Fs → Fs
brelse fs = record fs { held = record (fs.held) { buffers = fs.held.buffers - 1 } }

abbrev pub start_handle : Fs → Fs
start_handle fs = record fs { held = record (fs.held) { handles = fs.held.handles + 1 } }

abbrev pub stop_handle : Fs → Fs
stop_handle fs = record fs { held = record (fs.held) { handles = fs.held.handles - 1 } }

abbrev pub ext4_lock_group : Fs → Fs
ext4_lock_group fs = record fs { held = record (fs.held) { group_locks = fs.held.group_locks + 1 } }

abbrev pub ext4_unlock_group : Fs → Fs
ext4_unlock_group fs = record fs {
  held = record (fs.held) { group_locks = fs.held.group_locks - 1 };
}

abbrev pub lock_buffer : Fs → Fs
lock_buffer fs = record fs { held = record (fs.held) { buffer_locks = fs.held.buffer_locks + 1 } }

abbrev pub unlock_buffer : Fs → Fs
unlock_buffer fs = record fs { held = record (fs.held) { buffer_locks = fs.held.buffer_locks - 1 } }
