-- ===== src/Iter.antt =====
-- The two searches of linux-6.8/fs/ext4/evfs.c: `evfs_fspace_iter` for a run of free blocks, and
-- `evfs_inode_iter` for an inode in use. A loop runs on the count of rounds that are left.
pub mod Runs
pub mod Inodes
use linux_evfs.Base.{
  ℕ, zero, suc, ◌+◌, ◌-◌, ◌*◌, ◌/◌, ◌%◌, ◌^◌, ◌≤◌, ◌<◌, min, ◌≡◌, refl, sym, ap, ◌∙◌, ◌≢◌, ◌↔◌, ◌⊎◌,
  inl, inr, Bool, true, false, not, ◌&&◌, ◌||◌, Option, none, some, List, [], ◌∷◌, ◌++◌, map, arith,
  length, get_elem?, get_or, set, replicate, ltb, leb, ◌==◌, if◌then◌else◌, Bool-cases,
  Option-cases, length-set, length-replicate, length-append, get_or-set, get_or-set_self,
  get_or-set_ne, get_or-replicate, set-set, set-get_or, set-undo, set-compose, get_or-set_default,
  ltb→lt, lt→ltb, ltb→le, le→ltb, leb→le, leb→lt, le→leb, lt→leb, ==_refl, ==_iff, tests,
}
use linux_evfs.Base.Int.{ℤ, pos, negsuc, is_neg, is_nonzero}
use linux_evfs.Ext4.State.{Bits, SuperBlock, SbInfo, ext4_blocks_count}
use linux_evfs.Ext4.Kernel.{LeBitops}

-- The calls that find a number's group, and read the bitmap of a group. `none` is an error pointer
-- or a null pointer.
pub record IterKernel : Type 0 where
  pub ext4_get_group_no_and_offset : ℕ → ℕ × ℕ
  pub ext4_read_block_bitmap : ℕ → Option Bits
  pub ext4_read_inode_bitmap : ℕ → Option Bits

-- `args->out` of `struct ext4_evfs_fsp_iter_args`
pub record FspIterOut : Type 0 where
  pub block : ℕ
  pub length : ℕ

-- The locals of `evfs_fspace_iter` that change from round to round.
pub record Found : Type 0 where
  pub start : ℕ
  pub len : ℕ
  pub in_free_extent : Bool

module _ (bo : LeBitops) (k : IterKernel) where
  open bo use {ext4_test_bit}
  open k use {ext4_get_group_no_and_offset, ext4_read_block_bitmap, ext4_read_inode_bitmap}

  pub fspace_loop : ℕ → ℕ → Found → Found
  fspace_loop zero b f = f
  fspace_loop (suc n) b f =
      let (group, offset) = ext4_get_group_no_and_offset b in
      let skip = fspace_loop n (b + 1) f in
      let take = fspace_loop n (b + 1) (record {
        start = if f.in_free_extent then f.start else b;
        len = f.len + 1;
        in_free_extent = true;
      }) in
      elim (ext4_read_block_bitmap group) [
        | none ↦ if f.in_free_extent then f else skip
        | some bits ↦
            if not (ext4_test_bit offset bits) then take else if f.in_free_extent then f else skip
      ]

  -- `for (__u64 b = args->in.start; b <= total_blocks; b++)`
  pub evfs_fspace_iter : SbInfo → SuperBlock → ℕ → ℤ × FspIterOut
  evfs_fspace_iter sbi es start =
      let rounds = ext4_blocks_count sbi es + 1 - start in
      let f = fspace_loop rounds start (record { start = 0; len = 0; in_free_extent = false }) in
      (pos 0, record { block = f.start; length = f.len })

  -- The first number in use from `i` on, or 0. `i - 1` is taken modulo 2 ^ 32.
  pub inode_loop : SbInfo → ℕ → ℕ → ℕ
  inode_loop sbi zero i = 0
  inode_loop sbi (suc n) i =
      let index = (i + 2 ^ 32 - 1) % 2 ^ 32 in
      let group = index / sbi.s_inodes_per_group in
      let offset = index % sbi.s_inodes_per_group in
      let rest = inode_loop sbi n (i + 1) in
      elim (ext4_read_inode_bitmap group) [
        | none ↦ rest
        | some bits ↦ if ext4_test_bit offset bits then i else rest
      ]

  -- `__u32 i = args->in.start` drops the high half of the argument.
  pub evfs_inode_iter : SbInfo → SuperBlock → ℕ → ℤ × ℕ
  evfs_inode_iter sbi es start =
      let i = start % 2 ^ 32 in (pos 0, inode_loop sbi (es.s_inodes_count + 1 - i) i)
