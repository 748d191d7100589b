-- ===== src/Ext4/Kernel.antt =====
-- What the block allocator of evfs.c calls outside the repository: the bit operations, the
-- buffer cache, the journal and the checksums. Each call that can fail is a field that says how it
-- ends, so a value of the record is one course of events.
use linux_evfs.Base.{ℕ, ◌<◌, ◌≡◌, Bool, true, false, Option, length, get_or, set}
use linux_evfs.Base.Int.{ℤ}
use linux_evfs.Ext4.Desc.{GroupDesc}
use linux_evfs.Ext4.State.{Bits, Buf, SuperBlock}

-- `__test_and_set_bit_le` and its kin, on a bit that lies in the block.
pub record LeBitops : Type 0 where
  pub ext4_test_and_set_bit : ℕ → Bits → Bool × Bits
  pub ext4_test_and_clear_bit : ℕ → Bits → Bool × Bits
  pub ext4_test_bit : ℕ → Bits → Bool
  pub test_and_set_lem :
      (n : ℕ) (m : Bits)
      → n < length m
      → ext4_test_and_set_bit n m ≡ (get_or m n false, set m n true)
  pub test_and_clear_lem :
      (n : ℕ) (m : Bits)
      → n < length m
      → ext4_test_and_clear_bit n m ≡ (get_or m n false, set m n false)
  pub test_lem : (n : ℕ) (m : Bits) → n < length m → ext4_test_bit n m ≡ get_or m n false

-- An error pointer is `some e`, which stands for the negative number `negsuc e`.
pub record BlockKernel : Type 0 where
  pub ext4_get_group_no_and_offset : ℕ → ℕ × ℕ
  pub ext4_read_block_bitmap : ℕ → Option ℕ
  pub ext4_get_group_desc : ℕ → Bool
  pub ext4_journal_start : Option ℕ
  pub ext4_journal_get_write_access : Buf → ℤ
  pub ext4_handle_dirty_metadata : Buf → ℤ
  pub ext4_journal_stop : ℤ
  pub ext4_free_clusters_after_init : ℕ → GroupDesc → ℕ
  pub ext4_block_bitmap_csum_set : GroupDesc → Bits → GroupDesc
  pub ext4_group_desc_csum : ℕ → GroupDesc → ℕ
  pub ext4_superblock_csum : SuperBlock → ℕ
