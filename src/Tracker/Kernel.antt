-- ===== src/Tracker/Kernel.antt =====
-- What evfs-bmt.c uses of the kernel: the read-write semaphore, and the bit operations that its
-- callers hand in. Both lie outside the repository, so they are interfaces with the behaviour that
-- the kernel documents for them.
use linux_evfs.Base.{ℕ, ◌<◌, ◌≡◌, Bool, true, false, List, length, get_or, set}

-- The memory of a bitmap, bit by bit.
abbrev pub Bits : Type 0
Bits = List Bool

-- linux/rwsem.h: each unlocking call undoes the locking call that it is paired with, and
-- `downgrade_write` turns a write lock into a read lock.
pub record Rwsem (S : Type 0) : Type 0 where
  pub init_rwsem : S
  pub down_read : S → S
  pub up_read : S → S
  pub down_write : S → S
  pub up_write : S → S
  pub downgrade_write : S → S
  pub up-down_read : (s : S) → up_read (down_read s) ≡ s
  pub up-down_write : (s : S) → up_write (down_write s) ≡ s
  pub up-downgrade : (s : S) → up_read (downgrade_write (down_write s)) ≡ s

-- linux/bitops.h, on a bit that lies in the memory.
pub record Bitops : Type 0 where
  pub test_and_set_bit : ℕ → Bits → Bool × Bits
  pub test_and_clear_bit : ℕ → Bits → Bool × Bits
  pub clear_bit : ℕ → Bits → Bits
  pub test_and_set_bit_lem :
      (n : ℕ) (m : Bits) → n < length m → test_and_set_bit n m ≡ (get_or m n false, set m n true)
  pub test_and_clear_bit_lem :
      (n : ℕ) (m : Bits) → n < length m → test_and_clear_bit n m ≡ (get_or m n false, set m n false)
  pub clear_bit_lem : (n : ℕ) (m : Bits) → n < length m → clear_bit n m ≡ set m n false
