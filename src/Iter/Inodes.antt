-- ===== src/Iter/Inodes.antt =====
-- Lemmas on the loop of `evfs_inode_iter` (evfs.c) and on inodes in use.
use linux_evfs.Base.{
  ℕ, zero, suc, ◌+◌, ◌-◌, ◌/◌, ◌%◌, ◌^◌, ◌≤◌, ◌<◌, ◌≡◌, refl, inl, inr, Bool, true, false, none,
  some, arith, if◌then◌else◌, Bool-cases,
}
use linux_evfs.Base.Int.{pos}
use linux_evfs.Ext4.State.{SuperBlock, SbInfo}
use linux_evfs.Ext4.Kernel.{LeBitops}
use linux_evfs.Iter.{IterKernel, inode_loop, evfs_inode_iter}

module _ (bo : LeBitops) (k : IterKernel) (sbi : SbInfo) where
  -- An inode is in use if the bitmap of its group can be read and has its bit set.
  pub in_use : ℕ → Bool
  in_use i =
      let index = (i + 2 ^ 32 - 1) % 2 ^ 32 in
      elim (k.ext4_read_inode_bitmap (index / sbi.s_inodes_per_group)) [
        | none ↦ false
        | some bits ↦ bo.ext4_test_bit (index % sbi.s_inodes_per_group) bits
      ]

  inode_loop-step :
      (n i : ℕ)
      → inode_loop bo k sbi (suc n) i ≡ (if in_use i then i else inode_loop bo k sbi n (i + 1))
  unfolding inode_loop in_use
  inode_loop-step n i = ground arith

  -- `r` is the least number in use in `[from, end)`, or 0 if there is none.
  pub data IsNext (from end : ℕ) : ℕ → Type 0 where
    no_inode : ((i : ℕ) → from ≤ i → i < end → in_use i ≡ false) → IsNext from end 0
    next :
        {r : ℕ}
        → from ≤ r
        → r < end
        → in_use r ≡ true
        → ((i : ℕ) → from ≤ i → i < r → in_use i ≡ false)
        → IsNext from end r

  extend_unused :
      (s b c : ℕ)
      → s ≤ c
      → c < b + 1
      → ((i : ℕ) → s ≤ i → i < b → in_use i ≡ false)
      → in_use b ≡ false
      → in_use c ≡ false
  extend_unused s b c lo hi unused e = ground (arith, unused c lo)

  inode_loop-IsNext :
      (n from end i : ℕ)
      → i + n ≡ end
      → from ≤ i
      → ((j : ℕ) → from ≤ j → j < i → in_use j ≡ false)
      → IsNext from end (inode_loop bo k sbi n i)
  unfolding inode_loop
  inode_loop-IsNext zero from end i total after before =
      no_inode (λ j lo hi. before j lo (omega arith))
  inode_loop-IsNext (suc n) from end i total after before =
      rw (inode_loop-step n i) (elim (Bool-cases (in_use i)) [
        | inl e ↦ rw e (next after (omega arith) e before)
        | inr e ↦ rw e (
            inode_loop-IsNext n from end (i + 1) (omega arith) (omega arith)
              (λ j lo hi. extend_unused from i j lo hi before e))
      ])

  -- From a start that is at most the count of inodes, and that fits 32 bits, the function returns
  -- 0 and the least inode number in use from `start` to the count of inodes, or 0 if none is.
  pub evfs_inode_iter-IsNext :
      (es : SuperBlock) (start : ℕ)
      → start < 2 ^ 32
      → start ≤ es.s_inodes_count
      → ((evfs_inode_iter bo k sbi es start).0 ≡ pos 0)
        × IsNext start (es.s_inodes_count + 1) (evfs_inode_iter bo k sbi es start).1
  unfolding evfs_inode_iter
  evfs_inode_iter-IsNext es start h32 h =
      let same : start % 2 ^ 32 ≡ start = omega arith in
      rw same (
        refl,
        inode_loop-IsNext (es.s_inodes_count + 1 - start) start (es.s_inodes_count + 1) start
            (omega arith) (omega arith) (λ c lo hi. absurd (omega arith)),
      )
