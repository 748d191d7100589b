-- ===== src/Iter/Runs.antt =====
-- Lemmas on the loop of `evfs_fspace_iter` (evfs.c) and on runs of free blocks.
use linux_evfs.Base.{
  ℕ, zero, suc, ◌+◌, ◌-◌, ◌≤◌, ◌<◌, ◌≡◌, refl, inl, inr, Bool, true, false, not, none, some, arith,
  if◌then◌else◌, Bool-cases,
}
use linux_evfs.Base.Int.{pos}
use linux_evfs.Ext4.State.{SuperBlock, SbInfo, ext4_blocks_count}
use linux_evfs.Ext4.Kernel.{LeBitops}
use linux_evfs.Iter.{IterKernel, Found, fspace_loop, evfs_fspace_iter}

module _ (bo : LeBitops) (k : IterKernel) where
  -- A block is seen as free if the bitmap of its group can be read and its bit is clear.
  pub is_free : ℕ → Bool
  is_free b = elim (k.ext4_read_block_bitmap (k.ext4_get_group_no_and_offset b).0) [
    | none ↦ false
    | some bits ↦ not (bo.ext4_test_bit (k.ext4_get_group_no_and_offset b).1 bits)
  ]

  -- `[s, s + l)` is the first run of free blocks in `[from, end)`: the blocks before it are not
  -- free, those in it are, and the one behind it is not, unless the range ends there. If no block
  -- is free both numbers are 0.
  pub data IsFirstRun (from end : ℕ) : ℕ → ℕ → Type 0 where
    no_run : ((b : ℕ) → from ≤ b → b < end → is_free b ≡ false) → IsFirstRun from end 0 0
    run :
        {s l : ℕ}
        → 0 < l
        → from ≤ s
        → s + l ≤ end
        → ((b : ℕ) → from ≤ b → b < s → is_free b ≡ false)
        → ((b : ℕ) → s ≤ b → b < s + l → is_free b ≡ true)
        → (s + l < end → is_free (s + l) ≡ false)
        → IsFirstRun from end s l

  -- One round, by whether the block is free.
  fspace_loop-step :
      (n b : ℕ) (f : Found)
      → fspace_loop bo k (suc n) b f ≡ (
          if is_free b
          then fspace_loop bo k n (b + 1) (record {
            start = if f.in_free_extent then f.start else b;
            len = f.len + 1;
            in_free_extent = true;
          })
          else if f.in_free_extent
          then f
          else fspace_loop bo k n (b + 1) f)
  unfolding fspace_loop is_free
  fspace_loop-step n b f = ground arith

  extend :
      (s b c : ℕ)
      → s ≤ c
      → c < b + 1
      → ((i : ℕ) → s ≤ i → i < b → is_free i ≡ true)
      → is_free b ≡ true
      → is_free c ≡ true
  extend s b c lo hi free e = ground (arith, free c lo)

  extend_used :
      (s b c : ℕ)
      → s ≤ c
      → c < b + 1
      → ((i : ℕ) → s ≤ i → i < b → is_free i ≡ false)
      → is_free b ≡ false
      → is_free c ≡ false
  extend_used s b c lo hi used e = ground (arith, used c lo)

  one_block : (b c : ℕ) → b ≤ c → c < b + 1 → is_free b ≡ true → is_free c ≡ true
  one_block b c lo hi e = ground arith

  -- Inside a run of `l` free blocks that began at `s`.
  fspace_loop-inside :
      (n from end s l b : ℕ)
      → b + n ≡ end
      → s + l ≡ b
      → 0 < l
      → from ≤ s
      → ((c : ℕ) → from ≤ c → c < s → is_free c ≡ false)
      → ((c : ℕ) → s ≤ c → c < b → is_free c ≡ true)
      → let f = fspace_loop bo k n b (record { start = s; len = l; in_free_extent = true }) in
        IsFirstRun from end f.start f.len
  unfolding fspace_loop
  fspace_loop-inside zero from end s l b total here nonempty after before free =
      run nonempty after (omega arith) before (λ c lo hi. free c lo (omega arith))
        (λ h. absurd (omega arith))
  fspace_loop-inside (suc n) from end s l b total here nonempty after before free =
      rw (fspace_loop-step n b (record { start = s; len = l; in_free_extent = true }))
        (elim (Bool-cases (is_free b)) [
          | inl e ↦ rw e (
              fspace_loop-inside n from end s (l + 1) (b + 1) (omega arith) (omega arith)
                (omega arith) after before (λ c lo hi. extend s b c lo hi free e))
          | inr e ↦ rw e (
              run nonempty after (omega arith) before (λ c lo hi. free c lo (omega arith))
                (λ h. rw here e))
        ])

  -- Before the first free block.
  fspace_loop-outside :
      (n from end b : ℕ)
      → b + n ≡ end
      → from ≤ b
      → ((c : ℕ) → from ≤ c → c < b → is_free c ≡ false)
      → let f = fspace_loop bo k n b (record { start = 0; len = 0; in_free_extent = false }) in
        IsFirstRun from end f.start f.len
  unfolding fspace_loop
  fspace_loop-outside zero from end b total after before =
      no_run (λ c lo hi. before c lo (omega arith))
  fspace_loop-outside (suc n) from end b total after before =
      rw (fspace_loop-step n b (record { start = 0; len = 0; in_free_extent = false }))
        (elim (Bool-cases (is_free b)) [
          | inl e ↦ rw e (
              fspace_loop-inside n from end b 1 (b + 1) (omega arith) (omega arith) (omega arith)
                after before (λ c lo hi. one_block b c lo hi e))
          | inr e ↦ rw e (
              fspace_loop-outside n from end (b + 1) (omega arith) (omega arith)
                (λ c lo hi. extend_used from b c lo hi before e))
        ])

  -- From a start that is at most the count of blocks, the function returns 0 and the first run of
  -- free blocks among the numbers from `start` up to and including the count of blocks.
  pub evfs_fspace_iter-IsFirstRun :
      (sbi : SbInfo) (es : SuperBlock) (start : ℕ)
      → start ≤ ext4_blocks_count sbi es
      → ((evfs_fspace_iter bo k sbi es start).0 ≡ pos 0)
        × IsFirstRun start
            (ext4_blocks_count sbi es + 1)
            (evfs_fspace_iter bo k sbi es start).1.block
            (evfs_fspace_iter bo k sbi es start).1.length
  unfolding evfs_fspace_iter
  evfs_fspace_iter-IsFirstRun sbi es start h =
      let total = ext4_blocks_count sbi es in
      (
        refl,
        fspace_loop-outside (total + 1 - start) start (total + 1) start (omega arith) (omega arith)
            (λ c lo hi. absurd (omega arith)),
      )
