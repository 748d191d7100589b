-- ===== src/Block/Balance.antt =====
-- What the block functions of evfs.c hold and give back.
use linux_evfs.Base.{ℕ, ◌-◌, ◌≡◌, arith}
use linux_evfs.Base.Int.{ℤ}
use linux_evfs.Ext4.State.{SbInfo, Held, Fs}
use linux_evfs.Ext4.Kernel.{LeBitops, BlockKernel}
use linux_evfs.Block.{
  out, stop_journal, dirty_metadata, alloc_super, alloc_locked, open_group, evfs_block_alloc,
  free_super, free_locked, evfs_block_free,
}

-- One buffer and one handle fewer.
abbrev closed : Held → Held
closed h = record h { buffers = h.buffers - 1; handles = h.handles - 1 }

module _ (b : LeBitops) (k : BlockKernel) (sbi : SbInfo) where
  stop_journal-held : (ret : ℤ) (fs : Fs) → (stop_journal b k sbi ret fs).1.held ≡ closed fs.held
  unfolding stop_journal out
  stop_journal-held ret fs = ground arith

  dirty_metadata-held : (g : ℕ) (fs : Fs) → (dirty_metadata b k sbi g fs).1.held ≡ closed fs.held
  unfolding dirty_metadata
  dirty_metadata-held g fs = grind (arith, stop_journal-held)

  alloc_locked-held :
      (g offset : ℕ) (fs : Fs) → (alloc_locked b k sbi g offset fs).1.held ≡ closed fs.held
  unfolding alloc_locked alloc_super
  alloc_locked-held g offset fs = grind (arith, stop_journal-held, dirty_metadata-held)

  free_locked-held :
      (g offset : ℕ) (fs : Fs) → (free_locked b k sbi g offset fs).1.held ≡ closed fs.held
  unfolding free_locked free_super
  free_locked-held g offset fs = grind (arith, stop_journal-held, dirty_metadata-held)

  open_group-held :
      (locked : ℕ → ℕ → Fs → ℤ × Fs) (bindex : ℕ) (fs : Fs)
      → ((g offset : ℕ) (fs : Fs) → (locked g offset fs).1.held ≡ closed fs.held)
      → (open_group b k sbi locked bindex fs).1.held ≡ fs.held
  unfolding open_group out
  open_group-held locked bindex fs h = grind (arith, stop_journal-held)

  -- However the calls into the kernel end, an allocation and a release of a block leave every
  -- count of held buffers, handles, group locks and buffer locks as it was before the call.
  pub evfs_block-held :
      (bindex : ℕ) (fs : Fs)
      → ((evfs_block_alloc b k sbi bindex fs).1.held ≡ fs.held)
        × ((evfs_block_free b k sbi bindex fs).1.held ≡ fs.held)
  unfolding evfs_block_alloc evfs_block_free
  evfs_block-held bindex fs = (
    open_group-held (alloc_locked b k sbi) bindex fs alloc_locked-held,
    open_group-held (free_locked b k sbi) bindex fs free_locked-held,
  )
