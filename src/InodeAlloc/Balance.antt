-- ===== src/InodeAlloc/Balance.antt =====
-- What `evfs_inode_alloc` (evfs.c) holds and gives back.
use linux_evfs.Base.{true, ℕ, ◌-◌, ◌≡◌, refl, sym, ap, ◌∙◌, arith}
use linux_evfs.Base.Int.{ℤ}
use linux_evfs.Ext4.State.{SbInfo, Held}
use linux_evfs.Ext4.Kernel.{LeBitops}
use linux_evfs.Tracker.{Run, done, oops}
use linux_evfs.Track.{TrackEnv}
use linux_evfs.InodeAlloc.{
  Inode, AllocState, InodeKernel, out, fail_init, stop_journal, fail_drop, fail_free_drop,
  dirty_metadata, count_inode, insert_inode, track_inode, take_bit, open_buffers, create_inode,
  evfs_inode_alloc,
}

-- What a call holds: buffers, handles and locks, references to the new inode, and `I_NEW` locks.
abbrev holds : {S : Type 0} → AllocState S → Held × ℕ × ℕ
holds s = (s.fs.held, s.inode_refs, s.inode_locks)

-- What is left after a call, with `d` when it faulted.
abbrev rest : {S : Type 0} → Held × ℕ × ℕ → Run (ℤ × AllocState S) → Held × ℕ × ℕ
rest d oops = d
rest d (done (r, s)) = holds s

-- Two buffers fewer, the inode given up, and the handle closed.
abbrev closed : Held × ℕ × ℕ → Held × ℕ × ℕ
closed (h, refs, locks) =
    (record h { buffers = h.buffers - 1 - 1; handles = h.handles - 1 }, refs - 1, locks)

abbrev unlocked : Held × ℕ × ℕ → Held × ℕ × ℕ
unlocked (h, refs, locks) = (h, refs, locks - 1)

module _ {S : Type 0} (b : LeBitops) (k : InodeKernel) (v : TrackEnv S) (sbi : SbInfo)
    (d : Held × ℕ × ℕ) where
  stop_journal-holds :
      (ret : ℤ) (s : AllocState S) → rest d (stop_journal b k v sbi ret s) ≡ closed (holds s)
  unfolding stop_journal fail_init out
  stop_journal-holds ret s = ground arith

  fail_drop-holds :
      (ret : ℤ) (s : AllocState S)
      → rest d (fail_drop b k v sbi ret s) ≡ closed (unlocked (holds s))
  unfolding fail_drop
  fail_drop-holds ret s =
      stop_journal-holds ret (record s { is_cleared = true; inode_locks = s.inode_locks - 1 })

  fail_free_drop-holds :
      (ret : ℤ) (s : AllocState S)
      → rest d (fail_free_drop b k v sbi ret s) ≡ closed (unlocked (holds s))
  unfolding fail_free_drop
  fail_free_drop-holds ret s = fail_drop-holds ret (record s { quota = s.quota - 1 })

  dirty_metadata-holds :
      (g : ℕ) (s : AllocState S)
      → rest d (dirty_metadata b k v sbi g s) ≡ closed (unlocked (holds s))
  unfolding dirty_metadata
  dirty_metadata-holds g s = grind (arith, stop_journal-holds, fail_free_drop-holds)

  insert_inode-holds :
      (g offset : ℕ) (ino : Inode) (s : AllocState S)
      → rest d (insert_inode b k v sbi g offset ino s) ≡ closed (holds s)
  unfolding insert_inode count_inode
  insert_inode-holds g offset ino s =
      grind (arith, stop_journal-holds, fail_drop-holds, fail_free_drop-holds, dirty_metadata-holds)

  track_inode-holds :
      (iindex g offset : ℕ) (ino : Inode) (s : AllocState S)
      → d ≡ closed (holds s)
      → rest d (track_inode b k v sbi iindex g offset ino s) ≡ closed (holds s)
  unfolding track_inode
  track_inode-holds iindex g offset ino s h = grind (arith, stop_journal-holds, insert_inode-holds)

  take_bit-holds :
      (iindex g offset : ℕ) (ino : Inode) (s : AllocState S)
      → d ≡ closed (holds s)
      → rest d (take_bit b k v sbi iindex g offset ino s) ≡ closed (holds s)
  unfolding take_bit
  take_bit-holds iindex g offset ino s h = grind (arith, stop_journal-holds, track_inode-holds)

  open_buffers-holds :
      (iindex g offset : ℕ) (ino : Inode) (s : AllocState S)
      → d ≡ closed (holds s)
      → rest d (open_buffers b k v sbi iindex g offset ino s) ≡ closed (holds s)
  unfolding open_buffers
  open_buffers-holds iindex g offset ino s h = grind (arith, stop_journal-holds, take_bit-holds)

  create_inode-holds :
      (iindex g offset : ℕ) (s : AllocState S)
      → d
        ≡ (record (s.fs.held) { buffers = s.fs.held.buffers - 1 - 1 }, s.inode_refs, s.inode_locks)
      → rest d (create_inode b k v sbi iindex g offset s) ≡ d
  unfolding create_inode fail_init out
  create_inode-holds iindex g offset s h = grind (arith, open_buffers-holds)

  evfs_inode_alloc-holds :
      (iindex : ℕ) (s : AllocState S)
      → d ≡ holds s
      → rest d (evfs_inode_alloc b k v sbi iindex s) ≡ d
  unfolding evfs_inode_alloc out
  evfs_inode_alloc-holds iindex s h = grind (arith, create_inode-holds)

module _ {S : Type 0} (b : LeBitops) (k : InodeKernel) (v : TrackEnv S) (sbi : SbInfo) where
  holds_same :
      (iindex : ℕ) (s s' : AllocState S) (ret : ℤ)
      → evfs_inode_alloc b k v sbi iindex s ≡ done (ret, s')
      → holds s' ≡ holds s
  holds_same iindex s s' ret eq =
      ap (rest (holds s)) (sym eq) ∙ evfs_inode_alloc-holds b k v sbi (holds s) iindex s refl

  -- A call of `evfs_inode_alloc` that ends, with whatever value, leaves the counts of buffers,
  -- handles and locks, of references to the new inode and of its `I_NEW` locks as they were.
  pub evfs_inode_alloc-held :
      (iindex : ℕ) (s s' : AllocState S) (ret : ℤ)
      → evfs_inode_alloc b k v sbi iindex s ≡ done (ret, s')
      → (s'.fs.held ≡ s.fs.held) × (s'.inode_refs ≡ s.inode_refs) × (s'.inode_locks ≡ s.inode_locks)
  evfs_inode_alloc-held iindex s s' ret eq = (
    ap (λ x. x.0) (holds_same iindex s s' ret eq),
    ap (λ x. x.1) (holds_same iindex s s' ret eq),
    ap (λ x. x.2) (holds_same iindex s s' ret eq),
  )
