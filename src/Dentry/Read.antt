-- ===== src/Dentry/Read.antt =====
-- The entries of a directory block, and the loop of `evfs_dentry_read` (evfs.c).
use linux_evfs.Base.{
  ℕ, zero, suc, ◌+◌, ◌-◌, ◌≤◌, ◌<◌, ◌≡◌, true, not, none, some, List, [], ◌∷◌, arith, ap, get_elem?,
  ltb, le→ltb, ◌==◌, if◌then◌else◌,
}
use linux_evfs.Base.Int.{pos}
use linux_evfs.Ioctl.{DeReadIn, DeReadOut}
use linux_evfs.Dentry.{
  Held, DirEntry, ReadKernel, is_dir, read_out, end_offset, dentry_loop, evfs_dentry_read,
}

module _ (k : ReadKernel) where
  -- The entries in use from an offset on, as the lengths of the records chain them.
  pub live : ℕ → ℕ → List DirEntry
  live zero offset = []
  live (suc n) offset =
      let e = k.entry_at offset in
      let rest = live n (offset + e.rec_len) in
      if not (ltb offset (end_offset k))
      then []
      else if e.rec_len == 0
      then []
      else if e.inode == 0
      then rest
      else e ∷ rest

  nth-skip :
      (e : DirEntry) (xs : List DirEntry) (target count : ℕ)
      → count < target
      → get_elem? (e ∷ xs) (target - count) ≡ get_elem? xs (target - (count + 1))
  nth-skip e xs target count h =
      let next : target - count ≡ suc (target - (count + 1)) = omega arith in rw next

  nth-here :
      (e : DirEntry) (xs : List DirEntry) (target count : ℕ)
      → count ≡ target
      → get_elem? (e ∷ xs) (target - count) ≡ some e
  nth-here e xs target count h = let here : target - count ≡ 0 = omega arith in rw here

  -- With fuel for one round more than there are bytes up to the end, the loop ends, and it finds the
  -- entry in use whose index is the target, or nothing if there are not that many.
  pub dentry_loop-nth :
      (target n offset count : ℕ)
      → end_offset k ≤ offset + n
      → count ≤ target
      → dentry_loop k target (suc n) offset count
        ≡ some (get_elem? (live (suc n) offset) (target - count))
  unfolding dentry_loop live
  dentry_loop-nth target zero offset count h c = rw (le→ltb offset (end_offset k) (omega arith))
  dentry_loop-nth target (suc n) offset count h c =
      let e = k.entry_at offset in
      ground (
        arith,
        dentry_loop-nth target n (offset + e.rec_len) count,
        dentry_loop-nth target n (offset + e.rec_len) (count + 1),
        nth-here e (live (suc n) (offset + e.rec_len)) target count,
        nth-skip e (live (suc n) (offset + e.rec_len)) target count,
      )

  held-undo :
      (h : Held)
      → record h {
        dir_refs = h.dir_refs + 1 - 1;
        shared_locks = h.shared_locks + 1 - 1;
        buffers = h.buffers + 1 - 1;
      }
        ≡ h
  held-undo h = grind arith

  -- For a directory whose first block can be read, fuel for one round more than the block has
  -- bytes is enough: the call returns 0 with the entry in use whose index was asked for, or with
  -- zeros if the block has fewer, and holds nothing that it did not hold before.
  pub evfs_dentry_read_lem :
      (n : ℕ) (a : DeReadIn) (out : DeReadOut) (h : Held)
      → k.iget_error a.dir_ino_num ≡ none
      → is_dir (k.i_mode a.dir_ino_num) ≡ true
      → k.ext4_bread a.dir_ino_num ≡ none
      → end_offset k ≤ n
      → evfs_dentry_read k (suc n) a out h
        ≡ some ((pos 0, read_out k out (get_elem? (live (suc n) 0) a.target_dentry_index)), h)
  unfolding evfs_dentry_read
  evfs_dentry_read_lem n a out h iget dir bread enough =
      let found =
        dentry_loop-nth a.target_dentry_index n 0 0 (omega (arith, enough)) (omega arith) in
      let same : a.target_dentry_index - 0 ≡ a.target_dentry_index = omega arith in
      rw (evfs_dentry_read, iget, dir, bread, found, same)
        (ap
          (λ (x : Held).
            some ((pos 0, read_out k out (get_elem? (live (suc n) 0) a.target_dentry_index)), x))
          (held-undo h))
