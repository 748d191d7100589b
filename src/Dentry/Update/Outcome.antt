-- ===== src/Dentry/Update/Outcome.antt =====
-- What a call of `evfs_dentry_update` (evfs.c) returns, and what it leaves.
use linux_evfs.Base.{
  ℕ, suc, ◌+◌, ◌-◌, ◌%◌, ◌^◌, ◌≤◌, ◌≡◌, ◌≢◌, refl, ap, ◌∙◌, true, false, Option, none, some, arith,
  get_elem?, ne→==, ◌==◌, if◌then◌else◌,
}
use linux_evfs.Base.Int.{ℤ, is_neg, is_nonzero}
use linux_evfs.Tracker.{Run, done, oops}
use linux_evfs.Track.{TrackEnv}
use linux_evfs.Ioctl.{DeUpdateIn}
use linux_evfs.Dentry.{is_dir}
use linux_evfs.Dentry.Update.{
  Held, UpdateState, UpdateKernel, end_offset, update_loop, release_pino, stop_journal, release_bh,
  write_entry, untrack_old, drop_old, link_new, old_number, read_block, evfs_dentry_update,
}
use linux_evfs.Dentry.Update.Found.{slots, last_offset, place, update_loop-place}

module _ {S : Type 0} (k : UpdateKernel) (v : TrackEnv S) where
  abbrev ret_of : ℤ → Run (ℤ × UpdateState S) → ℤ
  ret_of d oops = d
  ret_of d (done (ret, s)) = ret

  abbrev ret_of? : ℤ → Option (Run (ℤ × UpdateState S)) → ℤ
  ret_of? d none = d
  ret_of? d (some r) = ret_of d r

  link_new-ret :
      (d : ℤ) (a : DeUpdateIn) (at old : ℕ) (s : UpdateState S)
      → d ≡ k.ext4_journal_stop
      → ret_of d (link_new k v a at old s) ≡ d
  unfolding link_new drop_old untrack_old write_entry release_bh stop_journal release_pino
  link_new-ret d a at old s h = grind arith

  read_block-ret :
      (d : ℤ) (fuel : ℕ) (a : DeUpdateIn) (s : UpdateState S)
      → d ≡ k.ext4_journal_stop
      → ret_of? d (read_block k v fuel a s) ≡ d
  unfolding read_block release_bh stop_journal release_pino
  read_block-ret d fuel a s h = grind (arith, link_new-ret)

  -- Once the journal is started, what `evfs_dentry_update` returns is the result of
  -- `ext4_journal_stop`, whichever call fails in between.
  pub evfs_dentry_update-ret :
      (stack : ℤ) (fuel : ℕ) (a : DeUpdateIn) (s s' : UpdateState S) (ret : ℤ)
      → k.iget_error a.dir_ino_num ≡ none
      → is_dir (k.i_mode a.dir_ino_num) ≡ true
      → k.ext4_journal_start ≡ none
      → evfs_dentry_update k v stack fuel a s ≡ some (done (ret, s'))
      → ret ≡ k.ext4_journal_stop
  unfolding evfs_dentry_update
  evfs_dentry_update-ret stack fuel a s s' ret iget dir start eq = ground (
    arith,
    eq,
    read_block-ret k.ext4_journal_stop fuel a
        (record s {
          held = record (s.held) {
            dir_refs = s.held.dir_refs + 1;
            dir_locks = s.held.dir_locks + 1;
            handles = s.held.handles + 1;
          };
        })
        refl,
  )

  -- The calls up to the loop succeed, and the new inode, which is not the directory, can be linked.
  pub record Opens (a : DeUpdateIn) : Type 0 where
    pub iget : k.iget_error a.dir_ino_num ≡ none
    pub dir : is_dir (k.i_mode a.dir_ino_num) ≡ true
    pub start : k.ext4_journal_start ≡ none
    pub read : k.ext4_bread a.dir_ino_num ≡ none
    pub access : is_nonzero k.ext4_journal_get_write_access ≡ false
    pub new_iget : k.iget_error a.new_ino_num ≡ none
    pub new_other : a.dir_ino_num ≢ a.new_ino_num
    pub new_dirty : is_neg (k.ext4_mark_inode_dirty a.new_ino_num) ≡ false

  abbrev opened : UpdateState S → UpdateState S
  opened s = record s {
    held = record (s.held) {
      dir_refs = s.held.dir_refs + 1;
      dir_locks = s.held.dir_locks + 1;
      handles = s.held.handles + 1;
      buffers = s.held.buffers + 1;
    };
  }

  evfs_dentry_update-opened :
      (stack : ℤ) (n : ℕ) (a : DeUpdateIn) (s : UpdateState S) (at : ℕ) (old : Option ℕ)
      → Opens a
      → update_loop k v s.entry_at a.target_dentry_index (suc n) 0 0 ≡ some (at, old)
      → evfs_dentry_update k v stack (suc n) a s
        ≡ some (link_new k v a at (old_number k v old) (opened s))
  unfolding evfs_dentry_update read_block
  evfs_dentry_update-opened stack n a s at old o eq =
      ground (arith, o.iget, o.dir, o.start, o.read, o.access, eq)

  update_loop-slot :
      (n : ℕ) (a : DeUpdateIn) (s : UpdateState S) (slot : Option ℕ)
      → end_offset k v ≤ n
      → get_elem? (slots k v s.entry_at (suc n) 0) a.target_dentry_index ≡ slot
      → update_loop k v s.entry_at a.target_dentry_index (suc n) 0 0
        ≡ some (place k v s.entry_at slot (last_offset k v s.entry_at (suc n) 0))
  update_loop-slot n a s slot enough eq =
      let same : a.target_dentry_index - 0 ≡ a.target_dentry_index = omega arith in
      update_loop-place k v s.entry_at a.target_dentry_index n 0 0 (omega (arith, enough))
        (omega arith)
      ∙ rw (same, eq)

  abbrev pub raised : DeUpdateIn → UpdateState S → ℕ → ℕ
  raised a s i = if i == a.new_ino_num then (s.i_nlink a.new_ino_num + 1) % 2 ^ 32 else s.i_nlink i

  held-undo :
      (h : Held)
      → record h {
        dir_refs = h.dir_refs + 1 - 1;
        dir_locks = h.dir_locks + 1 - 1;
        new_refs = h.new_refs + 1 - 1;
        new_locks = h.new_locks + 1 - 1;
        handles = h.handles + 1 - 1;
        buffers = h.buffers + 1 - 1;
      }
        ≡ h
  held-undo h = grind arith

  link_new-absent :
      (a : DeUpdateIn) (at e : ℕ) (s : UpdateState S)
      → Opens a
      → k.iget_error (2 ^ 64 - 1) ≡ some e
      → link_new k v a at (2 ^ 64 - 1) (opened s)
        ≡ done (k.ext4_journal_stop, record s { i_nlink = raised a s })
  unfolding link_new drop_old release_bh stop_journal release_pino
  link_new-absent a at e s o missing = ground (
    arith,
    o.new_iget,
    o.new_dirty,
    ne→== a.dir_ino_num a.new_ino_num o.new_other,
    missing,
    held-undo s.held,
  )

  -- If the directory block has no entry in use of the index that was asked for, and no inode has the
  -- number `2 ^ 64 - 1`, the new inode gets a link all the same: its count goes up modulo 2 ^ 32, no
  -- entry of the block and nothing else of the state changes, and the call returns what
  -- `ext4_journal_stop` returns. The directory is one, it can be read and opened for writing, the
  -- journal starts, the new inode exists, is not the directory and can be marked as changed, and
  -- there is fuel for every byte of the block.
  pub evfs_dentry_update-absent :
      (stack : ℤ) (n : ℕ) (a : DeUpdateIn) (s : UpdateState S) (e : ℕ)
      → Opens a
      → end_offset k v ≤ n
      → get_elem? (slots k v s.entry_at (suc n) 0) a.target_dentry_index ≡ none
      → k.iget_error (2 ^ 64 - 1) ≡ some e
      → evfs_dentry_update k v stack (suc n) a s
        ≡ some (done (k.ext4_journal_stop, record s { i_nlink = raised a s }))
  evfs_dentry_update-absent stack n a s e o enough none_there missing =
      evfs_dentry_update-opened stack n a s _ none o (update_loop-slot n a s none enough none_there)
      ∙ ap some (link_new-absent a _ e s o missing)
