-- ===== src/Dentry/Update.antt =====
-- `evfs_dentry_update` of linux-6.8/fs/ext4/evfs.c.
pub mod Found
pub mod Outcome
use linux_evfs.Base.{
  ℕ, zero, suc, ◌+◌, ◌-◌, ◌%◌, ◌^◌, Bool, true, false, not, Option, none, some, List, ◌∷◌, ltb,
  ◌==◌, if◌then◌else◌,
}
use linux_evfs.Base.Int.{ℤ, pos, negsuc, is_neg, is_nonzero}
use linux_evfs.Base.Errno
use linux_evfs.Ext4.State.{sub_wrap}
use linux_evfs.Tracker.{EvfsBmTracker, Run, done, oops}
use linux_evfs.Track.{TrackEnv, evfs_inode_untrack_nolock}
use linux_evfs.Ioctl.{DeUpdateIn}
use linux_evfs.Dentry.{DirEntry, is_dir}

-- What the call holds: of the directory, of the new and of the old inode references and locks, and
-- handles and buffers.
pub record Held : Type 0 where
  pub dir_refs : ℕ
  pub dir_locks : ℕ
  pub new_refs : ℕ
  pub new_locks : ℕ
  pub old_refs : ℕ
  pub old_locks : ℕ
  pub handles : ℕ
  pub buffers : ℕ

-- The first block of the directory as the entry at each byte offset, the link count of each inode,
-- the inodes handed to the orphan list, and whether the directory got a new time.
pub record UpdateState (S : Type 0) : Type 0 where
  pub entry_at : ℕ → DirEntry
  pub i_nlink : ℕ → ℕ
  pub tracker : Option (EvfsBmTracker S)
  pub orphans : List ℕ
  pub touched : Bool
  pub held : Held

-- How the other calls end; `some e` is an error pointer, and for `ext4_bread` any error.
pub record UpdateKernel : Type 0 where
  pub iget_error : ℕ → Option ℕ
  pub i_mode : ℕ → ℕ
  pub s_blocksize : ℕ
  pub has_metadata_csum : Bool
  pub ext4_journal_start : Option ℕ
  pub ext4_bread : ℕ → Option ℤ
  pub ext4_journal_get_write_access : ℤ
  pub ext4_mark_inode_dirty : ℕ → ℤ
  pub ext4_handle_dirty_dirblock : ℤ
  pub ext4_journal_stop : ℤ

module _ {S : Type 0} (k : UpdateKernel) (v : TrackEnv S) where
  open k use {
    iget_error, i_mode, s_blocksize, has_metadata_csum, ext4_journal_start, ext4_bread,
    ext4_journal_get_write_access, ext4_mark_inode_dirty, ext4_handle_dirty_dirblock,
    ext4_journal_stop,
  }

  abbrev on_held : (Held → Held) → UpdateState S → UpdateState S
  on_held f s = record s { held = f s.held }

  -- `blocksize - trailing_checksum_size`
  unfoldable pub end_offset : ℕ
  end_offset = s_blocksize - (if has_metadata_csum then 12 else 0)

  -- The `while` loop on fuel: the offset of `curr_dentry` behind it, and the inode of the entry if it
  -- is the target. `none` means that the fuel ran out.
  pub update_loop : (ℕ → DirEntry) → ℕ → ℕ → ℕ → ℕ → Option (ℕ × Option ℕ)
  update_loop entry_at target zero offset count = none
  update_loop entry_at target (suc n) offset count =
      let e = entry_at offset in
      let skip = update_loop entry_at target n (offset + e.rec_len) count in
      let next = update_loop entry_at target n (offset + e.rec_len) (count + 1) in
      if not (ltb offset end_offset)
      then some (offset, none)
      else if e.rec_len == 0
      then some (offset, none)
      else if e.inode == 0
      then skip
      else if count == target
      then some (offset, some e.inode)
      else next

  -- `release_pino:`, with the value of `err`, which is what the function returns.
  release_pino : ℤ → UpdateState S → Run (ℤ × UpdateState S)
  release_pino err s =
      done
        (err, on_held (λ h. record h { dir_locks = h.dir_locks - 1; dir_refs = h.dir_refs - 1 }) s)

  -- `stop_journal:`. The flags are `ncino_iget_called` and `ocino_iget_called`.
  stop_journal : Bool → Bool → UpdateState S → Run (ℤ × UpdateState S)
  stop_journal new_called old_called s = release_pino ext4_journal_stop (
      on_held
        (λ h. record h {
          handles = h.handles - 1;
          new_refs = if new_called then h.new_refs - 1 else h.new_refs;
          old_refs = if old_called then h.old_refs - 1 else h.old_refs;
        })
        s)

  -- `release_bh:`
  release_bh : Bool → Bool → UpdateState S → Run (ℤ × UpdateState S)
  release_bh new_called old_called s =
      stop_journal new_called old_called (on_held (λ h. record h { buffers = h.buffers - 1 }) s)

  -- From the writing of the entry on. The tests of `ext4_handle_dirty_dirblock` and of
  -- `ext4_mark_inode_dirty` both lead to `release_bh`, as the end of the branch does.
  write_entry : DeUpdateIn → ℕ → UpdateState S → Run (ℤ × UpdateState S)
  write_entry a at s =
      let e = s.entry_at at in
      let s = record s {
        entry_at =
            λ o. if o == at then record e { inode = a.new_ino_num % 2 ^ 32 } else s.entry_at o;
      } in
      if is_nonzero ext4_handle_dirty_dirblock
      then release_bh true true s
      else release_bh true true (record s { touched = true })

  -- From the test of the old inode's link count on.
  untrack_old : DeUpdateIn → ℕ → ℕ → UpdateState S → Run (ℤ × UpdateState S)
  untrack_old a at old s =
      let unlock = on_held (λ h. record h { old_locks = h.old_locks - 1 }) in
      if s.i_nlink old == 0
      then elim (evfs_inode_untrack_nolock v s.tracker old) [
        | oops ↦ oops
        | done (err, t) ↦
            let s = record s { tracker = t } in
            if is_neg err
            then release_bh true true s
            else write_entry a at (unlock (record s { orphans = old ∷ s.orphans }))
      ]
      else write_entry a at (unlock s)

  -- From the old inode's `ext4_iget` on. Its `inode_lock` never returns if it is the directory, which
  -- is locked.
  drop_old : DeUpdateIn → ℕ → ℕ → UpdateState S → Run (ℤ × UpdateState S)
  drop_old a at old s = elim (iget_error old) [
    | some e ↦ release_bh true false s
    | none ↦
        let s =
          on_held (λ h. record h { old_refs = h.old_refs + 1; old_locks = h.old_locks + 1 })
            (record s {
              i_nlink = λ i. if i == old then sub_wrap 32 (s.i_nlink old) 1 else s.i_nlink i;
            }) in
        if a.dir_ino_num == old
        then oops
        else if is_neg (ext4_mark_inode_dirty old)
        then release_bh true true s
        else untrack_old a at old s
  ]

  -- The branch of `if (old_ino_num >= 0)`, which an unsigned number always takes. Here too
  -- `inode_lock` never returns if the new inode is the directory.
  link_new : DeUpdateIn → ℕ → ℕ → UpdateState S → Run (ℤ × UpdateState S)
  link_new a at old s =
      let new = a.new_ino_num in
      elim (iget_error new) [
        | some e ↦ release_bh false false s
        | none ↦
            let s =
              on_held (λ h. record h { new_refs = h.new_refs + 1; new_locks = h.new_locks + 1 })
                (record s {
                  i_nlink = λ i. if i == new then (s.i_nlink new + 1) % 2 ^ 32 else s.i_nlink i;
                }) in
            if a.dir_ino_num == new
            then oops
            else if is_neg (ext4_mark_inode_dirty new)
            then release_bh true false s
            else drop_old a at old (on_held (λ h. record h { new_locks = h.new_locks - 1 }) s)
      ]

  -- `unsigned long old_ino_num = -1`
  abbrev pub old_number : Option ℕ → ℕ
  old_number none = 2 ^ 64 - 1
  old_number (some ino) = ino

  -- From `ext4_bread` on.
  read_block : ℕ → DeUpdateIn → UpdateState S → Option (Run (ℤ × UpdateState S))
  read_block fuel a s = elim (ext4_bread a.dir_ino_num) [
    | some e ↦ some (stop_journal false false s)
    | none ↦
        let s = on_held (λ h. record h { buffers = h.buffers + 1 }) s in
        if is_nonzero ext4_journal_get_write_access
        then some (release_bh false false s)
        else elim (update_loop s.entry_at a.target_dentry_index fuel 0 0) [
          | none ↦ none
          | some (at, old) ↦ some (link_new a at (old_number old) s)
        ]
  ]

  -- `stack` is what the memory of `err` holds at the start.
  pub evfs_dentry_update : ℤ → ℕ → DeUpdateIn → UpdateState S → Option (Run (ℤ × UpdateState S))
  evfs_dentry_update stack fuel a s = elim (iget_error a.dir_ino_num) [
    | some e ↦ some (done (negsuc e, s))
    | none ↦
        let s =
          on_held (λ h. record h { dir_refs = h.dir_refs + 1; dir_locks = h.dir_locks + 1 }) s in
        if not (is_dir (i_mode a.dir_ino_num))
        then some (release_pino stack s)
        else elim ext4_journal_start [
          | some e ↦ some (release_pino stack s)
          | none ↦ read_block fuel a (on_held (λ h. record h { handles = h.handles + 1 }) s)
        ]
  ]
