-- ===== src/InodeFree.antt =====
-- `evfs_inode_free` of linux-6.8/fs/ext4/evfs.c.
pub mod Result
use linux_evfs.Base.{ℕ, ◌+◌, ◌-◌, Bool, Option, none, some, List, ◌∷◌, ltb, if◌then◌else◌}
use linux_evfs.Base.Int.{ℤ, pos, negsuc, is_neg}
use linux_evfs.Base.Errno
use linux_evfs.Ext4.State.{sub_wrap}
use linux_evfs.Tracker.{EvfsBmTracker, Run, done, oops}
use linux_evfs.Track.{TrackEnv, evfs_inode_untrack}

-- The references, locks and handles that the call holds.
pub record Held : Type 0 where
  pub inode_refs : ℕ
  pub inode_locks : ℕ
  pub handles : ℕ

-- The inode that `ext4_iget` finds, with the tracker. `marked` counts the calls of
-- `ext4_mark_inode_dirty`, and `orphans` lists the inodes handed to `ext4_orphan_add`, the latest
-- first.
pub record FreeState (S : Type 0) : Type 0 where
  pub tracker : Option (EvfsBmTracker S)
  pub i_nlink : ℕ
  pub marked : ℕ
  pub orphans : List ℕ
  pub held : Held

-- How the other calls end; `some e` is an error pointer.
pub record FreeKernel : Type 0 where
  pub ext4_iget : ℕ → Option ℕ
  pub ext4_journal_start : Option ℕ
  pub ext4_journal_stop : ℤ

-- `__evfs_inode_dec_nlink`, whose result the caller drops.
pub evfs_inode_dec_nlink : {S : Type 0} → FreeState S → FreeState S
evfs_inode_dec_nlink s = record s { i_nlink = sub_wrap 32 s.i_nlink 1; marked = s.marked + 1 }

module _ {S : Type 0} (k : FreeKernel) (v : TrackEnv S) where
  open k use {ext4_iget, ext4_journal_start, ext4_journal_stop}

  abbrev on_held : (Held → Held) → FreeState S → FreeState S
  on_held f s = record s { held = f s.held }

  -- `release_inode:`
  pub release_inode : ℤ → FreeState S → Run (ℤ × FreeState S)
  release_inode ret s = done (
    ret,
    on_held (λ h. record h { inode_locks = h.inode_locks - 1; inode_refs = h.inode_refs - 1 }) s,
  )

  -- `stop_journal:`
  pub stop_journal : ℤ → FreeState S → Run (ℤ × FreeState S)
  stop_journal ret s =
      release_inode (if is_neg ext4_journal_stop then ext4_journal_stop else ret)
        (on_held (λ h. record h { handles = h.handles - 1 }) s)

  -- From the test of `i_nlink` on.
  pub untrack_inode : ℕ → FreeState S → Run (ℤ × FreeState S)
  untrack_inode iindex s =
      if ltb 1 s.i_nlink
      then stop_journal Errno.ebusy s
      else elim (evfs_inode_untrack v s.tracker iindex) [
        | oops ↦ oops
        | done (err, tracker) ↦
            let s = record s { tracker = tracker } in
            if is_neg err
            then stop_journal err s
            else (let s = evfs_inode_dec_nlink s in
                stop_journal (pos 0) (record s { orphans = iindex ∷ s.orphans }))
      ]

  pub evfs_inode_free : ℕ → FreeState S → Run (ℤ × FreeState S)
  evfs_inode_free iindex s = elim (ext4_iget iindex) [
    | some e ↦ done (negsuc e, s)
    | none ↦
        let s =
          on_held (λ h. record h { inode_refs = h.inode_refs + 1; inode_locks = h.inode_locks + 1 })
            s in
        elim ext4_journal_start [
          | some e ↦ release_inode (negsuc e) s
          | none ↦ untrack_inode iindex (on_held (λ h. record h { handles = h.handles + 1 }) s)
        ]
  ]
