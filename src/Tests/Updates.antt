-- ===== src/Tests/Updates.antt =====
-- Witnesses of the theorems on directory entries that are changed.
use linux_evfs.Base.{ℕ, ◌≡◌, refl, false, none, some, [], ◌∷◌, arith, ◌==◌, if◌then◌else◌}
use linux_evfs.Base.Int.{pos}
use linux_evfs.Tracker.{EvfsBmTracker, done}
use linux_evfs.Track.{evfs_inode_untrack_nolock, evfs_inode_untrack_nolock_lem}
use linux_evfs.Ioctl.{DeUpdateIn}
use linux_evfs.Dentry.{DirEntry, is_dir}
use linux_evfs.Dentry.Update.{UpdateState, UpdateKernel, end_offset, evfs_dentry_update}
use linux_evfs.Dentry.Update.Found.{slots}
use linux_evfs.Dentry.Update.Outcome.{Opens, raised, evfs_dentry_update-absent}
use linux_evfs.Samples.{alone-Keeps, tracker, tracker-IsValid, track_env}

-- A directory block of two entries, for the inodes 12 and 13. Only the inodes up to 20 exist.
abbrev kernel : UpdateKernel
kernel = record {
  iget_error = λ n. if n == 0xffff_ffff_ffff_ffff then some 1 else none;
  i_mode = λ n. 0o040755;
  s_blocksize = 24;
  has_metadata_csum = false;
  ext4_journal_start = none;
  ext4_bread = λ n. none;
  ext4_journal_get_write_access = pos 0;
  ext4_mark_inode_dirty = λ n. pos 0;
  ext4_handle_dirty_dirblock = pos 0;
  ext4_journal_stop = pos 0;
}

abbrev entry : ℕ → DirEntry
entry o = record {
  inode = if o == 0 then 12 else 13;
  rec_len = 12;
  name_len = 1;
  file_type = 1;
  name = 97 ∷ [];
}

abbrev state : UpdateState ℕ
state = record {
  entry_at = entry;
  i_nlink = λ n. 1;
  tracker = some tracker;
  orphans = [];
  touched = false;
  held = record {
    dir_refs = 0;
    dir_locks = 0;
    new_refs = 0;
    new_locks = 0;
    old_refs = 0;
    old_locks = 0;
    handles = 0;
    buffers = 0;
  };
}

abbrev update_of : ℕ → DeUpdateIn
update_of n = record { dir_ino_num = 2; target_dentry_index = n; new_ino_num = 14 }

opens : (n : ℕ) → Opens kernel track_env (update_of n)
unfolding is_dir
opens n = record {
  iget = refl;
  dir = refl;
  start = refl;
  read = refl;
  access = refl;
  new_iget = refl;
  new_other = λ e. absurd (omega (arith, e));
  new_dirty = refl;
}

evfs_dentry_update-absent_example :
    evfs_dentry_update kernel track_env (pos 0) 25 (update_of 2) state
    ≡ some (done (pos 0, record state { i_nlink = raised kernel track_env (update_of 2) state }))
unfolding slots end_offset
evfs_dentry_update-absent_example =
    evfs_dentry_update-absent kernel track_env (pos 0) 24 (update_of 2) state 1 (opens 2)
      (omega arith) refl refl

-- The inode 12 has no other link, so that its number is untracked.
untracked :
    (t : EvfsBmTracker ℕ) × (evfs_inode_untrack_nolock track_env (some tracker) 12
      ≡ done (pos 0, some t))
untracked =
    let r =
      evfs_inode_untrack_nolock_lem track_env alone-Keeps refl tracker 12 tracker-IsValid
        (omega arith) in
    (r.0, r.1)
