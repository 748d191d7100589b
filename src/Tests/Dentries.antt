-- ===== src/Tests/Dentries.antt =====
-- Witnesses of the theorems on inodes that are freed or read, on directory entries, and on the dispatch.
use linux_evfs.Base.{
  ℕ, ◌+◌, ◌/◌, ◌≡◌, ◌⊎◌, inr, refl, true, false, none, some, List, [], ◌∷◌, arith, get_elem?,
  replicate, ◌==◌, if◌then◌else◌,
}
use linux_evfs.Base.Int.{pos}
use linux_evfs.Base.Errno
use linux_evfs.Ext4.State.{sub_wrap}
use linux_evfs.Tracker.{EvfsBmTracker, done, bits_per_bm}
use linux_evfs.Tracker.Valid.{tracked}
use linux_evfs.Tracker.Ready.{settled}
use linux_evfs.Track.{IsUpdated}
use linux_evfs.InodeFree.{FreeState, FreeKernel, evfs_inode_free}
use linux_evfs.InodeFree.Result.{evfs_inode_free_lem}
use linux_evfs.InodeRead.{EvfsStat, InodeAttr}
use linux_evfs.Ioctl.{DeReadOut, DeDeleteIn, Request, ext_mv, Operations, UserIo, Memory}
use linux_evfs.Dentry.{
  Held, AddKernel, DirEntry, ReadKernel, is_dir, end_offset, read_out, evfs_dentry_read,
}
use linux_evfs.Dentry.Read.{live, evfs_dentry_read_lem}
use linux_evfs.Dentry.Delete.{
  find_child, release_pde, release_pino, DeleteKernel, DeleteState, evfs_dentry_delete,
  evfs_dentry_delete-dir_locks,
}
use linux_evfs.Samples.{rwsem, alone, alone-Keeps, tracker, tracker-IsValid, track_env}

abbrev free_kernel : FreeKernel
free_kernel = record { ext4_iget = λ n. none; ext4_journal_start = none; ext4_journal_stop = pos 0 }

abbrev free_state : FreeState ℕ
free_state = record {
  tracker = some tracker;
  i_nlink = 1;
  marked = 0;
  orphans = [];
  held = record { inode_refs = 0; inode_locks = 0; handles = 0 };
}

abbrev base : EvfsBmTracker ℕ
base = settled rwsem alone tracker (12 / bits_per_bm)

evfs_inode_free_lem_example :
    (s' : FreeState ℕ) × (t' : EvfsBmTracker ℕ) × (evfs_inode_free free_kernel track_env 12
        free_state
      ≡ done (if tracked base 12 then pos 0 else Errno.enoent, s'))
    × (s'.tracker ≡ some t')
    × IsUpdated track_env false 12 base t'
    × (s'.i_nlink ≡ (if tracked base 12 then sub_wrap 32 1 1 else 1))
    × (s'.orphans ≡ (if tracked base 12 then 12 ∷ [] else []))
evfs_inode_free_lem_example =
    evfs_inode_free_lem free_kernel track_env 12 free_state
      (record { iget = refl; start = refl; stop = refl }) tracker refl alone-Keeps refl
      tracker-IsValid (omega arith) (omega arith)

abbrev stat : EvfsStat
stat = record {
  est_dev = 0;
  est_ino = 0;
  est_mode = 0;
  est_nlink = 0;
  est_uid = 0;
  est_gid = 0;
  est_rdev = 77;
  est_version = 0;
  est_size = pos 0;
  est_blksize = 0;
  pad1 = 0;
  est_blocks = 0;
  est_atime = pos 0;
  est_atime_nsec = 0;
  est_mtime = pos 0;
  est_mtime_nsec = 0;
  est_ctime = pos 0;
  est_ctime_nsec = 0;
  unused4 = 0;
  unused5 = 0;
}

abbrev regular : InodeAttr
regular = record {
  s_dev = 1;
  i_ino = 12;
  i_mode = 0o100644;
  i_nlink = 1;
  i_uid = 0;
  i_gid = 0;
  i_rdev = 0;
  i_version = 5;
  i_size = pos 0;
  i_blocksize = 4096;
  i_blocks = 0;
  i_atime = pos 9;
  i_atime_nsec = 0;
  i_mtime = pos 9;
  i_mtime_nsec = 0;
  i_ctime = pos 9;
  i_ctime_nsec = 0;
}

abbrev find_regular : ℕ → ℕ ⊎ InodeAttr
find_regular n = inr regular

abbrev nothing_held : Held
nothing_held = record {
  dir_refs = 0;
  dir_locks = 0;
  child_refs = 0;
  child_locks = 0;
  parent_dentries = 0;
  child_dentries = 0;
  shared_locks = 0;
  buffers = 0;
}

abbrev name : List ℕ
name = 97 ∷ replicate 254 0

abbrev add_kernel : AddKernel (List ℕ)
add_kernel = record {
  iget_error = λ n. none;
  i_mode = λ n. 0o40755;
  d_find_any_alias = λ n. true;
  d_alloc = λ s. true;
  dquot_initialize = pos 0;
  ext4_link = λ dir child s x. (pos 0, child ∷ x);
}

-- Records of twelve bytes, of which every second is deleted.
abbrev entry_at : ℕ → DirEntry
entry_at n = record {
  inode = if n == 12 then 0 else n + 2;
  rec_len = 12;
  name_len = 1;
  file_type = 1;
  name = 97 ∷ [];
}

abbrev read_kernel : ReadKernel
read_kernel = record {
  iget_error = λ n. none;
  i_mode = λ n. 0o40755;
  ext4_bread = λ n. none;
  s_blocksize = 48;
  has_metadata_csum = true;
  entry_at = entry_at;
}

abbrev empty_out : DeReadOut
empty_out = record { ino_num = 0; file_type = 0; name_len = 0; name = replicate 255 0 }

evfs_dentry_read_lem_example :
    evfs_dentry_read read_kernel 37
      (record { dir_ino_num = 2; target_dentry_index = 1 })
      empty_out
      nothing_held
    ≡ some (
      (pos 0, read_out read_kernel empty_out (get_elem? (live read_kernel 37 0) 1)),
      nothing_held,
    )
unfolding is_dir end_offset
evfs_dentry_read_lem_example =
    evfs_dentry_read_lem read_kernel 36 (record { dir_ino_num = 2; target_dentry_index = 1 })
      empty_out nothing_held refl refl refl (omega arith)

abbrev delete_kernel : DeleteKernel (List ℕ)
delete_kernel = record {
  iget_error = λ n. if n == 12 then some 1 else none;
  i_mode = λ n. 0o40755;
  d_find_any_alias = λ n. true;
  ext4_find_entry = λ dir s. inr 12;
  d_alloc = λ s. true;
  quota_dir = pos 0;
  quota_child = pos 0;
  ext4_unlink = λ dir s child x. (pos 0, []);
}

abbrev delete_args : DeDeleteIn
delete_args = record { dir_ino_num = 2; name = name }

abbrev delete_state : Held → DeleteState ℕ (List ℕ)
delete_state h = record { fs = 12 ∷ []; tracker = some tracker; held = h }

deleted :
    evfs_dentry_delete delete_kernel track_env delete_args (delete_state nothing_held)
    ≡ done (Errno.enoent, delete_state (record nothing_held { dir_locks = 1 }))
unfolding evfs_dentry_delete find_child release_pde release_pino is_dir
deleted = refl

evfs_dentry_delete-dir_locks_example :
    (delete_state (record nothing_held { dir_locks = 1 })).held
    ≡ record nothing_held { dir_locks = 1 }
unfolding is_dir
evfs_dentry_delete-dir_locks_example =
    evfs_dentry_delete-dir_locks delete_kernel track_env delete_args (delete_state nothing_held)
      (delete_state (record nothing_held { dir_locks = 1 })) Errno.enoent refl refl refl deleted

-- A file system that counts the operations that ran.
abbrev operations : Operations ℕ
operations = record {
  hello = λ x. (pos 0, x + 1);
  iver = λ x. (pos 0, 5);
  block_alloc = λ n x. (pos 0, x + 1);
  block_free = λ n x. (pos 0, x + 1);
  inode_alloc = λ n x. (pos 0, x + 1);
  inode_free = λ n x. (pos 0, x + 1);
  inode_read = λ n out x. ((pos 0, out), x + 1);
  dentry_add = λ a x. (pos 0, x + 1);
  dentry_read = λ a out x. ((pos 0, out), x + 1);
  dentry_delete = λ a x. (pos 0, x + 1);
  dentry_update = λ a x. (pos 0, x + 1);
  extent_read = λ a n exts x. ((pos 0, n, exts), x + 1);
  extent_move = λ a n exts x. ((pos 0, n, exts), x + 1);
}

abbrev memory : Memory
memory = record { stat = stat; dentry = empty_out; num_exts = 0; array = λ n. []; allocated = 3 }

abbrev no_copy_out : UserIo
no_copy_out = record {
  copy_in = true;
  copy_ptr = true;
  kmalloc = true;
  copy_out = false;
  copy_array = true;
}

abbrev move : Request
move = ext_mv (record {
  ino_num = 12;
  exp_iver = 5;
  ext = record { log_start = 10; phy_start = 500; len = 10 };
})
