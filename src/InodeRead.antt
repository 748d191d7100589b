-- ===== src/InodeRead.antt =====
-- `evfs_inode_read` of linux-6.8/fs/ext4/evfs.c, and `struct evfs_ino_read_out` of
-- include/uapi/linux/evfs.h.
use linux_evfs.Base.{
  ℕ, ◌+◌, ◌-◌, ◌/◌, ◌%◌, ◌≡◌, ◌⊎◌, refl, inl, inr, Bool, false, ◌||◌, arith, ◌==◌, if◌then◌else◌,
}
use linux_evfs.Base.Int.{ℤ, pos, negsuc}

pub record EvfsStat : Type 0 where
  pub est_dev : ℕ
  pub est_ino : ℕ
  pub est_mode : ℕ
  pub est_nlink : ℕ
  pub est_uid : ℕ
  pub est_gid : ℕ
  pub est_rdev : ℕ
  pub est_version : ℕ
  pub est_size : ℤ
  pub est_blksize : ℕ
  pub pad1 : ℕ
  pub est_blocks : ℕ
  pub est_atime : ℤ
  pub est_atime_nsec : ℕ
  pub est_mtime : ℤ
  pub est_mtime_nsec : ℕ
  pub est_ctime : ℤ
  pub est_ctime_nsec : ℕ
  pub unused4 : ℕ
  pub unused5 : ℕ

-- The fields of `struct inode` that the function reads.
pub record InodeAttr : Type 0 where
  pub s_dev : ℕ
  pub i_ino : ℕ
  pub i_mode : ℕ
  pub i_nlink : ℕ
  pub i_uid : ℕ
  pub i_gid : ℕ
  pub i_rdev : ℕ
  pub i_version : ℕ
  pub i_size : ℤ
  pub i_blocksize : ℕ
  pub i_blocks : ℕ
  pub i_atime : ℤ
  pub i_atime_nsec : ℕ
  pub i_mtime : ℤ
  pub i_mtime_nsec : ℕ
  pub i_ctime : ℤ
  pub i_ctime_nsec : ℕ

-- The references and shared locks that the call holds.
pub record Held : Type 0 where
  pub inode_refs : ℕ
  pub shared_locks : ℕ

-- `S_ISBLK(mode) || S_ISCHR(mode)`
unfoldable pub is_device : ℕ → Bool
is_device mode = mode / 0o10000 % 16 == 6 || mode / 0o10000 % 16 == 2

-- The local `stat`, from what its memory held before.
pub fill_stat : EvfsStat → InodeAttr → EvfsStat
fill_stat stack ino = record stack {
  est_dev = ino.s_dev;
  est_ino = ino.i_ino;
  est_mode = ino.i_mode;
  est_nlink = ino.i_nlink;
  est_uid = ino.i_uid;
  est_gid = ino.i_gid;
  est_rdev = if is_device ino.i_mode then ino.i_rdev else stack.est_rdev;
  est_version = ino.i_version;
  est_size = ino.i_size;
  est_blksize = ino.i_blocksize;
  est_blocks = ino.i_blocks;
  est_atime = ino.i_atime;
  est_atime_nsec = ino.i_atime_nsec;
  est_mtime = ino.i_mtime;
  est_mtime_nsec = ino.i_mtime_nsec;
  est_ctime = ino.i_ctime;
  est_ctime_nsec = ino.i_ctime_nsec;
}

module _ (ext4_iget : ℕ → ℕ ⊎ InodeAttr) where
  -- `stack` is what the memory of `stat` holds at the start, `out` is `args->out`. An error pointer
  -- of `ext4_iget` is `inl e`.
  pub evfs_inode_read : EvfsStat → EvfsStat → ℕ → Held → (ℤ × EvfsStat) × Held
  evfs_inode_read stack out iindex h = elim (ext4_iget iindex) [
    | inl e ↦ ((negsuc e, out), h)
    | inr ino ↦
        let h = record h { inode_refs = h.inode_refs + 1; shared_locks = h.shared_locks + 1 } in
        let stat = fill_stat stack ino in
        let h = record h { shared_locks = h.shared_locks - 1 } in
        ((pos 0, stat), record h { inode_refs = h.inode_refs - 1 })
  ]

  -- For an inode that is found and that is no device, the call returns 0 with the inode's number and
  -- version, gives back its reference and its lock, and the number of the device in the result
  -- is whatever the memory of the local variable held.
  pub evfs_inode_read_rdev :
      (stack out : EvfsStat) (iindex : ℕ) (h : Held) (ino : InodeAttr)
      → ext4_iget iindex ≡ inr ino
      → is_device ino.i_mode ≡ false
      → let ((ret, stat), h') = evfs_inode_read stack out iindex h in
        (ret ≡ pos 0)
        × (h' ≡ h)
        × (stat.est_ino ≡ ino.i_ino)
        × (stat.est_version ≡ ino.i_version)
        × (stat.est_rdev ≡ stack.est_rdev)
  unfolding evfs_inode_read fill_stat
  evfs_inode_read_rdev stack out iindex h ino e plain =
      rw (evfs_inode_read, e) (refl, grind arith, refl, refl, rw plain)
