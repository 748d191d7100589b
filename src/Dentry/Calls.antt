-- ===== src/Dentry/Calls.antt =====
-- How `evfs_dentry_add` and `evfs_dentry_delete` (evfs.c) end in the call that changes the
-- directory.
use linux_evfs.Base.{ℕ, ◌≤◌, ◌≡◌, ◌⊎◌, refl, inr, true, arith, if◌then◌else◌}
use linux_evfs.Base.Int.{ℤ, pos, negsuc, is_neg, is_nonzero}
use linux_evfs.Ioctl.{DeAddIn, DeDeleteIn}
use linux_evfs.Dentry.{
  Held, AddKernel, strlen, release_pino, release_pde, release_cino, release_cde, add_child,
  evfs_dentry_add,
}
use linux_evfs.Tracker.{Run, done, oops}
use linux_evfs.Track.{TrackEnv, evfs_inode_untrack_nolock}
use linux_evfs.Dentry.Delete
use linux_evfs.Dentry.Delete.{
  DeleteState, DeleteKernel, unlink_child, untrack_child, find_child, evfs_dentry_delete,
}

-- `if (err) ret = err`
pub ret-err : (err : ℤ) → (if is_nonzero err then err else pos 0) ≡ err
ret-err (pos ℕ.zero) = refl
ret-err (pos (ℕ.suc n)) = refl
ret-err (negsuc n) = refl

pub is_neg-is_nonzero : (err : ℤ) → is_neg err ≡ true → is_nonzero err ≡ true
is_neg-is_nonzero (pos n) h = absurd (ground (arith, h))
is_neg-is_nonzero (negsuc n) h = refl

module _ {X : Type 0} (k : AddKernel X) where
  -- An error is reported and the file system is as before, or the call is what `ext4_link` does for a
  -- name of a length that was checked. The call never returns only if the child is the directory.
  abbrev pub EndsInLink : DeAddIn → X → Run (ℤ × Held × X) → Type 0
  EndsInLink a x oops = a.parent_ino_num ≡ a.child_ino_num
  EndsInLink a x (done (ret, h, x')) =
      ((is_nonzero ret ≡ true) × (x' ≡ x))
      ⊎ ((strlen a.name ≤ 255)
          × (ret ≡ (k.ext4_link a.parent_ino_num a.child_ino_num a.name x).0)
          × (x' ≡ (k.ext4_link a.parent_ino_num a.child_ino_num a.name x).1))

  add_child-EndsInLink :
      (a : DeAddIn) (h : Held) (x : X) → strlen a.name ≤ 255 → EndsInLink a x (add_child k a h x)
  unfolding add_child release_cde release_cino release_pde release_pino
  add_child-EndsInLink a h x short = grind (arith, ret-err)

  pub evfs_dentry_add-EndsInLink :
      (a : DeAddIn) (h : Held) (x : X) → EndsInLink a x (evfs_dentry_add k a h x)
  unfolding evfs_dentry_add release_pino
  evfs_dentry_add-EndsInLink a h x = grind (arith, add_child-EndsInLink)

module _ {S X : Type 0} (k : DeleteKernel X) (v : TrackEnv S) where
  -- An error is reported and the file system is as before, or it is what `ext4_unlink` made of it. The
  -- call never returns only if the name is that of the directory, or if the tracker faults.
  abbrev pub EndsInUnlink : DeDeleteIn → DeleteState S X → Run (ℤ × DeleteState S X) → Type 0
  EndsInUnlink a s oops =
      (child : ℕ) × (k.ext4_find_entry a.dir_ino_num a.name ≡ inr child)
      × ((a.dir_ino_num ≡ child) ⊎ (evfs_inode_untrack_nolock v s.tracker child ≡ oops))
  EndsInUnlink a s (done (ret, s')) =
      ((is_nonzero ret ≡ true) × (s'.fs ≡ s.fs))
      ⊎ ((child : ℕ) × (k.ext4_find_entry a.dir_ino_num a.name ≡ inr child)
          × (ret ≡ (k.ext4_unlink a.dir_ino_num a.name child s.fs).0)
          × (s'.fs ≡ (k.ext4_unlink a.dir_ino_num a.name child s.fs).1))

  untrack_child-EndsInUnlink :
      (a : DeDeleteIn) (child : ℕ) (s : DeleteState S X)
      → k.ext4_find_entry a.dir_ino_num a.name ≡ inr child
      → EndsInUnlink a s (untrack_child k v a child s)
  unfolding untrack_child unlink_child Delete.release_cde Delete.release_cino Delete.release_pde
      Delete.release_pino
  untrack_child-EndsInUnlink a child s found = grind (arith, ret-err, is_neg-is_nonzero, found)

  find_child-EndsInUnlink :
      (a : DeDeleteIn) (s : DeleteState S X) → EndsInUnlink a s (find_child k v a s)
  unfolding find_child Delete.release_pde Delete.release_pino
  find_child-EndsInUnlink a s = grind (arith, untrack_child-EndsInUnlink)

  pub evfs_dentry_delete-EndsInUnlink :
      (a : DeDeleteIn) (s : DeleteState S X) → EndsInUnlink a s (evfs_dentry_delete k v a s)
  unfolding evfs_dentry_delete Delete.release_pino
  evfs_dentry_delete-EndsInUnlink a s = grind (arith, find_child-EndsInUnlink)
