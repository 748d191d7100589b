-- ===== src/Dentry/Delete.antt =====
-- `evfs_dentry_delete` of linux-6.8/fs/ext4/evfs.c.
use linux_evfs.Base.{
  ℕ, ◌+◌, ◌-◌, ◌≡◌, ◌⊎◌, inl, inr, refl, ◌∙◌, sym, ap, Bool, true, false, not, Option, none, some,
  List, arith, ◌==◌, if◌then◌else◌,
}
use linux_evfs.Base.Int.{ℤ, pos, negsuc, is_neg, is_nonzero}
use linux_evfs.Base.Errno
use linux_evfs.Tracker.{EvfsBmTracker, Run, done, oops}
use linux_evfs.Track.{TrackEnv, evfs_inode_untrack_nolock}
use linux_evfs.Ioctl.{DeDeleteIn}
use linux_evfs.Dentry.{Held, is_dir}

-- The file system with the tracker. `d_add` hands the reference to the child over to the new dentry, and
-- `dput` gives it back with the dentry; `child_refs` counts it in both cases.
pub record DeleteState (S X : Type 0) : Type 0 where
  pub fs : X
  pub tracker : Option (EvfsBmTracker S)
  pub held : Held

-- `ext4_find_entry` ends with an error, an error pointer or `-ENOENT` for a null pointer, or with the
-- number of the inode. `quota_dir` and
-- `quota_child` are the two calls of `dquot_initialize`.
pub record DeleteKernel (X : Type 0) : Type 0 where
  pub iget_error : ℕ → Option ℕ
  pub i_mode : ℕ → ℕ
  pub d_find_any_alias : ℕ → Bool
  pub ext4_find_entry : ℕ → List ℕ → ℕ ⊎ ℕ
  pub d_alloc : List ℕ → Bool
  pub quota_dir : ℤ
  pub quota_child : ℤ
  pub ext4_unlink : ℕ → List ℕ → ℕ → X → ℤ × X

module _ {S X : Type 0} (k : DeleteKernel X) (v : TrackEnv S) where
  open k use {
    iget_error, i_mode, d_find_any_alias, ext4_find_entry, d_alloc, quota_dir, quota_child,
    ext4_unlink,
  }

  abbrev on_held : (Held → Held) → DeleteState S X → DeleteState S X
  on_held f s = record s { held = f s.held }

  -- `release_pino:`. The flag is `parent_dput_called`.
  unfoldable pub release_pino : Bool → ℤ → DeleteState S X → Run (ℤ × DeleteState S X)
  release_pino dput_called ret s =
      let s =
        if dput_called then s else on_held (λ h. record h { dir_locks = h.dir_locks - 1 }) s in
      done (ret, on_held (λ h. record h { dir_refs = h.dir_refs - 1 }) s)

  -- `release_pde:`
  unfoldable pub release_pde : ℤ → DeleteState S X → Run (ℤ × DeleteState S X)
  release_pde ret s =
      release_pino true ret (on_held (λ h. record h { parent_dentries = h.parent_dentries - 1 }) s)

  -- `release_cino:`. The flag is `child_dput_called`; `dput` has dropped the reference then.
  unfoldable pub release_cino : ℤ → DeleteState S X → Run (ℤ × DeleteState S X)
  release_cino ret s =
      release_pde ret (
        on_held (λ h. record h { child_locks = h.child_locks - 1; child_refs = h.child_refs - 1 })
          s)

  -- `release_cde:`
  unfoldable pub release_cde : ℤ → DeleteState S X → Run (ℤ × DeleteState S X)
  release_cde ret s =
      release_cino ret (on_held (λ h. record h { child_dentries = h.child_dentries - 1 }) s)

  -- From `d_alloc` on.
  unfoldable pub unlink_child : DeDeleteIn → ℕ → DeleteState S X → Run (ℤ × DeleteState S X)
  unlink_child a child s =
      if not (d_alloc a.name)
      then release_cino Errno.enomem s
      else (let s = on_held (λ h. record h { child_dentries = h.child_dentries + 1 }) s in
          if is_nonzero quota_dir
          then release_cde quota_dir s
          else if is_nonzero quota_child
          then release_cde quota_child s
          else (let (err, x) = ext4_unlink a.dir_ino_num a.name child s.fs in
              release_cde (if is_nonzero err then err else pos 0) (record s { fs = x })))

  -- From the child's `inode_lock` on.
  unfoldable pub untrack_child : DeDeleteIn → ℕ → DeleteState S X → Run (ℤ × DeleteState S X)
  untrack_child a child s = elim (evfs_inode_untrack_nolock v s.tracker child) [
    | oops ↦ oops
    | done (err, t) ↦
        let s = record s { tracker = t } in
        if is_neg err then release_cino err s else unlink_child a child s
  ]

  -- From `ext4_find_entry` on. The child's `inode_lock` never returns if the child is the directory,
  -- which is locked.
  unfoldable pub find_child : DeDeleteIn → DeleteState S X → Run (ℤ × DeleteState S X)
  find_child a s = elim (ext4_find_entry a.dir_ino_num a.name) [
    | inl e ↦ release_pde (negsuc e) s
    | inr child ↦ elim (iget_error child) [
      | some e ↦ release_pde (negsuc e) s
      | none ↦
          if a.dir_ino_num == child
          then oops
          else untrack_child a child (
              on_held
                (λ h. record h { child_refs = h.child_refs + 1; child_locks = h.child_locks + 1 })
                s)
    ]
  ]

  unfoldable pub evfs_dentry_delete : DeDeleteIn → DeleteState S X → Run (ℤ × DeleteState S X)
  evfs_dentry_delete a s = elim (iget_error a.dir_ino_num) [
    | some e ↦ done (negsuc e, s)
    | none ↦
        let s =
          on_held (λ h. record h { dir_refs = h.dir_refs + 1; dir_locks = h.dir_locks + 1 }) s in
        if not (is_dir (i_mode a.dir_ino_num))
        then release_pino false Errno.enotdir s
        else if not (d_find_any_alias a.dir_ino_num)
        then release_pino false Errno.enoent s
        else find_child a (on_held (λ h. record h { parent_dentries = h.parent_dentries + 1 }) s)
  ]

  abbrev rest : Held → Run (ℤ × DeleteState S X) → Held
  rest d oops = d
  rest d (done (r, s)) = s.held

  untrack_child-held :
      (d : Held) (a : DeDeleteIn) (child : ℕ) (s : DeleteState S X)
      → d ≡ record (s.held) {
        child_refs = s.held.child_refs - 1;
        child_locks = s.held.child_locks - 1;
        parent_dentries = s.held.parent_dentries - 1;
        dir_refs = s.held.dir_refs - 1;
      }
      → rest d (untrack_child a child s) ≡ d
  unfolding untrack_child unlink_child release_cde release_cino release_pde release_pino
  untrack_child-held d a child s h = grind arith

  find_child-held :
      (d : Held) (a : DeDeleteIn) (s : DeleteState S X)
      → d ≡ record (s.held) {
        parent_dentries = s.held.parent_dentries - 1;
        dir_refs = s.held.dir_refs - 1;
      }
      → rest d (find_child a s) ≡ d
  unfolding find_child release_pde release_pino
  find_child-held d a s h = grind (arith, untrack_child-held)

  evfs_dentry_delete-rest :
      (d : Held) (a : DeDeleteIn) (s : DeleteState S X)
      → iget_error a.dir_ino_num ≡ none
      → is_dir (i_mode a.dir_ino_num) ≡ true
      → d_find_any_alias a.dir_ino_num ≡ true
      → d ≡ record (s.held) { dir_locks = s.held.dir_locks + 1 }
      → rest d (evfs_dentry_delete a s) ≡ d
  unfolding evfs_dentry_delete
  evfs_dentry_delete-rest d a s iget dir alias h = grind (arith, find_child-held, iget, dir, alias)

  -- Once the directory and its dentry are found, a call that ends, with whatever value, still holds the
  -- lock of the directory; all other counts are as they were.
  pub evfs_dentry_delete-dir_locks :
      (a : DeDeleteIn) (s s' : DeleteState S X) (ret : ℤ)
      → iget_error a.dir_ino_num ≡ none
      → is_dir (i_mode a.dir_ino_num) ≡ true
      → d_find_any_alias a.dir_ino_num ≡ true
      → evfs_dentry_delete a s ≡ done (ret, s')
      → s'.held ≡ record (s.held) { dir_locks = s.held.dir_locks + 1 }
  evfs_dentry_delete-dir_locks a s s' ret iget dir alias eq =
      ap (rest (record (s.held) { dir_locks = s.held.dir_locks + 1 })) (sym eq)
      ∙ evfs_dentry_delete-rest _ a s iget dir alias refl
