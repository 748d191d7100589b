-- ===== src/Dir/Calls.antt =====
-- `evfs_dentry_add` and `evfs_dentry_delete` (evfs.c) on directories as namei.c keeps them.
use linux_evfs.Base.{
  ℕ, suc, ◌%◌, ◌^◌, ◌≤◌, ◌<◌, ◌≡◌, ◌⊎◌, inr, true, false, some, List, [], ◌∷◌, length, ◌==◌,
  if◌then◌else◌,
}
use linux_evfs.Base.Int.{ℤ, pos, is_nonzero}
use linux_evfs.Ioctl.{DeAddIn, DeDeleteIn}
use linux_evfs.Dentry.{Held, AddKernel}
use linux_evfs.Tracker.{Run, done, oops}
use linux_evfs.Track.{TrackEnv, evfs_inode_untrack_nolock}
use linux_evfs.Dentry.Delete.{DeleteState, DeleteKernel}
use linux_evfs.Dir.Link.{LinkState, LinkKernel, ext4_link, ext4_unlink}
use linux_evfs.Dir.Link.Searched.{BlocksLong}
use linux_evfs.Dir.Link.Unlink.{Unlinking}
use linux_evfs.Dir.Link.Outcome.{IsSound, Linking}

-- A name up to its first zero byte.
unfoldable pub c_string : List ℕ → List ℕ
c_string [] = []
c_string (c ∷ s) = let rest = c_string s in if c == 0 then [] else c ∷ rest

-- The call in `evfs_dentry_add` is `__ext4_link` on the directory and the inode that `state` picks
-- out of the file system, for the name up to its zero byte.
pub record IsExt4Link {X : Type 0} (k : AddKernel X) (state : ℕ → ℕ → X → LinkState)
    (calls : ℕ → LinkKernel) (fuel : ℕ) : Type 0 where
  pub runs :
      (dir child : ℕ) (name : List ℕ) (x : X) (ret : ℤ) (s : LinkState)
      → ext4_link calls 0 fuel (c_string name) child (k.i_mode child) (state dir child x)
        ≡ some (ret, s)
      → ((k.ext4_link dir child name x).0 ≡ ret)
        × (state dir child (k.ext4_link dir child name x).1 ≡ s)

module _ {X : Type 0} (k : AddKernel X) (state : ℕ → ℕ → X → LinkState) (calls : ℕ → LinkKernel)
    (n : ℕ) (links : IsExt4Link k state calls (suc n)) (sound : (a : ℕ) → IsSound (calls a))
    (stops : (a : ℕ) → n ≤ a → (calls a).ext4_should_retry_alloc ≡ false) where
  -- How a call ends: it waits for the lock of the directory, which it holds; or it reports an error
  -- and nothing changed; or as `__ext4_link` does.
  abbrev pub Adding : DeAddIn → X → Run (ℤ × Held × X) → Type 0
  Adding a x oops = a.parent_ino_num ≡ a.child_ino_num
  Adding a x (done (ret, h, x')) =
      ((is_nonzero ret ≡ true) × (x' ≡ x))
      ⊎ Linking calls (c_string a.name) (a.child_ino_num % 2 ^ 32)
          (state a.parent_ino_num a.child_ino_num x) (state a.parent_ino_num a.child_ino_num x') ret

-- The same of the call in `evfs_dentry_delete`, which is `__ext4_unlink`.
pub record IsExt4Unlink {X : Type 0} (k : DeleteKernel X) (state : ℕ → ℕ → X → LinkState)
    (calls : LinkKernel) (fuel : ℕ) : Type 0 where
  pub runs :
      (dir child : ℕ) (name : List ℕ) (x : X) (ret : ℤ) (s : LinkState)
      → ext4_unlink calls fuel (c_string name) child (state dir child x) ≡ some (ret, s)
      → ((k.ext4_unlink dir name child x).0 ≡ ret)
        × (state dir child (k.ext4_unlink dir name child x).1 ≡ s)

module _ {S X : Type 0} (k : DeleteKernel X) (v : TrackEnv S) (state : ℕ → ℕ → X → LinkState)
    (calls : LinkKernel) (fuel : ℕ) (unlinks : IsExt4Unlink k state calls fuel)
    (reads : (b n : ℕ) → calls.walk.ext4_bread_batch b n ≡ pos 0) (one : 1 ≤ fuel)
    (live_mount : calls.fc_replay ≡ false) where
  -- The directory fits the fuel, its entries have bytes, and links are counted in 32 bits.
  pub record IsWell (s : LinkState) : Type 0 where
    pub enough : length s.dir.blocks ≤ fuel
    pub long : BlocksLong s.dir.blocks
    pub small : s.i_nlink < 2 ^ 32

  -- How a call ends: it waits for the lock of the directory, which it holds, or faults in the
  -- tracker; or it reports an error and nothing of the file system changed; or as `__ext4_unlink`
  -- does for the child to which the name was looked up.
  abbrev pub Deleting : DeDeleteIn → DeleteState S X → Run (ℤ × DeleteState S X) → Type 0
  Deleting a s oops =
      (child : ℕ) × (k.ext4_find_entry a.dir_ino_num a.name ≡ inr child)
      × ((a.dir_ino_num ≡ child) ⊎ (evfs_inode_untrack_nolock v s.tracker child ≡ oops))
  Deleting a s (done (ret, s')) =
      ((is_nonzero ret ≡ true) × (s'.fs ≡ s.fs))
      ⊎ ((child : ℕ) × (k.ext4_find_entry a.dir_ino_num a.name ≡ inr child)
          × Unlinking calls (c_string a.name) child (state a.dir_ino_num child s.fs)
              (state a.dir_ino_num child s'.fs) ret)
