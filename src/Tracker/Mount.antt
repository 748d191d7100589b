-- ===== src/Tracker/Mount.antt =====
-- What super.c does with the tracker when a file system is mounted (`__ext4_fill_super`) and
-- unmounted (`ext4_put_super`).
use linux_evfs.Base.{
  ℕ, ◌*◌, ◌/◌, ◌%◌, ◌≤◌, ◌<◌, ◌≡◌, refl, ap, ◌∙◌, inl, inr, Bool, true, false, Option, none, some,
  arith, get_or, ◌==◌, if◌then◌else◌, Bool-cases, ◌&&◌,
}
use linux_evfs.Base.Int.{pos, is_neg}
use linux_evfs.Base.Errno
use linux_evfs.Tracker.Kernel.{Rwsem}
use linux_evfs.Tracker.{
  EvfsBmTracker, done, bits_per_bm, evfs_bm_tracker_init, evfs_bm_tracker_final,
}
use linux_evfs.Tracker.Valid.{tracked, IsFresh, evfs_bm_tracker_init-IsFresh}
use linux_evfs.Tracker.Ready.{Keeps, settled}
use linux_evfs.Tracker.Final.{evfs_bm_tracker_final_lem}
use linux_evfs.Track.{
  TrackEnv, evfs_inode_track, evfs_inode_track_lem, evfs_inode_track-einval, evfs_inode_track-none,
}

module _ {S : Type 0} (k : Rwsem S) where
  -- The flags are those of `evfs_bm_tracker_init`. The mount goes on without a tracker if it fails.
  unfoldable pub mount_tracker : Bool → Bool → Bool → ℕ → Option (EvfsBmTracker S)
  mount_tracker t_ok bitmaps_ok rwsems_ok s_inodes_count =
      let (err, t) = evfs_bm_tracker_init k t_ok bitmaps_ok rwsems_ok s_inodes_count in
      if is_neg err then none else t

  -- Whether the unmount warns, and the tracker as it is released.
  unfoldable pub unmount_tracker : Option (EvfsBmTracker S) → Bool × Option (EvfsBmTracker S)
  unmount_tracker t = let (err, t') = evfs_bm_tracker_final k t in (is_neg err, t')

module _ {S : Type 0} (v : TrackEnv S) (count : ℕ) where
  -- An inode that was tracked on a fresh tracker: it alone is, and the unmount frees all bitmaps.
  pub record IsServed (t : EvfsBmTracker S) (ino : ℕ) : Type 0 where
    pub after : EvfsBmTracker S
    pub released : EvfsBmTracker S
    pub runs : evfs_inode_track v (some t) ino ≡ done (pos 0, some after)
    pub only : (j : ℕ) → tracked after j ≡ (j == ino)
    pub ends : unmount_tracker v.sem (some after) ≡ (false, some released)
    pub frees : (n : ℕ) → get_or released.bitmaps n none ≡ none

  -- How an inode is answered that is, or is not, the last of a multiple of 64.
  abbrev pub Answers : EvfsBmTracker S → ℕ → Bool → Type 0
  Answers t ino true = evfs_inode_track v (some t) ino ≡ done (Errno.einval, some t)
  Answers t ino false = IsServed t ino

  -- The life of a file system with a tracker, or without one.
  abbrev pub Mounted : Option (EvfsBmTracker S) → Type 0
  Mounted none =
      ((ino : ℕ) → evfs_inode_track v none ino ≡ done (Errno.efault, none))
      × (unmount_tracker v.sem none ≡ (true, none))
  Mounted (some t) = (ino : ℕ) → ino ≤ count → Answers t ino (ino == count && count % 64 == 0)

  module _ (keeps : Keeps v.sem v.others) (memory : v.kzalloc_ok ≡ true)
      (quiet : (t : EvfsBmTracker S) → v.others t ≡ t) where
    settled-quiet : (t : EvfsBmTracker S) (n : ℕ) → settled v.sem v.others t n ≡ t
    unfolding settled
    settled-quiet t n = grind (arith, quiet)

    fresh-IsServed :
        (t : EvfsBmTracker S) (ino : ℕ)
        → IsFresh v.sem count t
        → ino / bits_per_bm < t.num_bitmaps
        → IsServed t ino
    unfolding unmount_tracker
    fresh-IsServed t ino fresh inside =
        let (t', eq, updated) = evfs_inode_track_lem v keeps memory t ino fresh.valid inside in
        let unknown : (j : ℕ) → tracked (settled v.sem v.others t (ino / bits_per_bm)) j ≡ false =
          λ j. ap (λ u. tracked u j) (settled-quiet t (ino / bits_per_bm)) ∙ fresh.untracked j in
        let last = (evfs_bm_tracker_final_lem v.sem t' updated.valid).0 in
        record {
          after = t';
          released = last.0;
          runs = eq ∙ ap (λ b. done (if b then Errno.eexist else pos 0, some t')) (unknown ino);
          only = λ j.
              updated.bits j ∙ ap (λ b. if j == ino then true else b) (unknown j) ∙ ground arith;
          ends = rw (last.1) refl;
          frees = last.2;
        }

    fresh-Mounted : (t : EvfsBmTracker S) → IsFresh v.sem count t → Mounted (some t)
    fresh-Mounted t fresh ino le = elim (Bool-cases (ino == count && count % 64 == 0)) [
      | inl last ↦
          let beyond : t.num_bitmaps * bits_per_bm ≤ ino =
            ground (arith, last, fresh.tight, fresh.covers) in
          rw last (evfs_inode_track-einval v t ino beyond)
      | inr other ↦
          let inside : ino / bits_per_bm < t.num_bitmaps =
            ground (arith, other, fresh.covers, le) in
          rw other (fresh-IsServed t ino fresh inside)
    ]

    all-Mounted : Mounted (mount_tracker v.sem true true true count)
    unfolding mount_tracker
    all-Mounted =
        let (t, eq, fresh) = evfs_bm_tracker_init-IsFresh v.sem count in
        let same : mount_tracker v.sem true true true count ≡ some t =
          ap (λ r. if is_neg r.0 then none else r.1) eq in
        rw same (fresh-Mounted t fresh)

    -- A file system with `s_inodes_count` inodes is mounted and used by one thread, with memory for
    -- the bitmaps. Either there was no memory for the tracker, and then every inode is refused with
    -- `-EFAULT` and the unmount warns; or every inode up to the count can be tracked, and then it alone
    -- is, and the unmount frees all bitmaps without a warning. The one exception is the last inode
    -- if the count is a multiple of 64, which is always refused with `-EINVAL`.
    pub mount_tracker-Mounted :
        (t_ok bitmaps_ok rwsems_ok : Bool)
        → Mounted (mount_tracker v.sem t_ok bitmaps_ok rwsems_ok count)
    unfolding mount_tracker evfs_bm_tracker_init unmount_tracker evfs_bm_tracker_final
    mount_tracker-Mounted true true true = all-Mounted
    mount_tracker-Mounted true true false = (λ ino. evfs_inode_track-none v ino, refl)
    mount_tracker-Mounted true false rwsems_ok = (λ ino. evfs_inode_track-none v ino, refl)
    mount_tracker-Mounted false bitmaps_ok rwsems_ok = (λ ino. evfs_inode_track-none v ino, refl)
