-- ===== src/Track.antt =====
-- `__evfs_inode_track`, `__evfs_inode_untrack` and `__evfs_inode_untrack_nolock` of
-- linux-6.8/fs/ext4/evfs.c: the set of inode numbers that evfs allocated, kept in the bitmap
-- tracker.
use linux_evfs.Base.{
  ℕ, zero, suc, ◌*◌, ◌/◌, ◌≤◌, ◌<◌, ◌≡◌, Bool, true, false, Option, none, some, arith, ◌==◌,
  if◌then◌else◌,
}
use linux_evfs.Base.Int.{ℤ, pos}
use linux_evfs.Base.Errno
use linux_evfs.Tracker.Kernel.{Rwsem, Bitops}
use linux_evfs.Tracker.{
  EvfsBmTracker, ebo_void, ebo_bool, Run, done, oops, bits_per_bm, bool_to_int, run_bitop,
  evfs_bit_wrapper,
}
use linux_evfs.Tracker.Valid.{IsValid, tracked}
use linux_evfs.Tracker.Ready.{Writes, Keeps, settled}
use linux_evfs.Tracker.Refine.{
  evfs_bit_wrapper_lem, evfs_bit_wrapper-refused, evfs_bit_wrapper-null,
}

-- What a call on the tracker depends on: the kernel, what other threads do while the tracker is not
-- locked, and whether an allocation succeeds.
pub record TrackEnv (S : Type 0) : Type 0 where
  pub sem : Rwsem S
  pub bits : Bitops
  pub others : EvfsBmTracker S → EvfsBmTracker S
  pub kzalloc_ok : Bool

-- `ret` with a value replaced.
abbrev on_ret :
    {S : Type 0} → (ℤ → ℤ) → Run (ℤ × Option (EvfsBmTracker S)) → Run (ℤ × Option (EvfsBmTracker S))
on_ret f oops = oops
on_ret f (done (r, t)) = done (f r, t)

abbrev pub exists_if_one : ℤ → ℤ
exists_if_one (pos (suc zero)) = Errno.eexist
exists_if_one r = r

abbrev pub noent_if_zero : ℤ → ℤ
noent_if_zero (pos zero) = Errno.enoent
noent_if_zero (pos (suc zero)) = pos 0
noent_if_zero r = r

module _ {S : Type 0} (v : TrackEnv S) where
  open v use {sem, bits, others, kzalloc_ok}

  pub evfs_inode_track : Option (EvfsBmTracker S) → ℕ → Run (ℤ × Option (EvfsBmTracker S))
  evfs_inode_track t ino =
      on_ret exists_if_one
        (evfs_bit_wrapper sem others kzalloc_ok t (ebo_bool bits.test_and_set_bit) ino)

  pub evfs_inode_untrack : Option (EvfsBmTracker S) → ℕ → Run (ℤ × Option (EvfsBmTracker S))
  evfs_inode_untrack t ino =
      on_ret noent_if_zero
        (evfs_bit_wrapper sem others kzalloc_ok t (ebo_bool bits.test_and_clear_bit) ino)

  pub evfs_inode_untrack_nolock : Option (EvfsBmTracker S) → ℕ → Run (ℤ × Option (EvfsBmTracker S))
  evfs_inode_untrack_nolock t ino =
      evfs_bit_wrapper sem others kzalloc_ok t (ebo_void bits.clear_bit) ino

  pub Writes-set : Writes (ebo_bool bits.test_and_set_bit) true bool_to_int
  unfolding run_bitop
  Writes-set n b h = rw (bits.test_and_set_bit_lem n b.words h)

  Writes-clear : Writes (ebo_bool bits.test_and_clear_bit) false bool_to_int
  unfolding run_bitop
  Writes-clear n b h = rw (bits.test_and_clear_bit_lem n b.words h)

  Writes-clear_void : Writes (ebo_void bits.clear_bit) false (λ old. pos 0)
  unfolding run_bitop
  Writes-clear_void n b h = rw (bits.clear_bit_lem n b.words h)

  -- The set after an operation on `ino`: membership of `ino` is `w`, of any other number as in `u`.
  pub record IsUpdated (w : Bool) (ino : ℕ) (u t' : EvfsBmTracker S) : Type 0 where
    pub valid : IsValid t'
    pub bits : (j : ℕ) → tracked t' j ≡ (if j == ino then w else tracked u j)

  module _ (keeps : Keeps sem others) (memory : kzalloc_ok ≡ true) (t : EvfsBmTracker S) (ino : ℕ)
      (valid : IsValid t) (inside : ino / bits_per_bm < t.num_bitmaps) where
    abbrev pub base : EvfsBmTracker S
    base = settled sem others t (ino / bits_per_bm)

    -- On a valid tracker that covers the number, with memory at hand: tracking an untracked number
    -- returns 0 and tracks it, and a tracked one is refused with `-EEXIST`.
    pub evfs_inode_track_lem :
        (t' : EvfsBmTracker S) × (evfs_inode_track (some t) ino
          ≡ done (if tracked base ino then Errno.eexist else pos 0, some t'))
        × IsUpdated true ino base t'
    unfolding evfs_inode_track
    evfs_inode_track_lem =
        let r =
          evfs_bit_wrapper_lem sem others keeps t ino valid inside (ebo_bool bits.test_and_set_bit)
            true bool_to_int Writes-set in
        (r.0, rw (memory, r.1) (ground arith), record { valid = r.2; bits = r.4 })

    -- Untracking a tracked number returns 0 and removes it, and an untracked one is refused with
    -- `-ENOENT`.
    pub evfs_inode_untrack_lem :
        (t' : EvfsBmTracker S) × (evfs_inode_untrack (some t) ino
          ≡ done (if tracked base ino then pos 0 else Errno.enoent, some t'))
        × IsUpdated false ino base t'
    unfolding evfs_inode_untrack
    evfs_inode_untrack_lem =
        let r =
          evfs_bit_wrapper_lem sem others keeps t ino valid inside
            (ebo_bool bits.test_and_clear_bit) false bool_to_int Writes-clear in
        (r.0, rw (memory, r.1) (ground arith), record { valid = r.2; bits = r.4 })

    -- The variant that does not test removes the number and returns 0, tracked or not.
    pub evfs_inode_untrack_nolock_lem :
        (t' : EvfsBmTracker S) × (evfs_inode_untrack_nolock (some t) ino ≡ done (pos 0, some t'))
        × IsUpdated false ino base t'
    unfolding evfs_inode_untrack_nolock Writes-clear_void
    evfs_inode_untrack_nolock_lem =
        let r =
          evfs_bit_wrapper_lem sem others keeps t ino valid inside (ebo_void bits.clear_bit) false
            (λ old. pos 0) Writes-clear_void in
        (r.0, rw (memory, r.1), record { valid = r.2; bits = r.4 })

  -- A number that no bitmap of the tracker covers is refused with `-EINVAL`, and the tracker does
  -- not change.
  pub evfs_inode_track-einval :
      (t : EvfsBmTracker S) (ino : ℕ)
      → t.num_bitmaps * bits_per_bm ≤ ino
      → evfs_inode_track (some t) ino ≡ done (Errno.einval, some t)
  unfolding evfs_inode_track
  evfs_inode_track-einval t ino h =
      rw (evfs_bit_wrapper-refused sem others kzalloc_ok t (ebo_bool bits.test_and_set_bit) ino h)

  -- Without a tracker nothing is tracked.
  pub evfs_inode_track-none : (ino : ℕ) → evfs_inode_track none ino ≡ done (Errno.efault, none)
  unfolding evfs_inode_track
  evfs_inode_track-none ino =
      rw (evfs_bit_wrapper-null sem others kzalloc_ok (ebo_bool bits.test_and_set_bit) ino)
