-- ===== src/Tests/Tracks.antt =====
-- Witnesses of the theorems on the tracker.
use linux_evfs.Base.{ℕ, ◌/◌, ◌≡◌, refl, true, some, arith, ◌==◌, if◌then◌else◌}
use linux_evfs.Base.Int.{pos}
use linux_evfs.Base.Errno
use linux_evfs.Tracker.{EvfsBmTracker, done, bits_per_bm, ebo_bool, bool_to_int, evfs_bit_wrapper}
use linux_evfs.Tracker.Valid.{IsValid, tracked}
use linux_evfs.Tracker.Ready.{settled}
use linux_evfs.Tracker.Refine.{evfs_bit_wrapper_lem, evfs_bit_wrapper-refused}
use linux_evfs.Track.{Writes-set, IsUpdated, evfs_inode_track, evfs_inode_track_lem}
use linux_evfs.Tracker.Mount.{Mounted, mount_tracker, mount_tracker-Mounted}
use linux_evfs.Samples.{rwsem, bitops, tracker, tracker-IsValid, alone, alone-Keeps, track_env}

evfs_bit_wrapper_lem_example :
    let u = settled rwsem alone tracker (70 / bits_per_bm) in
    (t' : EvfsBmTracker ℕ) × (evfs_bit_wrapper rwsem alone true
        (some tracker)
        (ebo_bool bitops.test_and_set_bit)
        70
      ≡ done (bool_to_int (tracked u 70), some t'))
    × IsValid t'
    × (t'.rwsems ≡ tracker.rwsems)
    × ((j : ℕ) → tracked t' j ≡ (if j == 70 then true else tracked u j))
evfs_bit_wrapper_lem_example =
    evfs_bit_wrapper_lem rwsem alone alone-Keeps tracker 70 tracker-IsValid (omega arith)
      (ebo_bool bitops.test_and_set_bit) true bool_to_int (Writes-set track_env)

evfs_bit_wrapper-refused_example :
    evfs_bit_wrapper rwsem alone true (some tracker) (ebo_bool bitops.test_and_set_bit) 128
    ≡ done (Errno.einval, some tracker)
evfs_bit_wrapper-refused_example =
    evfs_bit_wrapper-refused rwsem alone true tracker (ebo_bool bitops.test_and_set_bit) 128
      (omega arith)

evfs_inode_track_lem_example :
    (t' : EvfsBmTracker ℕ) × (evfs_inode_track track_env (some tracker) 12
      ≡ done (
        if tracked (settled rwsem alone tracker (12 / bits_per_bm)) 12 then Errno.eexist else pos 0,
        some t',
      ))
    × IsUpdated track_env true 12 (settled rwsem alone tracker (12 / bits_per_bm)) t'
evfs_inode_track_lem_example =
    evfs_inode_track_lem track_env alone-Keeps refl tracker 12 tracker-IsValid (omega arith)

-- A file system with 64 inodes is mounted, and the last of them is refused.
mount_tracker-Mounted_example : Mounted track_env 64 (mount_tracker rwsem true true true 64)
mount_tracker-Mounted_example =
    mount_tracker-Mounted track_env 64 alone-Keeps refl (λ t. refl) true true true
