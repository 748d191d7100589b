-- ===== src/Tracker.antt =====
-- The bitmap tracker: linux-6.8/fs/ext4/evfs-bmt.h and evfs-bmt.c, for a 64-bit kernel.
-- The children prove what the tracker keeps and what it stands for.
pub mod Kernel
pub mod Valid
pub mod Final
pub mod Ready
pub mod Refine
pub mod Threads
pub mod Mount
use linux_evfs.Base.{
  ℕ, zero, suc, ◌+◌, ◌-◌, ◌*◌, ◌/◌, ◌%◌, Bool, true, false, Option, none, some, List, get_or, set,
  replicate, leb, if◌then◌else◌,
}
use linux_evfs.Base.Int.{ℤ, pos}
use linux_evfs.Base.Errno
use Kernel.{Bits, Rwsem}

-- EXT4_EVFS_GRP_BM_LEN, and `sizeof(size_t)`.
abbrev pub ext4_evfs_grp_bm_len : ℕ
ext4_evfs_grp_bm_len = 1

abbrev sizeof_size_t : ℕ
sizeof_size_t = 8

-- `bits_per_bm`
abbrev pub bits_per_bm : ℕ
bits_per_bm = ext4_evfs_grp_bm_len * sizeof_size_t * 8

-- `evfs_bitop`: its type tag with the member of the union that the tag selects.
pub data EvfsBitop : Type 0 where
  ebo_void : (ℕ → Bits → Bits) → EvfsBitop
  ebo_bool : (ℕ → Bits → Bool × Bits) → EvfsBitop

pub record EvfsBitmap : Type 0 where
  pub words : Bits

-- `struct evfs_bm_tracker`; a null pointer among the bitmaps is `none`.
pub record EvfsBmTracker (S : Type 0) : Type 0 where
  pub bitmaps : List (Option EvfsBitmap)
  pub rwsems : List S
  pub num_bitmaps : ℕ

-- `oops` is a call that never returns: it reads through a null pointer, or it waits for a lock that it
-- holds itself.
pub data Run (A : Type 0) : Type 0 where
  done : A → Run A
  oops : Run A

abbrev pub bool_to_int : Bool → ℤ
bool_to_int true = pos 1
bool_to_int false = pos 0

abbrev pub is_some {ℓ} : {A : Type ℓ} → Option A → Bool
is_some none = false
is_some (some a) = true

-- A block of zeroed memory from `kzalloc`.
abbrev pub zeroed : EvfsBitmap
zeroed = record { words = replicate bits_per_bm false }

-- The call through the union, on `tracker->bitmaps[bitmap_num]->data`.
unfoldable pub run_bitop : EvfsBitop → ℕ → Option EvfsBitmap → Run (ℤ × EvfsBitmap)
run_bitop op offset none = oops
run_bitop (ebo_void f) offset (some b) = done (pos 0, record { words = f offset b.words })
run_bitop (ebo_bool f) offset (some b) =
    let (r, words) = f offset b.words in done (bool_to_int r, record { words = words })

module _ {S : Type 0} (k : Rwsem S) where
  open k use {init_rwsem, down_read, up_read, down_write, up_write, downgrade_write}

  -- `kzalloc_ok` says whether the allocation succeeds.
  pub evfs_bm_alloc : Bool → EvfsBmTracker S → ℕ → ℤ × EvfsBmTracker S
  evfs_bm_alloc kzalloc_ok t n =
      if kzalloc_ok
      then (pos 0, record t { bitmaps = set t.bitmaps n (some zeroed) })
      else (Errno.enomem, t)

  pub evfs_bm_free : EvfsBmTracker S → ℕ → EvfsBmTracker S
  evfs_bm_free t n = record t { bitmaps = set t.bitmaps n none }

  unfoldable pub evfs_bm_test : EvfsBmTracker S → ℕ → Bool
  evfs_bm_test t n = is_some (get_or t.bitmaps n none)

  -- A call on `&tracker->rwsems[n]`.
  abbrev pub on_rwsem : (S → S) → ℕ → EvfsBmTracker S → EvfsBmTracker S
  on_rwsem f n t = record t { rwsems = set t.rwsems n (f (get_or t.rwsems n init_rwsem)) }

  -- The three flags say which of the allocations succeed, in the order of the calls.
  -- On success the tracker goes out through the first parameter.
  pub evfs_bm_tracker_init : Bool → Bool → Bool → ℕ → ℤ × Option (EvfsBmTracker S)
  evfs_bm_tracker_init t_ok bitmaps_ok rwsems_ok num_bits =
      let num_bitmaps = (num_bits + bits_per_bm - 1) / bits_per_bm in
      if t_ok
      then if bitmaps_ok
        then if rwsems_ok
          then (
            pos 0,
            some (record {
              bitmaps = replicate num_bitmaps none;
              rwsems = replicate num_bitmaps init_rwsem;
              num_bitmaps = num_bitmaps;
            }),
          )
          else (Errno.enomem, none)
        else (Errno.enomem, none)
      else (Errno.enomem, none)

  -- One round of the loop of `evfs_bm_tracker_final`.
  pub final_round : ℕ → EvfsBmTracker S → EvfsBmTracker S
  unfolding evfs_bm_free evfs_bm_test
  final_round i t =
      let locked = on_rwsem down_write i t in
      on_rwsem up_write i (if evfs_bm_test locked i then evfs_bm_free locked i else locked)

  -- The loop from round `i` on, with `n` rounds left.
  pub final_loop : ℕ → ℕ → EvfsBmTracker S → EvfsBmTracker S
  final_loop zero i t = t
  final_loop (suc n) i t = final_loop n (i + 1) (final_round i t)

  -- The tracker as it is when the three `kfree` calls that end the function release it.
  pub evfs_bm_tracker_final : Option (EvfsBmTracker S) → ℤ × Option (EvfsBmTracker S)
  unfolding final_loop
  evfs_bm_tracker_final none = (Errno.efault, none)
  evfs_bm_tracker_final (some t) = (pos 0, some (final_loop t.num_bitmaps 0 t))

  -- The block under `if (!evfs_bm_test(tracker, bitmap_num))`. The read lock is given up before
  -- the write lock is taken, and `others` is what other threads do to the tracker in between.
  -- The result of `evfs_bm_alloc` is dropped.
  pub ensure_bitmap :
      (EvfsBmTracker S → EvfsBmTracker S) → Bool → ℕ → EvfsBmTracker S → EvfsBmTracker S
  unfolding evfs_bm_test evfs_bm_alloc
  ensure_bitmap others kzalloc_ok n t =
      let locked = on_rwsem down_write n (others (on_rwsem up_read n t)) in
      on_rwsem downgrade_write n
        (if evfs_bm_test locked n then locked else (evfs_bm_alloc kzalloc_ok locked n).1)

  -- The end of `evfs_bit_wrapper`: the new memory is in place and the read lock is released.
  finish : ℕ → EvfsBmTracker S → Run (ℤ × EvfsBitmap) → Run (ℤ × Option (EvfsBmTracker S))
  finish n t oops = oops
  finish n t (done (r, b)) =
      done (r, some (on_rwsem up_read n (record t { bitmaps = set t.bitmaps n (some b) })))

  pub evfs_bit_wrapper :
      (EvfsBmTracker S → EvfsBmTracker S)
      → Bool
      → Option (EvfsBmTracker S)
      → EvfsBitop
      → ℕ
      → Run (ℤ × Option (EvfsBmTracker S))
  unfolding ensure_bitmap evfs_bm_test run_bitop finish
  evfs_bit_wrapper others kzalloc_ok none op nr = done (Errno.efault, none)
  evfs_bit_wrapper others kzalloc_ok (some t) op nr =
      let bitmap_num = nr / bits_per_bm in
      let bit_offset = nr % bits_per_bm in
      if leb t.num_bitmaps bitmap_num
      then done (Errno.einval, some t)
      else (let reading = on_rwsem down_read bitmap_num t in
          let ready =
            if evfs_bm_test reading bitmap_num
            then reading
            else ensure_bitmap others kzalloc_ok bitmap_num reading in
          finish bitmap_num ready (run_bitop op bit_offset (get_or ready.bitmaps bitmap_num none)))
