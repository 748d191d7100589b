-- ===== src/Tracker/Valid.antt =====
-- The invariant of a tracker (evfs-bmt.c) and the set of numbers that it stands for.
use linux_evfs.Base.{
  ℕ, ◌+◌, ◌-◌, ◌*◌, ◌/◌, ◌%◌, ◌≤◌, ◌<◌, ◌≡◌, refl, Bool, true, false, Option, none, some, arith,
  length, get_or, replicate, length-replicate, get_or-replicate,
}
use linux_evfs.Base.Int.{pos}
use linux_evfs.Tracker.Kernel.{Rwsem}
use linux_evfs.Tracker.{EvfsBitmap, EvfsBmTracker, bits_per_bm, evfs_bm_tracker_init}

-- Every number below `num_bitmaps` has a pointer and a semaphore, and a bitmap that is there has
-- its full size.
pub record IsValid {S : Type 0} (t : EvfsBmTracker S) : Type 0 where
  pub bitmaps_len : length t.bitmaps ≡ t.num_bitmaps
  pub rwsems_len : length t.rwsems ≡ t.num_bitmaps
  pub whole :
      (n : ℕ) (b : EvfsBitmap) → get_or t.bitmaps n none ≡ some b → length b.words ≡ bits_per_bm

-- The bit of a bitmap; one that is not allocated yet holds no bit.
abbrev pub bit_of : Option EvfsBitmap → ℕ → Bool
bit_of none i = false
bit_of (some b) i = get_or b.words i false

-- What a tracker stands for: which numbers are tracked.
abbrev pub tracked : {S : Type 0} → EvfsBmTracker S → ℕ → Bool
tracked t nr = bit_of (get_or t.bitmaps (nr / bits_per_bm) none) (nr % bits_per_bm)

abbrev nothing : Option EvfsBitmap
nothing = none

pub get_or-replicate-none : (n i : ℕ) → get_or (replicate n (nothing)) i none ≡ none
get_or-replicate-none n i = get_or-replicate n i none

module _ {S : Type 0} (k : Rwsem S) where
  -- What a fresh tracker for `num_bits` numbers holds.
  pub record IsFresh (num_bits : ℕ) (t : EvfsBmTracker S) : Type 0 where
    pub valid : IsValid t
    pub untracked : (nr : ℕ) → tracked t nr ≡ false
    pub covers : num_bits ≤ t.num_bitmaps * bits_per_bm
    pub tight : t.num_bitmaps * bits_per_bm < num_bits + bits_per_bm

  -- With memory at hand the function returns 0 and a tracker that is well formed, tracks no
  -- number, and has just enough bitmaps for the numbers below `num_bits`.
  pub evfs_bm_tracker_init-IsFresh :
      (num_bits : ℕ)
      → (t : EvfsBmTracker S) × (evfs_bm_tracker_init k true true true num_bits ≡ (pos 0, some t))
        × IsFresh num_bits t
  unfolding evfs_bm_tracker_init
  evfs_bm_tracker_init-IsFresh num_bits = (
    t,
    refl,
    record {
      valid = record {
        bitmaps_len = length-replicate m none;
        rwsems_len = length-replicate m k.init_rwsem;
        whole = λ n b e. cc (e, get_or-replicate-none m n);
      };
      untracked = λ nr. rw (get_or-replicate-none m (nr / bits_per_bm));
      covers = omega arith;
      tight = omega arith;
    },
  )
    where
      m : ℕ
      m = (num_bits + bits_per_bm - 1) / bits_per_bm

      t : EvfsBmTracker S
      t = record { bitmaps = replicate m none; rwsems = replicate m k.init_rwsem; num_bitmaps = m }
