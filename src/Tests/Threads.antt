-- ===== src/Tests/Threads.antt =====
-- Witnesses of the theorems on several threads in the bitmap tracker.
use linux_evfs.Base.{
  ℕ, ◌+◌, ◌-◌, ◌≡◌, refl, Bool, true, false, Option, none, some, List, [], ◌∷◌, arith, replicate,
  get_or, set,
}
use linux_evfs.Base.Int.{pos}
use linux_evfs.Tracker.{EvfsBitop, EvfsBitmap, ebo_bool, run_bitop}
use linux_evfs.Tracker.Threads.{
  SharedRwsem, Shared, Pc, start, reading, ready, operated, Thread, operate, move, System, Event,
  events, Step, Runs, stop, more, total, IsStart,
}
use linux_evfs.Tracker.Threads.Counts.{has_faulted}
use linux_evfs.Tracker.Threads.Faults.{evfs_bit_wrapper-no_fault}
use linux_evfs.Tracker.Threads.Progress.{evfs_bit_wrapper-progress}
use linux_evfs.Tracker.Threads.Results.{results}
use linux_evfs.Tracker.Threads.Linear.{Replays, evfs_bit_wrapper-linear}
use mathlib.Core.List.{Perm}

-- A semaphore that is its two counts.
abbrev sem : SharedRwsem (ℕ × Bool)
sem = record {
  readers = λ s. s.0;
  writer = λ s. s.1;
  down_read = λ s. (s.0 + 1, s.1);
  up_read = λ s. (s.0 - 1, s.1);
  down_write = λ s. (s.0, true);
  downgrade_write = λ s. (s.0 + 1, false);
  down_read_lem = λ s e. (refl, e);
  up_read_lem = λ s. (refl, refl);
  down_write_lem = λ s e h. (h, refl);
  downgrade_write_lem = λ s e. (refl, refl);
}

-- Two threads that set the bit 3.
abbrev test_and_set : EvfsBitop
test_and_set = ebo_bool (λ n m. (get_or m n false, set m n true))

abbrev thread : Pc → Thread
thread p = record { op = test_and_set; offset = 3; pc = p }

abbrev initial : System (ℕ × Bool)
initial = record {
  shared = record { rwsem = (0, false); bitmap = none };
  threads = thread start ∷ thread start ∷ [];
}

initial-IsStart : IsStart sem initial
initial-IsStart = record { no_readers = refl; no_writer = refl; all_start = refl }

-- The second thread has taken the lock.
abbrev locked : System (ℕ × Bool)
locked = record {
  shared = record { rwsem = (1, false); bitmap = none };
  threads = thread start ∷ thread reading ∷ [];
}

one-Runs : Runs sem false initial 1 [] locked
unfolding move events
one-Runs = more stop (record {
  kzalloc_ok = true;
  before = thread start ∷ [];
  thread = thread start;
  after = [];
  pc = reading;
  alloc = λ e. refl;
  from = refl;
  to = refl;
  moves = refl;
  happens = refl;
})

evfs_bit_wrapper-no_fault_example : total has_faulted locked.threads ≡ 0
evfs_bit_wrapper-no_fault_example =
    evfs_bit_wrapper-no_fault sem initial locked 1 [] initial-IsStart one-Runs

evfs_bit_wrapper-progress_example :
    (es : List Event) × (s : System (ℕ × Bool)) × Step sem false locked es s
evfs_bit_wrapper-progress_example =
    evfs_bit_wrapper-progress sem initial locked 1 [] initial-IsStart one-Runs (omega arith)

-- The first thread finds a bitmap and sets the bit.
abbrev at : Pc → Shared (ℕ × Bool) → System (ℕ × Bool)
at p m = record { shared = m; threads = thread p ∷ thread start ∷ [] }

take-Step :
    (p p' : Pc) (m m' : Shared (ℕ × Bool))
    → move sem true test_and_set 3 p m ≡ some (p', m')
    → Step sem false (at p m) (events test_and_set 3 p p') (at p' m')
take-Step p p' m m' e = record {
  kzalloc_ok = true;
  before = [];
  thread = thread p;
  after = thread start ∷ [];
  pc = p';
  alloc = λ e. refl;
  from = refl;
  to = refl;
  moves = e;
  happens = refl;
}

abbrev bitmap_with : List Bool → Option EvfsBitmap
bitmap_with words = some (record { words = words })

abbrev free : Shared (ℕ × Bool)
free = record { rwsem = (0, false); bitmap = bitmap_with (replicate 8 false) }

abbrev read_locked : Shared (ℕ × Bool)
read_locked = record { rwsem = (1, false); bitmap = bitmap_with (replicate 8 false) }

abbrev bit_set : Shared (ℕ × Bool)
bit_set = record { rwsem = (1, false); bitmap = bitmap_with (set (replicate 8 false) 3 true) }

abbrev set_event : Event
set_event = record { op = test_and_set; offset = 3; ret = pos 0 }

three-Runs : Runs sem false (at start free) 3 (set_event ∷ []) (at (operated (pos 0)) bit_set)
unfolding move operate events run_bitop
three-Runs =
    more
      (more (more stop (take-Step start reading free read_locked refl))
        (take-Step reading ready read_locked read_locked refl))
      (take-Step ready (operated (pos 0)) read_locked bit_set refl)

evfs_bit_wrapper-linear_example :
    Replays (set_event ∷ []) (replicate 8 false) (set (replicate 8 false) 3 true)
    × Perm (set_event ∷ []) (results (at (operated (pos 0)) bit_set).threads)
evfs_bit_wrapper-linear_example =
    evfs_bit_wrapper-linear sem false (at start free) (at (operated (pos 0)) bit_set) 3
      (set_event ∷ []) (record { no_readers = refl; no_writer = refl; all_start = refl }) three-Runs
