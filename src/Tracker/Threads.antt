-- ===== src/Tracker/Threads.antt =====
-- Several threads in `evfs_bit_wrapper` (linux-6.8/fs/ext4/evfs-bmt.c) on one bitmap of the tracker.
pub mod Counts
pub mod Faults
pub mod Results
pub mod Linear
pub mod Progress
use linux_evfs.Base.{
  ℕ, zero, suc, ◌+◌, ◌-◌, ◌≡◌, Bool, true, false, not, ◌||◌, Option, none, some, List, [], ◌∷◌,
  ◌++◌, ◌==◌, if◌then◌else◌,
}
use linux_evfs.Base.Int.{ℤ}
use linux_evfs.Tracker.{EvfsBitop, EvfsBitmap, Run, done, oops, zeroed, is_some, run_bitop}

-- A semaphore that threads share: how many hold it for reading, and whether one does for writing.
-- As linux/rwsem.h says, `down_read` returns while none holds it for writing, and `down_write` while none
-- holds it at all.
pub record SharedRwsem (S : Type 0) : Type 0 where
  pub readers : S → ℕ
  pub writer : S → Bool
  pub down_read : S → S
  pub up_read : S → S
  pub down_write : S → S
  pub downgrade_write : S → S
  pub down_read_lem :
      (s : S)
      → writer s ≡ false
      → (readers (down_read s) ≡ readers s + 1) × (writer (down_read s) ≡ false)
  pub up_read_lem :
      (s : S) → (readers (up_read s) ≡ readers s - 1) × (writer (up_read s) ≡ writer s)
  pub down_write_lem :
      (s : S)
      → writer s ≡ false
      → readers s ≡ 0
      → (readers (down_write s) ≡ 0) × (writer (down_write s) ≡ true)
  pub downgrade_write_lem :
      (s : S)
      → writer s ≡ true
      → (readers (downgrade_write s) ≡ readers s + 1) × (writer (downgrade_write s) ≡ false)

-- What the threads share: `rwsems[bitmap_num]` and `bitmaps[bitmap_num]`.
pub record Shared (S : Type 0) : Type 0 where
  pub rwsem : S
  pub bitmap : Option EvfsBitmap

-- Where a thread is: before `down_read`, before the first test, before `up_read`, before `down_write`,
-- before the second test, before `evfs_bm_alloc`, before `downgrade_write`, before the operation, before the last `up_read`, at
-- the end, and after a read through the null pointer.
pub data Pc : Type 0 where
  start : Pc
  reading : Pc
  missing : Pc
  waiting : Pc
  writing : Pc
  absent : Pc
  filled : Pc
  ready : Pc
  operated : ℤ → Pc
  finished : ℤ → Pc
  faulted : Pc

pub record Thread : Type 0 where
  pub op : EvfsBitop
  pub offset : ℕ
  pub pc : Pc

module _ {S : Type 0} (k : SharedRwsem S) where
  open k use {readers, writer, down_read, up_read, down_write, downgrade_write}

  -- The call through the union.
  unfoldable pub operate : EvfsBitop → ℕ → Shared S → Pc × Shared S
  operate op offset m = elim (run_bitop op offset m.bitmap) [
    | oops ↦ (faulted, m)
    | done r ↦ (operated r.0, record m { bitmap = some r.1 })
  ]

  -- The next step of a thread; none when it is blocked or at its end. The flag says whether an
  -- allocation in this step succeeds.
  unfoldable pub move : Bool → EvfsBitop → ℕ → Pc → Shared S → Option (Pc × Shared S)
  move kzalloc_ok op offset start m =
      if writer m.rwsem then none else some (reading, record m { rwsem = down_read m.rwsem })
  move kzalloc_ok op offset reading m = some (if is_some m.bitmap then ready else missing, m)
  move kzalloc_ok op offset missing m = some (waiting, record m { rwsem = up_read m.rwsem })
  move kzalloc_ok op offset waiting m =
      if writer m.rwsem
      then none
      else (if readers m.rwsem == 0
          then some (writing, record m { rwsem = down_write m.rwsem })
          else none)
  move kzalloc_ok op offset writing m = some (if is_some m.bitmap then filled else absent, m)
  move kzalloc_ok op offset absent m =
      some (filled, if kzalloc_ok then record m { bitmap = some zeroed } else m)
  move kzalloc_ok op offset filled m = some (ready, record m { rwsem = downgrade_write m.rwsem })
  move kzalloc_ok op offset ready m = some (operate op offset m)
  move kzalloc_ok op offset (operated r) m = some (finished r, record m { rwsem = up_read m.rwsem })
  move kzalloc_ok op offset (finished r) m = none
  move kzalloc_ok op offset faulted m = none

-- The operations that ran, with their results.
pub record Event : Type 0 where
  pub op : EvfsBitop
  pub offset : ℕ
  pub ret : ℤ

-- What a step from the first place to the second adds to them.
unfoldable pub events : EvfsBitop → ℕ → Pc → Pc → List Event
events op offset ready (operated r) = record { op = op; offset = offset; ret = r } ∷ []
events op offset p p' = []

pub record System (S : Type 0) : Type 0 where
  pub shared : Shared S
  pub threads : List Thread

-- One thread takes a step. Where allocations do not fail, the step's does not.
pub record Step {S : Type 0} (k : SharedRwsem S) (may_fail : Bool) (s : System S) (es : List Event)
    (s' : System S) : Type 0 where
  pub kzalloc_ok : Bool
  pub before : List Thread
  pub thread : Thread
  pub after : List Thread
  pub pc : Pc
  pub alloc : may_fail ≡ false → kzalloc_ok ≡ true
  pub from : s.threads ≡ before ++ thread ∷ after
  pub to : s'.threads ≡ before ++ record thread { pc = pc } ∷ after
  pub moves : move k kzalloc_ok thread.op thread.offset thread.pc s.shared ≡ some (pc, s'.shared)
  pub happens : es ≡ events thread.op thread.offset thread.pc pc

-- All threads begin at the start, and the semaphore is free.
pub data Runs {S : Type 0} (k : SharedRwsem S) (may_fail : Bool) (s : System S)
    : ℕ → List Event → System S → Type 0 where
  stop : Runs k may_fail s 0 [] s
  more :
      {n : ℕ} {log es : List Event} {s' s'' : System S}
      → Runs k may_fail s n log s'
      → Step k may_fail s' es s''
      → Runs k may_fail s (suc n) (es ++ log) s''

-- The sum over all threads.
abbrev pub total : (Pc → ℕ) → List Thread → ℕ
total f [] = 0
total f (t ∷ ts) = f t.pc + total f ts

abbrev pub has_moved : Pc → ℕ
has_moved start = 0
has_moved p = 1

-- The semaphore is free, and no thread has left the start.
pub record IsStart {S : Type 0} (k : SharedRwsem S) (s : System S) : Type 0 where
  pub no_readers : k.readers s.shared.rwsem ≡ 0
  pub no_writer : k.writer s.shared.rwsem ≡ false
  pub all_start : total has_moved s.threads ≡ 0
