-- ===== src/Tracker/Threads/Counts.antt =====
-- The semaphore against the places of the threads (`evfs_bit_wrapper`, evfs-bmt.c).
use linux_evfs.Base.{
  ℕ, ◌+◌, ◌≤◌, ◌<◌, ◌≡◌, refl, sym, ap, ◌∙◌, Bool, true, false, some, List, [], ◌∷◌, ◌++◌, arith,
  Bool-cases,
}
use linux_evfs.Tracker.{EvfsBitop}
use linux_evfs.Tracker.Threads.{
  SharedRwsem, Shared, Pc, start, reading, missing, waiting, writing, absent, filled, ready,
  operated, finished, faulted, Thread, operate, move, System, Event, Step, Runs, stop, more, total,
  has_moved, IsStart,
}

-- A thread that holds the semaphore for reading; one that holds it for writing; one behind the
-- second test or the test that found a bitmap, and before the operation; and one that faulted.
abbrev pub reads : Pc → ℕ
reads reading = 1
reads missing = 1
reads ready = 1
reads (operated r) = 1
reads faulted = 1
reads p = 0

abbrev pub writes : Pc → ℕ
writes writing = 1
writes absent = 1
writes filled = 1
writes p = 0

abbrev pub is_ready : Pc → ℕ
is_ready filled = 1
is_ready ready = 1
is_ready p = 0

abbrev pub has_faulted : Pc → ℕ
has_faulted faulted = 1
has_faulted p = 0

abbrev pub count : Bool → ℕ
count true = 1
count false = 0

pub total-change :
    (f : Pc → ℕ) (before : List Thread) (t t' : Thread) (after : List Thread)
    → total f (before ++ t' ∷ after) + f t.pc ≡ total f (before ++ t ∷ after) + f t'.pc
total-change f [] t t' after = omega arith
total-change f (x ∷ xs) t t' after = omega (arith, total-change f xs t t' after)

pub total-ge :
    (f : Pc → ℕ) (before : List Thread) (t : Thread) (after : List Thread)
    → f t.pc ≤ total f (before ++ t ∷ after)
total-ge f [] t after = omega arith
total-ge f (x ∷ xs) t after = omega (arith, total-ge f xs t after)

pub start_of : (p : Pc) → has_moved p ≡ 0 → p ≡ start
start_of start e = refl
start_of reading e = absurd (omega (arith, e))
start_of missing e = absurd (omega (arith, e))
start_of waiting e = absurd (omega (arith, e))
start_of writing e = absurd (omega (arith, e))
start_of absent e = absurd (omega (arith, e))
start_of filled e = absurd (omega (arith, e))
start_of ready e = absurd (omega (arith, e))
start_of (operated r) e = absurd (omega (arith, e))
start_of (finished r) e = absurd (omega (arith, e))
start_of faulted e = absurd (omega (arith, e))

-- A count of places that threads at the start do not have.
pub total-start :
    (f : Pc → ℕ) → f start ≡ 0 → (ts : List Thread) → total has_moved ts ≡ 0 → total f ts ≡ 0
total-start f h [] e = refl
total-start f h (t ∷ ts) e =
    let here : f t.pc ≡ 0 = rw (start_of t.pc (omega (arith, e))) h in
    omega (arith, here, total-start f h ts (omega (arith, e)))

pub total-others :
    (f : Pc → ℕ) (before : List Thread) (t : Thread) (after : List Thread)
    → (n : ℕ) × ((p : Pc) → total f (before ++ record t { pc = p } ∷ after) ≡ n + f p)
total-others f [] t after = (total f after, λ p. omega arith)
total-others f (x ∷ xs) t after =
    let (n, e) = total-others f xs t after in (f x.pc + n, λ p. omega (arith, e p))

module _ {S : Type 0} (k : SharedRwsem S) where
  open k use {readers, writer}

  -- The semaphore's own counts agree, and it is never held for both.
  pub record Held (m : Shared S) (rs ws : ℕ) : Type 0 where
    pub reads_eq : readers m.rwsem ≡ rs
    pub writes_eq : count (writer m.rwsem) ≡ ws
    pub apart : writer m.rwsem ≡ true → readers m.rwsem ≡ 0

  -- One move, with the counts of the other threads.
  move-Held :
      (ok : Bool) (op : EvfsBitop) (offset : ℕ) (p p' : Pc) (m m' : Shared S) (rs ws : ℕ)
      → Held m (rs + reads p) (ws + writes p)
      → move k ok op offset p m ≡ some (p', m')
      → Held m' (rs + reads p') (ws + writes p')
  unfolding move operate
  move-Held ok op offset start p' m m' rs ws h e =
      ground (arith, e, h.reads_eq, h.writes_eq, h.apart, k.down_read_lem m.rwsem)
  move-Held ok op offset reading p' m m' rs ws h e =
      ground (arith, e, h.reads_eq, h.writes_eq, h.apart)
  move-Held ok op offset missing p' m m' rs ws h e =
      ground (arith, e, h.reads_eq, h.writes_eq, h.apart, k.up_read_lem m.rwsem)
  move-Held ok op offset waiting p' m m' rs ws h e =
      ground (arith, e, h.reads_eq, h.writes_eq, h.apart, k.down_write_lem m.rwsem)
  move-Held ok op offset writing p' m m' rs ws h e =
      ground (arith, e, h.reads_eq, h.writes_eq, h.apart)
  move-Held ok op offset absent p' m m' rs ws h e =
      ground (arith, e, h.reads_eq, h.writes_eq, h.apart)
  move-Held ok op offset filled p' m m' rs ws h e =
      ground (arith, e, h.reads_eq, h.writes_eq, h.apart, k.downgrade_write_lem m.rwsem)
  move-Held ok op offset ready p' m m' rs ws h e =
      ground (arith, e, h.reads_eq, h.writes_eq, h.apart)
  move-Held ok op offset (operated r) p' m m' rs ws h e =
      ground (arith, e, h.reads_eq, h.writes_eq, h.apart, k.up_read_lem m.rwsem)
  move-Held ok op offset (finished r) p' m m' rs ws h e = absurd (cc e)
  move-Held ok op offset faulted p' m m' rs ws h e = absurd (cc e)

  -- The counts of a system.
  abbrev pub IsHeld : System S → Type 0
  IsHeld s = Held s.shared (total reads s.threads) (total writes s.threads)

  Step-IsHeld :
      (may_fail : Bool) (s s' : System S) (es : List Event)
      → IsHeld s
      → Step k may_fail s es s'
      → IsHeld s'
  Step-IsHeld may_fail s s' es h x =
      let (rs, re) = total-others reads x.before x.thread x.after in
      let (ws, we) = total-others writes x.before x.thread x.after in
      let now : Held s.shared (rs + reads x.thread.pc) (ws + writes x.thread.pc) =
        rw (x.from, re x.thread.pc, we x.thread.pc) at h in
      rw (x.to, re x.pc, we x.pc)
        (move-Held x.kzalloc_ok x.thread.op x.thread.offset x.thread.pc x.pc s.shared s'.shared rs
          ws now x.moves)

  pub Runs-IsHeld :
      {may_fail : Bool} {s s' : System S} {n : ℕ} {log : List Event}
      → IsStart k s
      → Runs k may_fail s n log s'
      → IsHeld s'
  Runs-IsHeld {s = s} h stop = record {
    reads_eq = h.no_readers ∙ sym (total-start reads refl s.threads h.all_start);
    writes_eq = ap count h.no_writer ∙ sym (total-start writes refl s.threads h.all_start);
    apart = λ e. h.no_readers;
  }
  Runs-IsHeld {may_fail = may_fail} h (more {es = es} {s' = s'} {s'' = s''} run x) =
      Step-IsHeld may_fail s' s'' es (Runs-IsHeld h run) x

  -- Whatever the order of the steps and whichever allocations fail: in every system that is reached, the
  -- semaphore counts the threads that are between their locking and unlocking calls, and while
  -- a thread is between `down_write` and `downgrade_write`, it is the only one of them.
  pub evfs_bit_wrapper-exclusion :
      (may_fail : Bool) (s s' : System S) (n : ℕ) (log : List Event)
      → IsStart k s
      → Runs k may_fail s n log s'
      → (readers s'.shared.rwsem ≡ total reads s'.threads)
        × (total writes s'.threads ≤ 1)
        × (0 < total writes s'.threads → total reads s'.threads ≡ 0)
  evfs_bit_wrapper-exclusion may_fail s s' n log start_ok run =
      let h = Runs-IsHeld start_ok run in
      (
        h.reads_eq,
        ground (arith, h.writes_eq, Bool-cases (writer s'.shared.rwsem)),
        λ w.
            ground
              (arith, w, h.writes_eq, h.reads_eq, h.apart, Bool-cases (writer s'.shared.rwsem)),
      )
