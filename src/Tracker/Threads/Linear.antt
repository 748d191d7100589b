-- ===== src/Tracker/Threads/Linear.antt =====
-- The operations of several threads in `evfs_bit_wrapper` (evfs-bmt.c) as a sequence.
use linux_evfs.Base.{
  ℕ, ◌+◌, ◌≤◌, ◌<◌, false, Bool-cases, ◌≡◌, refl, sym, inl, inr, Bool, Option, none, some, List, [],
  ◌∷◌, ◌++◌, arith, Option-cases,
}
use mathlib.Core.List.{Perm}
use mathlib.Core.List.Perm
use linux_evfs.Tracker.Kernel.{Bits}
use linux_evfs.Tracker.{EvfsBitop, EvfsBitmap, is_some, done, zeroed, run_bitop}
use linux_evfs.Tracker.Threads.{
  SharedRwsem, Shared, Pc, start, reading, missing, waiting, writing, absent, filled, ready,
  operated, finished, faulted, operate, move, Thread, System, Event, events, Runs, stop, more,
  total, IsStart,
}
use linux_evfs.Tracker.Threads.Counts.{
  total-start, total-others, total-ge, reads, writes, Held, Runs-IsHeld,
}
use linux_evfs.Tracker.Threads.Faults.{operate-none, operate-done}
use linux_evfs.Tracker.Threads.Results.{results, results-start, Step-results}

-- The bits that a pointer of the tracker stands for: without a bitmap, all of them are clear.
abbrev pub bits_of : Option EvfsBitmap → Bits
bits_of none = zeroed.words
bits_of (some b) = b.words

-- The operations of a log, the last one first, take the bits `from` to the bits `to` one after the other, and
-- return what the log says.
abbrev pub Replays : List Event → Bits → Bits → Type 0
Replays [] from to = to ≡ from
Replays (e ∷ es) from to =
    (mid : Bits) × Replays es from mid
    × (run_bitop e.op e.offset (some (record { words = mid }))
        ≡ done (e.ret, record { words = to }))

module _ {S : Type 0} (k : SharedRwsem S) where
  abbrev is_absent : Pc → ℕ
  is_absent absent = 1
  is_absent p = 0

  absent-writes : (ts : List Thread) → total is_absent ts ≤ total writes ts
  absent-writes [] = omega arith
  absent-writes (t ∷ ts) =
      let here : is_absent t.pc ≤ writes t.pc = ground arith in
      omega (arith, here, absent-writes ts)

  -- A move, while the threads that found no bitmap still find none.
  move-absent :
      (ok : Bool) (op : EvfsBitop) (offset : ℕ) (p p' : Pc) (m m' : Shared S) (rs ws others : ℕ)
      → Held k m (rs + reads p) (ws + writes p)
      → others ≤ ws
      → (0 < others + is_absent p → is_some m.bitmap ≡ false)
      → move k ok op offset p m ≡ some (p', m')
      → 0 < others + is_absent p'
      → is_some m'.bitmap ≡ false
  unfolding move operate
  move-absent ok op offset start p' m m' rs ws others h le nothing e more_than =
      ground (arith, e, nothing, more_than)
  move-absent ok op offset reading p' m m' rs ws others h le nothing e more_than =
      ground (arith, e, nothing, more_than)
  move-absent ok op offset missing p' m m' rs ws others h le nothing e more_than =
      ground (arith, e, nothing, more_than)
  move-absent ok op offset waiting p' m m' rs ws others h le nothing e more_than =
      ground (arith, e, nothing, more_than)
  move-absent ok op offset writing p' m m' rs ws others h le nothing e more_than =
      ground (arith, e, nothing, more_than)
  move-absent ok op offset absent p' m m' rs ws others h le nothing e more_than =
      absurd (ground (arith, e, le, h.writes_eq, more_than, Bool-cases (k.writer m.rwsem)))
  move-absent ok op offset filled p' m m' rs ws others h le nothing e more_than =
      ground (arith, e, nothing, more_than)
  move-absent ok op offset ready p' m m' rs ws others h le nothing e more_than = absurd (
      ground
        (arith, e, le, h.reads_eq, h.writes_eq, h.apart, more_than, Bool-cases (k.writer m.rwsem)))
  move-absent ok op offset (operated r) p' m m' rs ws others h le nothing e more_than =
      ground (arith, e, nothing, more_than)
  move-absent ok op offset (finished r) p' m m' rs ws others h le nothing e more_than =
      absurd (cc e)
  move-absent ok op offset faulted p' m m' rs ws others h le nothing e more_than = absurd (cc e)

  -- A thread that found no bitmap still finds none: no other holds the semaphore.
  Runs-absent :
      {may_fail : Bool} {s s' : System S} {n : ℕ} {log : List Event}
      → IsStart k s
      → Runs k may_fail s n log s'
      → 0 < total is_absent s'.threads
      → is_some s'.shared.bitmap ≡ false
  Runs-absent {s = s} h stop more_than =
      absurd (omega (arith, more_than, total-start is_absent refl s.threads h.all_start))
  Runs-absent h (more {s' = s'} {s'' = s''} run x) more_than =
      let (rs, re) = total-others reads x.before x.thread x.after in
      let (ws, we) = total-others writes x.before x.thread x.after in
      let (others, oe) = total-others is_absent x.before x.thread x.after in
      let at_start = x.before ++ record (x.thread) { pc = start } ∷ x.after in
      let le : others ≤ ws = omega (arith, absent-writes at_start, oe start, we start) in
      let held : Held k s'.shared (rs + reads x.thread.pc) (ws + writes x.thread.pc) =
        rw (x.from, re x.thread.pc, we x.thread.pc) at (Runs-IsHeld k h run) in
      let nothing : 0 < others + is_absent x.thread.pc → is_some s'.shared.bitmap ≡ false =
        rw (x.from, oe x.thread.pc) at (Runs-absent h run) in
      move-absent x.kzalloc_ok x.thread.op x.thread.offset x.thread.pc x.pc s'.shared s''.shared rs
        ws others held le nothing x.moves (rw (x.to, oe x.pc) at more_than)

  record IsLogged (m m' : Shared S) (p p' : Pc) (es : List Event) : Type 0 where
    bits :
        (b : Bits)
        → (log : List Event) → Replays log b (bits_of m.bitmap)
        → Replays (es ++ log) b (bits_of m'.bitmap)

  unlogged :
      (m m' : Shared S) (p p' : Pc) → bits_of m'.bitmap ≡ bits_of m.bitmap → IsLogged m m' p p' []
  unlogged m m' p p' e = record { bits = λ b log r. rw e r }

  ready-IsLogged :
      (op : EvfsBitop) (offset : ℕ) (p' : Pc) (m m' : Shared S)
      → operate k op offset m ≡ (p', m')
      → IsLogged m m' ready p' (events op offset ready p')
  unfolding events
  ready-IsLogged op offset p' m m' e = elim (Option-cases m.bitmap) [
    | inl nothing ↦
        let o = operate-none k op offset m nothing in
        let at : p' ≡ faulted = ground (arith, e, o) in
        rw at (unlogged m m' ready faulted (ground (arith, e, o)))
    | inr (b, there) ↦
        let (r, run, o) = operate-done k op offset m b there in
        let at : p' ≡ operated r.0 = ground (arith, e, o) in
        let new : m'.bitmap ≡ some r.1 = ground (arith, e, o) in
        rw at (record { bits = λ old log rep. (bits_of m.bitmap, rep, rw (there, new) run) })
  ]

  move-IsLogged :
      (ok : Bool) (op : EvfsBitop) (offset : ℕ) (p p' : Pc) (m m' : Shared S)
      → move k ok op offset p m ≡ some (p', m')
      → (0 < is_absent p → is_some m.bitmap ≡ false)
      → IsLogged m m' p p' (events op offset p p')
  unfolding move events
  move-IsLogged ok op offset start p' m m' e nothing = unlogged m m' start p' (ground (arith, e))
  move-IsLogged ok op offset reading p' m m' e nothing =
      unlogged m m' reading p' (ground (arith, e))
  move-IsLogged ok op offset missing p' m m' e nothing =
      unlogged m m' missing p' (ground (arith, e))
  move-IsLogged ok op offset waiting p' m m' e nothing =
      unlogged m m' waiting p' (ground (arith, e))
  move-IsLogged ok op offset writing p' m m' e nothing =
      unlogged m m' writing p' (ground (arith, e))
  move-IsLogged ok op offset absent p' m m' e nothing = elim (Option-cases m.bitmap) [
    | inl gone ↦ unlogged m m' absent p' (ground (arith, e, gone))
    | inr (b, there) ↦ absurd (ground (arith, nothing (omega arith), there))
  ]
  move-IsLogged ok op offset filled p' m m' e nothing = unlogged m m' filled p' (ground (arith, e))
  move-IsLogged ok op offset ready p' m m' e nothing =
      ready-IsLogged op offset p' m m' (ground (arith, e))
  move-IsLogged ok op offset (operated r) p' m m' e nothing =
      unlogged m m' (operated r) p' (ground (arith, e))
  move-IsLogged ok op offset (finished r) p' m m' e nothing = absurd (cc e)
  move-IsLogged ok op offset faulted p' m m' e nothing = absurd (cc e)

  Runs-Replays :
      {may_fail : Bool} {s s' : System S} {n : ℕ} {log : List Event}
      → IsStart k s
      → Runs k may_fail s n log s'
      → Replays log (bits_of s.shared.bitmap) (bits_of s'.shared.bitmap)
        × Perm log (results s'.threads)
  Runs-Replays {s = s} h stop = (refl, rw (results-start s.threads h.all_start) (Perm.refl []))
  Runs-Replays {may_fail = may_fail} {s = s} h
        (more {log = log} {es = es} {s' = s'} {s'' = s''} run x) =
      let ih = Runs-Replays h run in
      let own : 0 < is_absent x.thread.pc → is_some s'.shared.bitmap ≡ false = λ absent_here.
        Runs-absent h run (
          rw (x.from) (omega (arith, absent_here, total-ge is_absent x.before x.thread x.after))) in
      let l = rw (sym x.happens) at (
        move-IsLogged x.kzalloc_ok x.thread.op x.thread.offset x.thread.pc x.pc s'.shared s''.shared
          x.moves own) in
      (l.bits (bits_of s.shared.bitmap) log ih.0, Step-results k may_fail s' s'' log es ih.1 x)

  -- Whatever the order of the steps and whichever allocations fail, the bitmap is as if the
  -- operations had run one after the other on it, in the order of the log and without the locks,
  -- the tests and the allocation, and each had returned there what the log says. The log is, up to
  -- the order, what the threads that are behind their operation return: each of them ran its
  -- operation once, and returns its result at that place. The semaphore is free at the start, and
  -- no thread has left it.
  pub evfs_bit_wrapper-linear :
      (may_fail : Bool) (s s' : System S) (n : ℕ) (log : List Event)
      → IsStart k s
      → Runs k may_fail s n log s'
      → Replays log (bits_of s.shared.bitmap) (bits_of s'.shared.bitmap)
        × Perm log (results s'.threads)
  evfs_bit_wrapper-linear may_fail s s' n log h run = Runs-Replays h run
