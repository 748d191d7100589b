-- ===== src/Tracker/Threads/Progress.antt =====
-- Threads in `evfs_bit_wrapper` (evfs-bmt.c) that wait for each other.
use linux_evfs.Base.{
  ℕ, ◌<◌, ◌≡◌, ◌⊎◌, refl, ap, ◌∙◌, inl, inr, true, false, none, some, List, [], ◌∷◌, ◌++◌, arith,
  Bool-cases, Option-cases,
}
use linux_evfs.Tracker.{EvfsBitop}
use linux_evfs.Tracker.Threads.{
  SharedRwsem, Shared, Pc, start, reading, missing, waiting, writing, absent, filled, ready,
  operated, finished, faulted, Thread, move, System, Event, events, Step, Runs, total, IsStart,
}
use linux_evfs.Tracker.Threads.Counts.{reads, writes, has_faulted, Runs-IsHeld}
use linux_evfs.Tracker.Threads.Faults.{evfs_bit_wrapper-no_fault}

abbrev pub is_unfinished : Pc → ℕ
is_unfinished (finished r) = 0
is_unfinished p = 1

module _ {S : Type 0} (k : SharedRwsem S) where
  open k use {readers, writer}

  abbrev AllStuck : Shared S → List Thread → Type 0
  AllStuck m [] = m ≡ m
  AllStuck m (t ∷ ts) = (move k true t.op t.offset t.pc m ≡ none) × AllStuck m ts

  stuck-counts :
      (m : Shared S) (op : EvfsBitop) (offset : ℕ) (p : Pc)
      → move k true op offset p m ≡ none
      → has_faulted p ≡ 0
      → (reads p ≡ 0) × (writes p ≡ 0)
  unfolding move
  stuck-counts m op offset start e f = (refl, refl)
  stuck-counts m op offset reading e f = absurd (cc e)
  stuck-counts m op offset missing e f = absurd (cc e)
  stuck-counts m op offset waiting e f = (refl, refl)
  stuck-counts m op offset writing e f = absurd (cc e)
  stuck-counts m op offset absent e f = absurd (cc e)
  stuck-counts m op offset filled e f = absurd (cc e)
  stuck-counts m op offset ready e f = absurd (cc e)
  stuck-counts m op offset (operated r) e f = absurd (cc e)
  stuck-counts m op offset (finished r) e f = (refl, refl)
  stuck-counts m op offset faulted e f = absurd (omega (arith, f))

  stuck-finished :
      (m : Shared S) (op : EvfsBitop) (offset : ℕ) (p : Pc)
      → move k true op offset p m ≡ none
      → has_faulted p ≡ 0
      → writer m.rwsem ≡ false
      → readers m.rwsem ≡ 0
      → is_unfinished p ≡ 0
  unfolding move
  stuck-finished m op offset start e f w r = ground (arith, e, w)
  stuck-finished m op offset reading e f w r = absurd (cc e)
  stuck-finished m op offset missing e f w r = absurd (cc e)
  stuck-finished m op offset waiting e f w r = ground (arith, e, w, r)
  stuck-finished m op offset writing e f w r = absurd (cc e)
  stuck-finished m op offset absent e f w r = absurd (cc e)
  stuck-finished m op offset filled e f w r = absurd (cc e)
  stuck-finished m op offset ready e f w r = absurd (cc e)
  stuck-finished m op offset (operated v) e f w r = absurd (cc e)
  stuck-finished m op offset (finished v) e f w r = refl
  stuck-finished m op offset faulted e f w r = absurd (omega (arith, f))

  AllStuck-counts :
      (m : Shared S) (ts : List Thread)
      → AllStuck m ts
      → total has_faulted ts ≡ 0
      → (total reads ts ≡ 0) × (total writes ts ≡ 0)
  AllStuck-counts m [] a f = (refl, refl)
  AllStuck-counts m (t ∷ ts) a f =
      let here = stuck-counts m t.op t.offset t.pc a.0 (omega (arith, f)) in
      let rest = AllStuck-counts m ts a.1 (omega (arith, f)) in
      (omega (arith, here.0, rest.0), omega (arith, here.1, rest.1))

  AllStuck-finished :
      (m : Shared S) (ts : List Thread)
      → AllStuck m ts
      → total has_faulted ts ≡ 0
      → writer m.rwsem ≡ false
      → readers m.rwsem ≡ 0
      → total is_unfinished ts ≡ 0
  AllStuck-finished m [] a f w r = refl
  AllStuck-finished m (t ∷ ts) a f w r = omega (
    arith,
    stuck-finished m t.op t.offset t.pc a.0 (omega (arith, f)) w r,
    AllStuck-finished m ts a.1 (omega (arith, f)) w r,
  )

  -- A thread that can take a step.
  record Mover (m : Shared S) (ts : List Thread) : Type 0 where
    before : List Thread
    thread : Thread
    after : List Thread
    pc : Pc
    shared : Shared S
    from : ts ≡ before ++ thread ∷ after
    moves : move k true thread.op thread.offset thread.pc m ≡ some (pc, shared)

  find-Mover : (m : Shared S) (ts : List Thread) → Mover m ts ⊎ AllStuck m ts
  find-Mover m [] = inr refl
  find-Mover m (t ∷ ts) = elim (Option-cases (move k true t.op t.offset t.pc m)) [
    | inr r ↦ inl (record {
      before = [];
      thread = t;
      after = ts;
      pc = r.0.0;
      shared = r.0.1;
      from = refl;
      moves = r.1;
    })
    | inl stuck ↦ elim (find-Mover m ts) [
      | inl v ↦ inl (record {
        before = t ∷ v.before;
        thread = v.thread;
        after = v.after;
        pc = v.pc;
        shared = v.shared;
        from = ap (λ ys. t ∷ ys) v.from;
        moves = v.moves;
      })
      | inr rest ↦ inr (stuck, rest)
    ]
  ]

  -- When no allocation fails, some thread can take a step as long as one is not at its end: the
  -- threads never wait for each other in a circle.
  pub evfs_bit_wrapper-progress :
      (s s' : System S) (n : ℕ) (log : List Event)
      → IsStart k s
      → Runs k false s n log s'
      → 0 < total is_unfinished s'.threads
      → (es : List Event) × (s'' : System S) × Step k false s' es s''
  evfs_bit_wrapper-progress s s' n log h run unfinished = elim (find-Mover s'.shared s'.threads) [
    | inl v ↦ (
      events v.thread.op v.thread.offset v.thread.pc v.pc,
      record { shared = v.shared; threads = v.before ++ record (v.thread) { pc = v.pc } ∷ v.after },
      record {
        kzalloc_ok = true;
        before = v.before;
        thread = v.thread;
        after = v.after;
        pc = v.pc;
        alloc = λ e. refl;
        from = v.from;
        to = refl;
        moves = v.moves;
        happens = refl;
      },
    )
    | inr stuck ↦
        let f = evfs_bit_wrapper-no_fault k s s' n log h run in
        let c = AllStuck-counts s'.shared s'.threads stuck f in
        let held = Runs-IsHeld k h run in
        let w : writer s'.shared.rwsem ≡ false =
          ground (arith, held.writes_eq, c.1, Bool-cases (writer s'.shared.rwsem)) in
        let r : readers s'.shared.rwsem ≡ 0 = held.reads_eq ∙ c.0 in
        absurd (omega (arith, unfinished, AllStuck-finished s'.shared s'.threads stuck f w r))
  ]
