-- ===== src/Tracker/Threads/Faults.antt =====
-- The null pointer that the operation of `evfs_bit_wrapper` (evfs-bmt.c) reads through.
use linux_evfs.Base.{
  ℕ, ◌+◌, ◌<◌, ◌≡◌, refl, inl, inr, true, false, none, some, List, ◌∷◌, ◌++◌, arith, Option-cases,
}
use linux_evfs.Base.Int.{ℤ}
use linux_evfs.Tracker.{EvfsBitop, EvfsBitmap, done, is_some, run_bitop, ebo_void, ebo_bool}
use linux_evfs.Tracker.Threads.{
  SharedRwsem, Shared, Pc, start, reading, missing, waiting, writing, absent, filled, ready,
  operated, finished, faulted, operate, move, System, Event, Step, Runs, stop, more, total, IsStart,
}
use linux_evfs.Tracker.Threads.Counts.{total-start, total-others, is_ready, has_faulted}

module _ {S : Type 0} (k : SharedRwsem S) where
  -- The operation on a bitmap that is there.
  pub operate-done :
      (op : EvfsBitop) (offset : ℕ) (m : Shared S) (b : EvfsBitmap)
      → m.bitmap ≡ some b
      → (r : ℤ × EvfsBitmap) × (run_bitop op offset (some b) ≡ done r)
        × (operate k op offset m ≡ (operated r.0, record m { bitmap = some r.1 }))
  unfolding operate run_bitop
  operate-done (ebo_void f) offset m b e = (_, refl, rw e refl)
  operate-done (ebo_bool f) offset m b e = (_, refl, rw e refl)

  pub operate-none :
      (op : EvfsBitop) (offset : ℕ) (m : Shared S)
      → m.bitmap ≡ none
      → operate k op offset m ≡ (faulted, m)
  unfolding operate run_bitop
  operate-none op offset m e = rw e refl

  -- A move in which no allocation fails.
  move-filled :
      (op : EvfsBitop) (offset : ℕ) (p p' : Pc) (m m' : Shared S) (rest : ℕ)
      → (0 < rest + is_ready p → is_some m.bitmap ≡ true)
      → move k true op offset p m ≡ some (p', m')
      → (0 < rest + is_ready p' → is_some m'.bitmap ≡ true) × (has_faulted p' ≡ 0)
  unfolding move
  move-filled op offset start p' m m' rest h e = ground (arith, e, h)
  move-filled op offset reading p' m m' rest h e = ground (arith, e, h)
  move-filled op offset missing p' m m' rest h e = ground (arith, e, h)
  move-filled op offset waiting p' m m' rest h e = ground (arith, e, h)
  move-filled op offset writing p' m m' rest h e = ground (arith, e, h)
  move-filled op offset absent p' m m' rest h e = ground (arith, e, h)
  move-filled op offset filled p' m m' rest h e = ground (arith, e, h)
  move-filled op offset ready p' m m' rest h e = elim (Option-cases m.bitmap) [
    | inl none_there ↦ absurd (ground (arith, h (omega arith), none_there))
    | inr (b, there) ↦ let (r, run, o) = operate-done op offset m b there in ground (arith, e, o)
  ]
  move-filled op offset (operated r) p' m m' rest h e = ground (arith, e, h)
  move-filled op offset (finished r) p' m m' rest h e = absurd (cc e)
  move-filled op offset faulted p' m m' rest h e = absurd (cc e)

  -- A thread behind a test or an allocation finds a bitmap, and none has faulted.
  record IsFilled (s : System S) : Type 0 where
    has_bitmap : 0 < total is_ready s.threads → is_some s.shared.bitmap ≡ true
    no_fault : total has_faulted s.threads ≡ 0

  Step-IsFilled :
      (s s' : System S) (es : List Event) → IsFilled s → Step k false s es s' → IsFilled s'
  Step-IsFilled s s' es h x =
      let (rest, re) = total-others is_ready x.before x.thread x.after in
      let (fs, fe) = total-others has_faulted x.before x.thread x.after in
      let no_fault : total has_faulted (x.before ++ x.thread ∷ x.after) ≡ 0 =
        rw (x.from) at h.no_fault in
      let r =
        move-filled x.thread.op x.thread.offset x.thread.pc x.pc s.shared s'.shared rest
          (rw (x.from, re x.thread.pc) at h.has_bitmap) (rw (x.alloc refl) at x.moves) in
      record {
        has_bitmap = rw (x.to, re x.pc) r.0;
        no_fault = rw (x.to, fe x.pc) (omega (arith, r.1, fe x.thread.pc, no_fault));
      }

  Runs-IsFilled :
      {s s' : System S} {n : ℕ} {log : List Event}
      → IsStart k s
      → Runs k false s n log s'
      → IsFilled s'
  Runs-IsFilled {s = s} h stop = record {
    has_bitmap = λ p. absurd (omega (arith, p, total-start is_ready refl s.threads h.all_start));
    no_fault = total-start has_faulted refl s.threads h.all_start;
  }
  Runs-IsFilled h (more {es = es} {s' = s'} {s'' = s''} run x) =
      Step-IsFilled s' s'' es (Runs-IsFilled h run) x

  -- When no allocation fails, no thread reads through the null pointer, whatever the order of the steps.
  pub evfs_bit_wrapper-no_fault :
      (s s' : System S) (n : ℕ) (log : List Event)
      → IsStart k s
      → Runs k false s n log s'
      → total has_faulted s'.threads ≡ 0
  evfs_bit_wrapper-no_fault s s' n log h run = (Runs-IsFilled h run).no_fault
