-- ===== src/Tracker/Threads/Results.antt =====
-- What the threads in `evfs_bit_wrapper` (evfs-bmt.c) return, against the log of the operations.
use linux_evfs.Base.{ℕ, ◌≡◌, refl, inl, inr, Bool, some, List, [], ◌∷◌, ◌++◌, arith, Option-cases}
use mathlib.Core.List.{Perm, perm_middle, append_assoc}
use mathlib.Core.List.Perm
use linux_evfs.Tracker.{EvfsBitop}
use linux_evfs.Tracker.Threads.{
  SharedRwsem, Shared, Pc, start, reading, missing, waiting, writing, absent, filled, ready,
  operated, finished, faulted, Thread, operate, move, System, Event, events, Step, total, has_moved,
}
use linux_evfs.Tracker.Threads.Counts.{start_of}
use linux_evfs.Tracker.Threads.Faults.{operate-none, operate-done}

-- A thread behind its operation.
abbrev pub has_operated : Pc → ℕ
has_operated (operated r) = 1
has_operated (finished r) = 1
has_operated p = 0

-- What a thread got from its operation, and returns.
abbrev pub returned : EvfsBitop → ℕ → Pc → List Event
returned op offset (operated r) = record { op = op; offset = offset; ret = r } ∷ []
returned op offset (finished r) = record { op = op; offset = offset; ret = r } ∷ []
returned op offset p = []

-- The same of all threads.
abbrev pub results : List Thread → List Event
results [] = []
results (t ∷ ts) = returned t.op t.offset t.pc ++ results ts

returned-before :
    (op : EvfsBitop) (offset : ℕ) (p : Pc) → has_operated p ≡ 0 → returned op offset p ≡ []
returned-before op offset start h = refl
returned-before op offset reading h = refl
returned-before op offset missing h = refl
returned-before op offset waiting h = refl
returned-before op offset writing h = refl
returned-before op offset absent h = refl
returned-before op offset filled h = refl
returned-before op offset ready h = refl
returned-before op offset (operated r) h = absurd (omega (arith, h))
returned-before op offset (finished r) h = absurd (omega (arith, h))
returned-before op offset faulted h = refl

pub results-start : (ts : List Thread) → total has_moved ts ≡ 0 → results ts ≡ []
results-start [] h = refl
results-start (t ∷ ts) h =
    rw (start_of t.pc (omega (arith, h))) (results-start ts (omega (arith, h)))

append-Perm : (es xs bs : List Event) → Perm (es ++ (xs ++ bs)) (xs ++ (es ++ bs))
append-Perm [] xs bs = Perm.refl (xs ++ bs)
append-Perm (e ∷ es) xs bs =
    Perm.trans (Perm.cons e (append-Perm es xs bs)) (Perm.symm (perm_middle xs (es ++ bs)))

results-change :
    (es : List Event) (before : List Thread) (t t' : Thread) (after : List Thread)
    → returned t'.op t'.offset t'.pc ≡ es ++ returned t.op t.offset t.pc
    → Perm (es ++ results (before ++ t ∷ after)) (results (before ++ t' ∷ after))
results-change es [] t t' after h =
    rw (h, append_assoc es (returned t.op t.offset t.pc) (results after)) (Perm.refl _)
results-change es (x ∷ xs) t t' after h =
    let own = returned x.op x.offset x.pc in
    Perm.trans (append-Perm es own (results (xs ++ t ∷ after)))
      (Perm.append_left own (results-change es xs t t' after h))

module _ {S : Type 0} (k : SharedRwsem S) where
  ready-returned :
      (op : EvfsBitop) (offset : ℕ) (p' : Pc) (m m' : Shared S)
      → operate k op offset m ≡ (p', m')
      → returned op offset p' ≡ events op offset ready p' ++ []
  unfolding events
  ready-returned op offset p' m m' e = elim (Option-cases m.bitmap) [
    | inl nothing ↦
        let at : p' ≡ faulted = ground (arith, e, operate-none k op offset m nothing) in rw at refl
    | inr (b, there) ↦
        let (r, run, o) = operate-done k op offset m b there in
        let at : p' ≡ operated r.0 = ground (arith, e, o) in rw at refl
  ]

  move-returned :
      (ok : Bool) (op : EvfsBitop) (offset : ℕ) (p p' : Pc) (m m' : Shared S)
      → move k ok op offset p m ≡ some (p', m')
      → returned op offset p' ≡ events op offset p p' ++ returned op offset p
  unfolding move events
  move-returned ok op offset start p' m m' e = returned-before op offset p' (ground (arith, e))
  move-returned ok op offset reading p' m m' e = returned-before op offset p' (ground (arith, e))
  move-returned ok op offset missing p' m m' e = returned-before op offset p' (ground (arith, e))
  move-returned ok op offset waiting p' m m' e = returned-before op offset p' (ground (arith, e))
  move-returned ok op offset writing p' m m' e = returned-before op offset p' (ground (arith, e))
  move-returned ok op offset absent p' m m' e = returned-before op offset p' (ground (arith, e))
  move-returned ok op offset filled p' m m' e = returned-before op offset p' (ground (arith, e))
  move-returned ok op offset ready p' m m' e = ready-returned op offset p' m m' (ground (arith, e))
  move-returned ok op offset (operated r) p' m m' e =
      let at : p' ≡ finished r = ground (arith, e) in rw at refl
  move-returned ok op offset (finished r) p' m m' e = absurd (cc e)
  move-returned ok op offset faulted p' m m' e = absurd (cc e)

  pub Step-results :
      (may_fail : Bool) (s s' : System S) (log es : List Event)
      → Perm log (results s.threads)
      → Step k may_fail s es s'
      → Perm (es ++ log) (results s'.threads)
  Step-results may_fail s s' log es h x =
      let moved =
        move-returned x.kzalloc_ok x.thread.op x.thread.offset x.thread.pc x.pc s.shared s'.shared
          x.moves in
      let own = events x.thread.op x.thread.offset x.thread.pc x.pc in
      let all : Perm log (results (x.before ++ x.thread ∷ x.after)) = rw (x.from) at h in
      rw (x.to, x.happens)
        (Perm.trans (Perm.append_left own all)
          (results-change own x.before x.thread (record (x.thread) { pc = x.pc }) x.after moved))
