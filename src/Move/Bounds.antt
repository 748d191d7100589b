-- ===== src/Move/Bounds.antt =====
-- The array and the locks of `evfs_extent_move` and `evfs_extent_read` (evfs.c), for any tree.
use linux_evfs.Base.{
  ℕ, zero, suc, ◌≤◌, ◌≡◌, inl, inr, Option, none, some, List, arith, length, ◌==◌, Bool-cases,
  Option-cases,
}
use linux_evfs.Base.Int.{ℤ, pos, negsuc, is_neg}
use mathlib.Core.Option
use linux_evfs.Extent.{EvfsExt, TreeOps, evfs_extent_map}
use linux_evfs.Move.{
  Held, State, MoveKernel, MvIn, MvOut, evfs_iver, put_first, move_loop, evfs_extent_move,
}

-- What is returned and written, by how `ext4_iget` ended.
abbrev pub Answers : Option ℕ → List EvfsExt → ℤ → Option ℕ → List EvfsExt → Type 0
Answers none exts ret num_exts out = ret ≡ pos 0
Answers (some e) exts ret num_exts out = (ret ≡ negsuc e) × (num_exts ≡ none) × (out ≡ exts)

abbrev pub get_num : Option ℕ → ℕ
get_num none = 0
get_num (some n) = n

module _ {T : Type 0} (ops : TreeOps T) (k : MoveKernel) where
  -- What a call of `evfs_extent_move` that ends leaves.
  abbrev Bounded : ℕ → Option (MvOut × T) → Type 0
  Bounded n none = Unit
  Bounded n (some (o, t)) = length o.exts ≤ n

  Bounded-put_first :
      (n : ℕ) (e : EvfsExt) (r : Option (MvOut × T))
      → Bounded n r
      → Bounded (suc n) (Option.map (put_first ops k e) r)
  Bounded-put_first n e none h = tt
  Bounded-put_first n e (some (o, t)) h = omega arith

  move_loop-Bounded :
      (fuel n : ℕ) (curr : EvfsExt) (t : T) → Bounded n (move_loop ops k fuel n curr t)
  unfolding move_loop
  move_loop-Bounded fuel zero curr t = omega arith
  move_loop-Bounded fuel (suc n) curr t = elim (Bool-cases (curr.len == 0)) [
    | inl e ↦ rw e (omega arith)
    | inr e ↦ rw e (elim (Option-cases (evfs_extent_map ops fuel curr t)) [
      | inl out_of_fuel ↦ rw out_of_fuel tt
      | inr (m, e') ↦ rw e' (elim (Bool-cases (is_neg m.ret)) [
        | inl failed ↦ rw failed (omega arith)
        | inr mapped ↦ rw mapped (
            Bounded-put_first n m.curr (move_loop ops k fuel n m.next m.tree)
              (move_loop-Bounded fuel n m.next m.tree))
      ])
    ])
  ]

  -- The end of a call of `evfs_extent_move`: at most `n` entries of the array are written, and the
  -- counts of what is held are those of `h`.
  pub IsClean : ℕ → Held → MvOut × State T → Type 0
  IsClean n h (o, s) = (length o.exts ≤ n) × (s.held ≡ h)

  abbrev Ends : ℕ → Held → Option (MvOut × State T) → Type 0
  Ends n h none = Unit
  Ends n h (some r) = (length r.0.exts ≤ n) × (r.1.held ≡ h)

  -- The part behind the loop.
  Ends-after :
      (n : ℕ) (h : Held) (f : MvOut × T → MvOut × State T) (r : Option (MvOut × T))
      → Bounded n r
      → ((o : MvOut) (t : T) → ((f (o, t)).0.exts ≡ o.exts) × ((f (o, t)).1.held ≡ h))
      → Ends n h (Option.map f r)
  Ends-after n h f none b keep = tt
  Ends-after n h f (some (o, t)) b keep = (rw (keep o t).0 b, (keep o t).1)

  evfs_extent_move-Ends :
      (fuel : ℕ) (args : MvIn) (s : State T)
      → Ends args.ext.len s.held (evfs_extent_move ops k fuel args s)
  unfolding evfs_extent_move evfs_iver
  evfs_extent_move-Ends fuel args s = elim (Option-cases (k.ext4_iget args.ino_num)) [
    | inr (n, e) ↦ rw (Ends, e) (ground arith)
    | inl e ↦
        rw (Ends, e)
          (elim (Bool-cases ((evfs_iver s).1 == args.exp_iver)) [
            | inr other ↦ rw other (ground arith)
            | inl same ↦ rw same (elim (Option-cases k.ext4_journal_start) [
              | inr (n, e) ↦ rw e (ground arith)
              | inl e ↦ rw e (
                  Ends-after args.ext.len s.held _ _
                    (move_loop-Bounded fuel args.ext.len args.ext s.tree) (λ o t. ground arith))
            ])
          ])
  ]

  -- Whenever a call of `evfs_extent_move` ends, it has written at most as many entries as the
  -- array has, which the caller allocates with `args->in.ext.len` entries, and holds no lock,
  -- reference or handle that it did not hold before. A call that faults on an error pointer of
  -- `ext4_find_extent` does not end.
  pub evfs_extent_move-IsClean :
      (fuel : ℕ) (args : MvIn) (s : State T) (r : MvOut × State T)
      → evfs_extent_move ops k fuel args s ≡ some r
      → IsClean args.ext.len s.held r
  unfolding IsClean
  evfs_extent_move-IsClean fuel args s r e = rw e at (evfs_extent_move-Ends fuel args s)

  -- How a call of `evfs_extent_read` ends that writes inside the array alone.
  pub record ReadEnds (max_num_exts : ℕ) (iget : Option ℕ) (exts : List EvfsExt) (s : State T)
      (o : Option ((ℤ × Option ℕ × List EvfsExt) × State T)) : Type 0 where
    pub ret : ℤ
    pub num_exts : Option ℕ
    pub out : List EvfsExt
    pub after : State T
    pub runs : o ≡ some ((ret, num_exts, out), after)
    pub few : get_num num_exts ≤ max_num_exts
    pub size : length out ≡ length exts
    pub held : after.held ≡ s.held
    pub answers : Answers iget exts ret num_exts out
