-- ===== src/Move/Replace.antt =====
-- `evfs_extent_move` (evfs.c) on a range that is mapped, over the laws of the extent tree.
use linux_evfs.Base.{
  ℕ, zero, suc, ◌+◌, ◌-◌, ◌≤◌, ◌<◌, ◌≡◌, refl, sym, ◌∙◌, inl, inr, Option, some, List, [], ◌∷◌,
  arith, ltb, if◌then◌else◌, Bool-cases, ltb→lt, ltb→le, ==_iff,
}
use linux_evfs.Base.Int.{pos}
use linux_evfs.Extent.{EvfsExt, TreeOps, Mapped, no_ext, map_loop, evfs_extent_map}
use linux_evfs.Extent.Map.{Fits}
use linux_evfs.Extent.Laws.{within, TreeLaws, NoErrors}
use linux_evfs.Extent.Replace.{IsSwapped, map_loop-IsSwapped}
use linux_evfs.Move.{Held, State, MoveKernel, MvIn, move_loop, evfs_iver, evfs_extent_move}
use linux_evfs.Move.Range.{Lists, Lists-view, Lists-none, Replaces, IsMapped, Succeeds}

module _ {T : Type 0} (ops : TreeOps T) (laws : TreeLaws ops) (ok : NoErrors ops laws)
    (k : MoveKernel) where
  open laws use {view, IsTree}

  -- The loop moved the whole range.
  record IsMoved (fuel n : ℕ) (curr : EvfsExt) (t : T) : Type 0 where
    exts : List EvfsExt
    tree : T
    runs : move_loop ops k fuel n curr t ≡ some (record { ret = pos 0; exts = exts }, tree)
    lists : Lists (view t) curr.log_start curr.len exts
    valid : IsTree tree
    replaces : Replaces curr (view t) (view tree)

  IsMoved-empty :
      (fuel n : ℕ) (curr : EvfsExt) (t : T) → IsTree t → curr.len ≡ 0 → IsMoved fuel n curr t
  unfolding move_loop
  IsMoved-empty fuel zero curr t v e = record {
    exts = [];
    tree = t;
    runs = refl;
    lists = e;
    valid = v;
    replaces = λ c. ground arith;
  }
  IsMoved-empty fuel (suc n) curr t v e = record {
    exts = [];
    tree = t;
    runs = rw ((==_iff curr.len 0).1 e);
    lists = e;
    valid = v;
    replaces = λ c. ground arith;
  }

  -- What is left after a swap is mapped too.
  IsMapped-rest :
      (curr : EvfsExt) (before after : ℕ → Option ℕ) (n : ℕ)
      → IsMapped curr before
      → n < curr.len
      → ((c : ℕ)
          → after c ≡ (
              if within curr.log_start n c
              then some (curr.phy_start + (c - curr.log_start))
              else before c))
      → IsMapped
          (record {
            log_start = curr.log_start + n;
            phy_start = curr.phy_start + n;
            len = curr.len - n;
          })
          after
  IsMapped-rest curr before after n v short same = record {
    logical = omega (arith, v.logical);
    physical = omega (arith, v.physical);
    mapped = λ i h.
        let (p, e) = v.mapped (n + i) (omega arith) in
        let at : curr.log_start + n + i ≡ curr.log_start + (n + i) = omega arith in
        (p, rw at (same (curr.log_start + (n + i)) ∙ ground (arith, e)));
  }

  module _ (f n : ℕ) (curr : EvfsExt) (t : T) (is_mapped : IsMapped curr (view t))
      (nonempty : 0 < curr.len) where
    open is_mapped use {logical, physical}

    fits : Fits curr
    fits = record { nonempty = nonempty; logical = logical; physical = omega (arith, physical) }

    -- One swap, and the rest of the loop.
    module _ (m : Mapped T)
        (runs : map_loop ops (suc (suc (suc f))) curr curr.log_start curr.len t ≡ some m)
        (s : IsSwapped ops laws ok curr fits physical t m) where
      abbrev rest : EvfsExt
      rest = record {
        log_start = curr.log_start + s.n;
        phy_start = curr.phy_start + s.n;
        len = curr.len - s.n;
      }

      module _ (exts : List EvfsExt) (tree : T)
          (more : move_loop ops k (suc (suc (suc f))) n m.next m.tree
            ≡ some (record { ret = pos 0; exts = exts }, tree))
          (valid : IsTree tree) (l : Lists (view m.tree) rest.log_start rest.len exts)
          (e : Replaces rest (view m.tree) (view tree)) where
        swapped-Lists : Lists (view t) curr.log_start curr.len (m.curr ∷ exts)
        swapped-Lists = (
          s.log_start,
          rw (s.len) (s.nonempty),
          rw (s.len) (s.short),
          λ i h. s.old i (rw s.len at h),
          rw (s.len) (
              Lists-view (view m.tree) (view t) rest.log_start rest.len exts
                (λ c h. sym (s.new c ∙ ground arith)) l),
        )

        swapped-Replaces : Replaces curr (view t) (view tree)
        swapped-Replaces c = e c ∙ ground (arith, s.new c, s.short)

        IsMoved-more : IsMoved (suc (suc (suc f))) (suc n) curr t
        unfolding move_loop evfs_extent_map
        IsMoved-more = record {
          exts = m.curr ∷ exts;
          tree = tree;
          runs = ground (arith, runs, s.ret, more, nonempty);
          lists = swapped-Lists;
          valid = valid;
          replaces = swapped-Replaces;
        }

      -- The range is done: the next round finds nothing to do.
      IsMoved-last : s.n ≡ curr.len → IsMoved (suc (suc (suc f))) (suc n) curr t
      IsMoved-last all =
          let none_left : curr.len - s.n ≡ 0 = omega (arith, all) in
          let next : m.next ≡ no_ext = s.next ∙ ground (arith, all) in
          let r = IsMoved-empty (suc (suc (suc f))) n no_ext m.tree s.valid refl in
          IsMoved-more r.exts r.tree (rw next r.runs) r.valid
            (rw none_left (Lists-none (view m.tree) 0 rest.log_start r.exts r.lists))
            (λ c. r.replaces c ∙ ground (arith, all))

      IsMoved-step :
          ((e : EvfsExt)
            → IsMapped e (view m.tree)
            → e.len ≤ n
            → IsMoved (suc (suc (suc f))) n e m.tree)
          → curr.len ≤ suc n
          → IsMoved (suc (suc (suc f))) (suc n) curr t
      IsMoved-step ih enough = elim (Bool-cases (ltb s.n curr.len)) [
        | inr all ↦ IsMoved-last (omega (arith, s.short, ltb→le s.n curr.len all))
        | inl left ↦
            let next : m.next ≡ rest = s.next ∙ ground (arith, left) in
            let r =
              ih rest
                (IsMapped-rest curr (view t) (view m.tree) s.n is_mapped (ltb→lt s.n curr.len left)
                  s.new)
                (omega (arith, s.nonempty)) in
            IsMoved-more r.exts r.tree (rw next r.runs) r.valid r.lists r.replaces
      ]

  move_loop-IsMoved :
      (f n : ℕ) (curr : EvfsExt) (t : T)
      → IsTree t
      → IsMapped curr (view t)
      → curr.len ≤ n
      → IsMoved (suc (suc (suc f))) n curr t
  move_loop-IsMoved f zero curr t v is_mapped enough =
      IsMoved-empty (suc (suc (suc f))) zero curr t v (omega arith)
  move_loop-IsMoved f (suc n) curr t v is_mapped enough = elim (Bool-cases (ltb 0 curr.len)) [
    | inr empty ↦
        IsMoved-empty (suc (suc (suc f))) (suc n) curr t v (omega (arith, ltb→le 0 curr.len empty))
    | inl more ↦
        let nonempty = ltb→lt 0 curr.len more in
        let (p, first) = is_mapped.mapped 0 nonempty in
        let at : curr.log_start + 0 ≡ curr.log_start = omega arith in
        let (m, runs, s) =
          map_loop-IsSwapped ops laws ok curr (fits f n curr t is_mapped nonempty)
            is_mapped.physical f t p v (rw at at first) in
        IsMoved-step f n curr t is_mapped nonempty m runs s
          (λ e mapped small. move_loop-IsMoved f n e m.tree s.valid mapped small) enough
  ]

  held-undo :
      (h : Held)
      → record h {
        writers = h.writers + 1 - 1;
        inode_locks = h.inode_locks + 1 - 1;
        inode_refs = h.inode_refs + 1 - 1;
        handles = h.handles + 1 - 1;
      }
        ≡ h
  held-undo h = grind arith

  -- When every block of the range is mapped, the version is the expected one and no call fails, the
  -- move ends with three rounds for each extent. It returns 0 with the old extents of the range
  -- in order. Of the map from logical to physical blocks exactly the range changes, to the new place,
  -- and nothing else of the state.
  pub evfs_extent_move_lem :
      (f : ℕ) (args : MvIn) (s : State T)
      → IsTree s.tree
      → IsMapped args.ext (view s.tree)
      → Succeeds k args s
      → (exts : List EvfsExt) × (tree : T) × (evfs_extent_move ops k (suc (suc (suc f))) args s
          ≡ some (record { ret = pos 0; exts = exts }, record s { tree = tree }))
        × Lists (view s.tree) args.ext.log_start args.ext.len exts
        × IsTree tree
        × Replaces args.ext (view s.tree) (view tree)
  unfolding evfs_extent_move evfs_iver
  evfs_extent_move_lem f args s v is_mapped ok_calls =
      let r = move_loop-IsMoved f args.ext.len args.ext s.tree v is_mapped (omega arith) in
      (
        r.exts,
        r.tree,
        ground (
          arith,
          ok_calls.iget,
          ok_calls.version,
          ok_calls.start,
          ok_calls.stop,
          r.runs,
          held-undo s.held,
        ),
        r.lists,
        r.valid,
        r.replaces,
      )
