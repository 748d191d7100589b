-- ===== src/Leaf/Entry.antt =====
-- The entry of a leaf (extents.c) that a mapped block lies in, and the path to it.
use linux_evfs.Base.{ℕ, ◌+◌, ◌-◌, ◌≤◌, ◌<◌, ◌≡◌, refl, ap, ◌∙◌, some, ◌∷◌, arith, ◌==◌, ==_refl}
use linux_evfs.Extent.{Extent}
use linux_evfs.Extent.Laws.{Covers}
use linux_evfs.Leaf.{
  Leaf, LeafPath, LeafKernel, path_entries, ext4_find_extent, ext4_ext_next_allocated_block,
}
use linux_evfs.Leaf.Map.{
  view, begins, Fits, IsSorted, IsIn, IsSorted-tail, view-split, view-skip, begins-skip,
  begins-before,
}
use linux_evfs.Leaf.Path.{ext4_find_extent-IsIn}
use linux_evfs.Leaf.Merge.{IsLeaf}
use linux_evfs.Leaf.Ops.{to_extent, leaf_ops, leaf_view, leaf_begins}

module _ (k : LeafKernel) where
  -- A mapped block, and the path to its extent.
  pub record IsAt (t : Leaf) (b : ℕ) : Type 0 where
    pub path : LeafPath
    pub entries : t.entries ≡ path_entries path
    pub is_in : IsIn path.ex b
    pub finds : ext4_find_extent t.entries b ≡ some path
    pub fits : Fits 0 path.ex

  pub view-IsAt : (t : Leaf) (b p : ℕ) → IsLeaf k t → view t.entries b ≡ some p → IsAt t b
  view-IsAt t b p v e =
      let (path, eq, is_in) = view-split 0 t.entries b p v.in_order e in
      let s = rw eq at v.in_order in
      let (from, m, s') = IsSorted-tail 0 path.before (path.ex ∷ path.after) s in
      record {
        path = path;
        entries = eq;
        is_in = is_in;
        finds = rw eq (ext4_find_extent-IsIn 0 path b s is_in);
        fits = record {
          behind = omega arith;
          nonempty = s'.0.nonempty;
          logical = s'.0.logical;
          physical = s'.0.physical;
        };
      }

  -- An extent that begins at a block is the one that holds it.
  module _ (t : Leaf) (v : IsLeaf k t) (p : LeafPath) (eq : t.entries ≡ path_entries p) where
    in_order : IsSorted 0 (path_entries p)
    in_order = rw eq at v.in_order

    view_at : (c : ℕ) → IsIn p.ex c → view t.entries c ≡ some (p.ex.pblock + (c - p.ex.ee_block))
    view_at c is_in = rw eq (
        view-skip 0 p.before p.ex p.after c in_order is_in.from
        ∙ ground (arith, is_in.from, is_in.to))

    begins_at : (c : ℕ) → IsIn p.ex c → begins t.entries c ≡ (c == p.ex.ee_block)
    begins_at c is_in =
        let (from, m, s) = IsSorted-tail 0 p.before (p.ex ∷ p.after) in_order in
        let rest = begins-before (p.ex.ee_block + p.ex.actual_len) p.after c s.1 is_in.to in
        rw eq (begins-skip 0 p.before p.ex p.after c in_order is_in.from ∙ ground (arith, rest))

  pub IsAt-Covers :
      (t : Leaf) (b : ℕ)
      → IsLeaf k t
      → (a : IsAt t b)
      → Covers
          (leaf_ops k)
          (leaf_view k)
          (leaf_begins k)
          t
          b
          (to_extent a.path.ex)
          (ext4_ext_next_allocated_block (some a.path))
  IsAt-Covers t b v a =
      let p = a.path in
      let inside : (i : ℕ) → i < p.ex.actual_len → IsIn p.ex (p.ex.ee_block + i) =
        λ i h. record { from = omega arith; to = omega (arith, h) } in
      let start : IsIn p.ex p.ex.ee_block = record {
        from = omega arith;
        to = omega (arith, a.fits.nonempty);
      } in
      record {
        here = rw (a.finds) refl;
        from = a.is_in.from;
        to = a.is_in.to;
        small = a.fits.logical;
        mapped =
            λ i h. view_at t v p a.entries (p.ex.ee_block + i) (inside i h) ∙ ap some (omega arith);
        starts = begins_at t v p a.entries p.ex.ee_block start ∙ ==_refl p.ex.ee_block;
        whole = λ c h h'.
            begins_at t v p a.entries c (record { from = omega (arith, h); to = h' })
            ∙ ground (arith, h);
      }

  -- An extent that covers a block is the entry on the path to each of its blocks.
  pub record IsEntry (t : Leaf) (ex : Extent) : Type 0 where
    pub path : LeafPath
    pub entries : t.entries ≡ path_entries path
    pub same : to_extent path.ex ≡ ex
    pub fits : Fits 0 path.ex

  pub Covers-IsEntry :
      (t : Leaf) (b nb : ℕ) (ex : Extent)
      → IsLeaf k t
      → Covers (leaf_ops k) (leaf_view k) (leaf_begins k) t b ex nb
      → IsEntry t ex
  Covers-IsEntry t b nb ex v c =
      let at : ex.ee_block + (b - ex.ee_block) ≡ b = omega (arith, c.from) in
      let a =
        view-IsAt t b (ex.pblock + (b - ex.ee_block)) v
          (rw at at (c.mapped (b - ex.ee_block) (omega (arith, c.from, c.to)))) in
      record {
        path = a.path;
        entries = a.entries;
        same = ground (arith, c.here, a.finds);
        fits = a.fits;
      }

  pub IsEntry-finds :
      (t : Leaf) (ex : Extent) (c : ℕ)
      → IsLeaf k t
      → (a : IsEntry t ex) → ex.ee_block ≤ c
      → c < ex.ee_block + ex.actual_len
      → ext4_find_extent t.entries c ≡ some a.path
  IsEntry-finds t ex c v a h to =
      let is_in : IsIn a.path.ex c = record {
        from = rw (ap Extent.ee_block a.same) h;
        to = rw (ap Extent.ee_block a.same, ap Extent.actual_len a.same) to;
      } in
      rw (a.entries) (ext4_find_extent-IsIn 0 a.path c (rw (a.entries) at v.in_order) is_in)
