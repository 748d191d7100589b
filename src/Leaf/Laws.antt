-- ===== src/Leaf/Laws.antt =====
-- What the functions of extents.c do to the map of a tree with one leaf, for `__evfs_extent_map`.
use linux_evfs.Base.{
  ℕ, ◌+◌, ◌-◌, ◌^◌, ◌<◌, ◌≡◌, refl, sym, ap, ◌∙◌, true, some, ◌∷◌, arith, ◌==◌, if◌then◌else◌,
}
use linux_evfs.Base.Int.{ℤ, pos}
use linux_evfs.Extent.{Extent}
use linux_evfs.Extent.Laws.{within, Covers, TreeLaws, NoErrors}
use linux_evfs.Leaf.{Leaf, LeafKernel, ext4_ext_next_allocated_block}
use linux_evfs.Leaf.Map.{view, IsSorted-change, begins-view}
use linux_evfs.Leaf.Store.{store-IsSorted, view_stored, begins_stored, length_stored}
use linux_evfs.Leaf.Merge.{IsLeaf, ext4_ext_try_to_merge-IsLeaf}
use linux_evfs.Leaf.Split.{ext4_force_split_extent_at}
use linux_evfs.Leaf.Split.Total.{NoFailures, dirty-ok, force_split-ok}
use linux_evfs.Leaf.Split.Outcome.{Grows, ext4_force_split_extent_at-view}
use linux_evfs.Leaf.Ops.{to_extent, or_bug, leaf_ops, leaf_view, leaf_begins}
use linux_evfs.Leaf.Entry.{view-IsAt, IsAt-Covers, Covers-IsEntry, IsEntry-finds}

module _ (k : LeafKernel) where
  split_lem :
      (grows : Grows k) (t t' : Leaf) (b at nb : ℕ) (ex : Extent)
      → IsLeaf k t
      → Covers (leaf_ops k) (leaf_view k) (leaf_begins k) t b ex nb
      → ex.ee_block < at
      → at < ex.ee_block + ex.actual_len
      → (leaf_ops k).ext4_force_split_extent_at t at ≡ (pos 0, t')
      → IsLeaf k t'
        × ((c : ℕ) → (leaf_view k) t' c ≡ (leaf_view k) t c)
        × ((c : ℕ) → (leaf_begins k) t' c ≡ (if c == at then true else (leaf_begins k) t c))
  split_lem grows t t' b at nb ex v c h to e =
      let a = Covers-IsEntry k t b nb ex v c in
      let finds = IsEntry-finds k t ex at v a (omega (arith, h)) to in
      let run : or_bug t (ext4_force_split_extent_at k t a.path at) ≡ (pos 0, t') = rw finds at e in
      ext4_force_split_extent_at-view k grows t t' a.path at v a.entries
        (rw (ap Extent.ee_block a.same) h)
        (rw (ap Extent.ee_block a.same, ap Extent.actual_len a.same) to) (ground (arith, run))

  store_lem :
      (t : Leaf) (b p nb : ℕ) (ex : Extent)
      → IsLeaf k t
      → Covers (leaf_ops k) (leaf_view k) (leaf_begins k) t b ex nb
      → p + ex.actual_len < 2 ^ 48
      → let t' = (leaf_ops k).ext4_ext_store_pblock t ex.ee_block p in
        IsLeaf k t'
        × ((c : ℕ)
            → (leaf_view k) t' c ≡ (
                if within ex.ee_block ex.actual_len c
                then some (p + (c - ex.ee_block))
                else (leaf_view k) t c))
        × ((leaf_begins k) t' ex.ee_block ≡ true)
  store_lem t b p nb ex v c room =
      let a = Covers-IsEntry k t b nb ex v c in
      let finds =
        IsEntry-finds k t ex ex.ee_block v a (omega arith) (omega (arith, c.from, c.to)) in
      let q = a.path in
      let s = rw (a.entries) at v.in_order in
      let fits : p + q.ex.actual_len < 2 ^ 48 = rw (ap Extent.actual_len a.same) room in
      let stored_view = λ (c : ℕ). view_stored 0 q.before q.ex q.after p c s in
      rw finds (
        record {
          in_order =
              IsSorted-change 0 q.before (q.ex ∷ q.after) (record (q.ex) { pblock = p } ∷ q.after)
                (λ from r. store-IsSorted from q.ex q.after p fits r) s;
          room =
              rw (length_stored q.before q.ex (record (q.ex) { pblock = p }) q.after)
                (rw (a.entries) at v.room);
        },
        λ c. rw (a.entries) (ground (arith, stored_view c, a.same)),
        begins_stored q.before q.ex q.after p ex.ee_block ∙ rw (a.entries) at c.starts,
      )

  merge_lem :
      (t : Leaf) (at : ℕ)
      → IsLeaf k t
      → (leaf_begins k) t at ≡ true
      → let t' = (leaf_ops k).ext4_ext_try_to_merge t at in
        IsLeaf k t' × ((c : ℕ) → (leaf_view k) t' c ≡ (leaf_view k) t c)
  merge_lem t at v b =
      let (p, e) = begins-view 0 t.entries at v.in_order b in
      let a = view-IsAt k t at p v e in
      rw (a.finds) (ext4_ext_try_to_merge-IsLeaf k t a.path v a.entries)

  dirty_lem :
      (t t' : Leaf) (at : ℕ)
      → IsLeaf k t
      → (leaf_ops k).ext4_ext_dirty t at ≡ (pos 0, t')
      → IsLeaf k t' × ((c : ℕ) → (leaf_view k) t' c ≡ (leaf_view k) t c)
  dirty_lem t t' at v e =
      let same : t ≡ t' = ap (λ (r : ℤ × Leaf). r.1) e in
      (rw same at v, λ c. ap (λ (u : Leaf). view u.entries c) (sym same))

  -- A tree with one leaf keeps the laws that the functions of evfs rely on.
  pub leaf-TreeLaws : Grows k → TreeLaws (leaf_ops k)
  leaf-TreeLaws grows = record {
    view = (leaf_view k);
    begins = (leaf_begins k);
    IsTree = IsLeaf k;
    find_lem = λ t b p v e.
        let a = view-IsAt k t b p v e in
        (to_extent a.path.ex, ext4_ext_next_allocated_block (some a.path), IsAt-Covers k t b v a);
    split_lem = λ t t' b at ex nb v c h to e. split_lem grows t t' b at nb ex v c h to e;
    store_lem = λ t b p ex nb v c room. store_lem t b p nb ex v c room;
    merge_lem = merge_lem;
    dirty_lem = λ t t' at v e. dirty_lem t t' at v e;
  }

  pub leaf-NoErrors : (grows : Grows k) → NoFailures k → NoErrors (leaf_ops k) (leaf-TreeLaws grows)
  unfolding leaf-TreeLaws
  leaf-NoErrors grows ok = record {
    split_ok = λ t b at ex nb v c h to.
        let a = Covers-IsEntry k t b nb ex v c in
        let finds = IsEntry-finds k t ex at v a (omega (arith, h)) to in
        let r =
          force_split-ok k ok t a.path at a.fits (rw (ap Extent.ee_block a.same) h)
            (rw (ap Extent.ee_block a.same, ap Extent.actual_len a.same) to) in
        rw (finds, r.1) refl;
    dirty_ok = λ t at v. dirty-ok k ok t;
  }
