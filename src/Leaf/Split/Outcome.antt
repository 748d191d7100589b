-- ===== src/Leaf/Split/Outcome.antt =====
-- A split that succeeds: `ext4_force_split_extent_at` of extents.c on a leaf in order.
use linux_evfs.Base.{
  ℕ, zero, suc, ◌+◌, ◌-◌, ◌<◌, ◌≡◌, refl, ap, ◌∙◌, inl, inr, true, false, some, List, [], ◌∷◌, ◌++◌,
  arith, length, length-append, ltb, ◌==◌, if◌then◌else◌, Bool-cases, ltb→lt,
}
use linux_evfs.Base.Int.{ℤ, pos, negsuc, is_nonzero}
use linux_evfs.Leaf.{LeafExtent, Leaf, LeafPath, LeafKernel, path_entries}
use linux_evfs.Leaf.Map.{
  view, begins, Fits, IsSorted, IsSorted-from, view-change, begins-change, IsSorted-change,
  IsSorted-tail,
}
use linux_evfs.Leaf.Merge.{IsLeaf}
use linux_evfs.Leaf.Split.{
  SplitFlags, add_entry, has_space, ext4_ext_insert_extent, put_ex, undo_split, split_in_two,
  first_half, second_half, ext4_split_extent_at, ext4_force_split_extent_at,
}

-- A new leaf has room for one more entry.
pub record Grows (k : LeafKernel) : Type 0 where
  pub has_room :
      (t : Leaf)
      → (k.ext4_ext_create_new_leaf t).0 ≡ pos 0
      → length t.entries < (k.ext4_ext_create_new_leaf t).1

abbrev pub with_new : LeafPath → LeafExtent → List LeafExtent
with_new p newext = (p.before ++ p.ex ∷ []) ++ newext ∷ p.after

zero_of : (err : ℤ) → is_nonzero err ≡ false → err ≡ pos 0
zero_of (pos zero) e = refl
zero_of (pos (suc n)) e = absurd (cc e)
zero_of (negsuc n) e = absurd (cc e)

module _ (k : LeafKernel) where
  has_space-entries :
      (t t' : Leaf) (p : LeafPath) (newext : LeafExtent)
      → p.ex.ee_block < newext.ee_block
      → has_space k t p newext ≡ some (pos 0, t')
      → t' ≡ record t { entries = with_new p newext }
  unfolding has_space add_entry
  has_space-entries t t' p newext h e = ground (arith, h, e)

  module _ (grows : Grows k) where
    -- The leaf has the new entry, and room for it.
    record IsPut (t t' : Leaf) (es : List LeafExtent) : Type 0 where
      entries : t'.entries ≡ es
      room : length t.entries < t'.eh_max

    insert_extent-IsPut :
        (t t' : Leaf) (p : LeafPath) (newext : LeafExtent)
        → p.ex.ee_block < newext.ee_block
        → 0 < newext.actual_len
        → ext4_ext_insert_extent k t p newext ≡ some (pos 0, t')
        → IsPut t t' (with_new p newext)
    unfolding ext4_ext_insert_extent
    insert_extent-IsPut t t' p newext h len e =
        let some_len : (newext.actual_len == 0) ≡ false = ground (arith, len) in
        elim (Bool-cases (ltb (length t.entries) t.eh_max)) [
          | inl space ↦
              let put = has_space-entries t t' p newext h (rw (some_len, space) at e) in
              record {
                entries = ap Leaf.entries put;
                room = rw put (ltb→lt (length t.entries) t.eh_max space);
              }
          | inr full ↦ elim (Bool-cases (is_nonzero (k.ext4_ext_create_new_leaf t).0)) [
            | inl failed ↦ absurd (ground (arith, rw (some_len, full, failed) at e, failed))
            | inr grown ↦
                let t0 : Leaf = record t {
                  eh_max = (k.ext4_ext_create_new_leaf t).1;
                  in_block = true;
                } in
                let put = has_space-entries t0 t' p newext h (rw (some_len, full, grown) at e) in
                record {
                  entries = ap Leaf.entries put;
                  room = rw put (grows.has_room t (zero_of (k.ext4_ext_create_new_leaf t).0 grown));
                }
          ]
        ]

    split_in_two-inserts :
        (t t' : Leaf) (p : LeafPath) (first ex2 : LeafExtent) (f : SplitFlags)
        → f.may_zeroout ≡ false
        → split_in_two k t p first ex2 f ≡ some (pos 0, t')
        → ext4_ext_insert_extent k (put_ex k t p first) (record p { ex = first }) ex2
          ≡ some (pos 0, t')
    unfolding split_in_two undo_split
    split_in_two-inserts t t' p first ex2 f no_zeroout e = ground (arith, e, no_zeroout)

    split_in_two-IsPut :
        (t t' : Leaf) (p : LeafPath) (first ex2 : LeafExtent) (f : SplitFlags)
        → first.ee_block < ex2.ee_block
        → 0 < ex2.actual_len
        → f.may_zeroout ≡ false
        → split_in_two k t p first ex2 f ≡ some (pos 0, t')
        → IsPut (put_ex k t p first) t' (with_new (record p { ex = first }) ex2)
    split_in_two-IsPut t t' p first ex2 f h len no_zeroout e =
        insert_extent-IsPut (put_ex k t p first) t' (record p { ex = first }) ex2 h len
          (split_in_two-inserts t t' p first ex2 f no_zeroout e)

    -- The two halves of an extent that is split inside.
    module _ (from : ℕ) (ex : LeafExtent) (at : ℕ) (fits : Fits from ex) (h : ex.ee_block < at)
        (to : at < ex.ee_block + ex.actual_len) where
      abbrev first : LeafExtent
      first = first_half k ex at ex.unwritten

      abbrev second : LeafExtent
      second = second_half k ex at ex.unwritten

      first_len : first.actual_len ≡ at - ex.ee_block
      first_len = omega (arith, h, to, fits.logical)

      second_len : second.actual_len ≡ ex.actual_len - (at - ex.ee_block)
      second_len = omega (arith, h, to, fits.logical)

      second_pblock : second.pblock ≡ ex.pblock + (at - ex.ee_block)
      second_pblock = omega (arith, h, to, fits.logical, fits.physical)

      halves-view :
          (after : List LeafExtent) (c : ℕ) → view (first ∷ second ∷ after) c ≡ view (ex ∷ after) c
      halves-view after c = ground (arith, first_len, second_len, second_pblock, h, to)

      halves-begins :
          (after : List LeafExtent) (c : ℕ)
          → begins (first ∷ second ∷ after) c ≡ (if c == at then true else begins (ex ∷ after) c)
      halves-begins after c = ground arith

      halves-IsSorted :
          (from' : ℕ) (after : List LeafExtent)
          → IsSorted from' (ex ∷ after)
          → IsSorted from' (first ∷ second ∷ after)
      halves-IsSorted from' after s = (
        record {
          behind = s.0.behind;
          nonempty = omega (arith, first_len, h);
          logical = omega (arith, first_len, h, to, fits.logical);
          physical = omega (arith, first_len, h, to, fits.physical);
        },
        (
          record {
            behind = omega (arith, first_len, h);
            nonempty = omega (arith, second_len, h, to);
            logical = omega (arith, second_len, h, to, fits.logical);
            physical = omega (arith, second_len, second_pblock, h, to, fits.physical);
          },
          IsSorted-from (ex.ee_block + ex.actual_len) (at + second.actual_len) after
              (omega (arith, second_len, h, to)) s.1,
        ),
      )

    append-one :
        (before : List LeafExtent) (ex : LeafExtent) (after : List LeafExtent)
        → (before ++ ex ∷ []) ++ after ≡ before ++ ex ∷ after
    append-one [] ex after = refl
    append-one (e ∷ es) ex after = ap (λ ys. e ∷ ys) (append-one es ex after)

    -- The split itself, past the guards.
    force_split-splits :
        (t t' : Leaf) (p : LeafPath) (at : ℕ)
        → Fits 0 p.ex
        → p.ex.ee_block < at
        → at < p.ex.ee_block + p.ex.actual_len
        → ext4_force_split_extent_at k t p at ≡ some (pos 0, t')
        → split_in_two k t p
            (first_half k p.ex at p.ex.unwritten)
            (second_half k p.ex at p.ex.unwritten)
            (record {
              may_zeroout = false;
              mark_unwrit1 = p.ex.unwritten;
              mark_unwrit2 = p.ex.unwritten;
              data_valid1 = false;
              data_valid2 = false;
            })
          ≡ some (pos 0, t')
    unfolding ext4_force_split_extent_at ext4_split_extent_at
    force_split-splits t t' p at fits h to e =
        ground (arith, e, h, to, fits.logical, Bool-cases (p.ex.unwritten))

    pub ext4_force_split_extent_at-view :
        (t t' : Leaf) (p : LeafPath) (at : ℕ)
        → IsLeaf k t
        → t.entries ≡ path_entries p
        → p.ex.ee_block < at
        → at < p.ex.ee_block + p.ex.actual_len
        → ext4_force_split_extent_at k t p at ≡ some (pos 0, t')
        → IsLeaf k t'
          × ((c : ℕ) → view t'.entries c ≡ view t.entries c)
          × ((c : ℕ) → begins t'.entries c ≡ (if c == at then true else begins t.entries c))
    ext4_force_split_extent_at-view t t' p at v e h to run =
        let s = rw e at v.in_order in
        let (from, m, s') = IsSorted-tail 0 p.before (p.ex ∷ p.after) s in
        let fits : Fits 0 p.ex = record {
          behind = omega arith;
          nonempty = s'.0.nonempty;
          logical = s'.0.logical;
          physical = s'.0.physical;
        } in
        let a = first 0 p.ex at fits h to in
        let b = second 0 p.ex at fits h to in
        let put =
          split_in_two-IsPut t t' p a b _ h (omega (arith, second_len 0 p.ex at fits h to, h, to))
            refl (force_split-splits t t' p at fits h to run) in
        let es : t'.entries ≡ p.before ++ a ∷ b ∷ p.after =
          put.entries ∙ append-one p.before a (b ∷ p.after) in
        (
          record {
            in_order = rw es (
                IsSorted-change 0 p.before (p.ex ∷ p.after) (a ∷ b ∷ p.after)
                  (λ from' r. halves-IsSorted 0 p.ex at fits h to from' p.after r) s);
            room = rw es (
                omega (
                  arith,
                  put.room,
                  length-append p.before (a ∷ p.after),
                  length-append p.before (a ∷ b ∷ p.after),
                ));
          },
          λ c.
              rw (es, e)
                (view-change p.before (p.ex ∷ p.after) (a ∷ b ∷ p.after) c
                  (halves-view 0 p.ex at fits h to p.after c)),
          λ c.
              rw (es, e)
                (begins-change p.before (p.ex ∷ p.after) (a ∷ b ∷ p.after) c (c == at)
                  (halves-begins 0 p.ex at fits h to p.after c)),
        )
