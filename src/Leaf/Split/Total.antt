-- ===== src/Leaf/Split/Total.antt =====
-- A split in which no call fails: `ext4_force_split_extent_at` of extents.c.
use linux_evfs.Base.{
  ℕ, ◌+◌, ◌<◌, ◌≡◌, refl, inl, inr, true, false, Option, some, List, [], ◌∷◌, ◌++◌, arith, length,
  ltb, ◌==◌, Bool-cases, lt→ltb,
}
use linux_evfs.Base.Int.{ℤ, pos}
use linux_evfs.Leaf.{LeafExtent, Leaf, LeafPath, LeafKernel, ext4_ext_dirty, ext4_ext_get_access}
use linux_evfs.Leaf.Map.{Fits}
use linux_evfs.Leaf.Split.{
  SplitFlags, ext4_ext_correct_indexes, add_entry, has_space, ext4_ext_insert_extent, put_ex,
  split_in_two, first_half, second_half, ext4_split_extent_at, ext4_force_split_extent_at,
}

-- The calls of the journal, and that for a new leaf, succeed.
pub record NoFailures (k : LeafKernel) : Type 0 where
  pub access_ok : (t : Leaf) → k.ext4_journal_get_write_access t ≡ pos 0
  pub metadata_ok : (t : Leaf) → k.ext4_handle_dirty_metadata t ≡ pos 0
  pub inode_ok : (t : Leaf) → k.ext4_mark_inode_dirty t ≡ pos 0
  pub new_leaf_ok : (t : Leaf) → (k.ext4_ext_create_new_leaf t).0 ≡ pos 0

module _ (k : LeafKernel) (ok : NoFailures k) where
  pub dirty-ok : (t : Leaf) → ext4_ext_dirty k t ≡ pos 0
  unfolding ext4_ext_dirty
  dirty-ok t = ground (arith, ok.metadata_ok t, ok.inode_ok t)

  get_access-ok : (t : Leaf) → ext4_ext_get_access k t ≡ pos 0
  unfolding ext4_ext_get_access
  get_access-ok t = ground (arith, ok.access_ok t)

  correct_indexes-ok :
      (t : Leaf) (before : List LeafExtent) (ex : LeafExtent)
      → ext4_ext_correct_indexes k t (before ++ ex ∷ []) ≡ pos 0
  unfolding ext4_ext_correct_indexes
  correct_indexes-ok t [] ex = ground arith
  correct_indexes-ok t (e ∷ es) ex = ground arith

  abbrev Returns0 : Option (ℤ × Leaf) → Type 0
  Returns0 r = (t : Leaf) × (r ≡ some (pos 0, t))

  has_space-ok :
      (t : Leaf) (p : LeafPath) (newext : LeafExtent)
      → p.ex.ee_block < newext.ee_block
      → Returns0 (has_space k t p newext)
  unfolding has_space add_entry
  has_space-ok t p newext h =
      let after : ltb p.ex.ee_block newext.ee_block ≡ true =
        lt→ltb p.ex.ee_block newext.ee_block h in
      let t' : Leaf = record t { entries = (p.before ++ p.ex ∷ []) ++ newext ∷ p.after } in
      (t', rw (get_access-ok t, after, correct_indexes-ok t' p.before p.ex, dirty-ok t') refl)

  insert_extent-ok :
      (t : Leaf) (p : LeafPath) (newext : LeafExtent)
      → p.ex.ee_block < newext.ee_block
      → 0 < newext.actual_len
      → Returns0 (ext4_ext_insert_extent k t p newext)
  unfolding ext4_ext_insert_extent
  insert_extent-ok t p newext h len =
      let some_len : (newext.actual_len == 0) ≡ false = ground (arith, len) in
      elim (Bool-cases (ltb (length t.entries) t.eh_max)) [
        | inl space ↦ rw (some_len, space) (has_space-ok t p newext h)
        | inr full ↦
            rw (some_len, full, ok.new_leaf_ok t)
              (has_space-ok
                (record t { eh_max = (k.ext4_ext_create_new_leaf t).1; in_block = true }) p newext
                h)
      ]

  split_in_two-ok :
      (t : Leaf) (p : LeafPath) (first ex2 : LeafExtent) (f : SplitFlags)
      → first.ee_block < ex2.ee_block
      → 0 < ex2.actual_len
      → Returns0 (split_in_two k t p first ex2 f)
  unfolding split_in_two
  split_in_two-ok t p first ex2 f h len =
      let (t', r) = insert_extent-ok (put_ex k t p first) (record p { ex = first }) ex2 h len in
      (t', rw (dirty-ok (put_ex k t p first), r) refl)

  pub force_split-ok :
      (t : Leaf) (p : LeafPath) (at : ℕ)
      → Fits 0 p.ex
      → p.ex.ee_block < at
      → at < p.ex.ee_block + p.ex.actual_len
      → Returns0 (ext4_force_split_extent_at k t p at)
  unfolding ext4_force_split_extent_at ext4_split_extent_at
  force_split-ok t p at fits h to =
      let f : SplitFlags = record {
        may_zeroout = false;
        mark_unwrit1 = p.ex.unwritten;
        mark_unwrit2 = p.ex.unwritten;
        data_valid1 = false;
        data_valid2 = false;
      } in
      let a = first_half k p.ex at p.ex.unwritten in
      let b = second_half k p.ex at p.ex.unwritten in
      let (t', r) = split_in_two-ok t p a b f h (omega (arith, h, to, fits.logical)) in
      (t', ground (arith, get_access-ok t, r, h, to, fits.logical, Bool-cases (p.ex.unwritten)))
