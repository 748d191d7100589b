-- ===== src/Leaf/Merge.antt =====
-- `ext4_ext_try_to_merge` and `ext4_ext_try_to_merge_right` of extents.c on a leaf in order.
use linux_evfs.Base.{
  ℕ, ◌+◌, ◌≤◌, ◌≡◌, refl, ◌∙◌, inl, inr, true, if◌then◌else◌, List, [], ◌∷◌, ◌++◌, arith, length,
  Bool-cases,
}
use linux_evfs.Leaf.{
  LeafExtent, Leaf, LeafPath, LeafKernel, path_entries, merged, ext4_can_extents_be_merged,
  ext4_ext_try_to_merge_right, try_to_merge_entries, ext4_ext_try_to_merge_up,
  ext4_ext_try_to_merge,
}
use linux_evfs.Leaf.Map.{view, unwritten_at, IsSorted, IsSorted-from}

module _ (k : LeafKernel) where
  -- The length can be written to the 16 bits of `ee_len`, where the lengths above the limit of written
  -- extents stand for extents that are not written.
  pub record Encodes (e : LeafExtent) : Type 0 where
    pub init : e.actual_len ≤ k.ext_init_max_len
    pub unwritten : (if e.unwritten then e.actual_len else 0) ≤ k.ext_unwritten_max_len

  abbrev pub AllEncode : List LeafExtent → Type 0
  AllEncode [] = Unit
  AllEncode (e ∷ es) = Encodes e × AllEncode es

  -- What the test says of two extents in order.
  record Joins (ex1 ex2 : LeafExtent) : Type 0 where
    block : ex2.ee_block ≡ ex1.ee_block + ex1.actual_len
    phys : ex2.pblock ≡ ex1.pblock + ex1.actual_len
    flag : ex2.unwritten ≡ ex1.unwritten
    short : ex1.actual_len + ex2.actual_len ≤ k.ext_init_max_len
    short_unwritten :
        (if ex1.unwritten then ex1.actual_len + ex2.actual_len else 0) ≤ k.ext_unwritten_max_len

  can_extents_be_merged-Joins :
      (from : ℕ) (ex1 ex2 : LeafExtent) (rest : List LeafExtent)
      → IsSorted from (ex1 ∷ ex2 ∷ rest)
      → ext4_can_extents_be_merged k ex1 ex2 ≡ true
      → Joins ex1 ex2
  unfolding ext4_can_extents_be_merged
  can_extents_be_merged-Joins from ex1 ex2 rest s e = record {
    block = ground (arith, e, s.0.logical);
    phys = ground (arith, e, s.0.physical, s.0.nonempty, s.0.logical);
    flag = ground (arith, e);
    short = ground (arith, e);
    short_unwritten = ground (arith, e);
  }

  -- The same map with as many entries or less.
  pub record IsSame (from : ℕ) (es es' : List LeafExtent) : Type 0 where
    pub sorted : IsSorted from es'
    pub view_same : (c : ℕ) → view es' c ≡ view es c
    pub shorter : length es' ≤ length es
    pub flags : (c : ℕ) → unwritten_at es' c ≡ unwritten_at es c
    pub encode : AllEncode es → AllEncode es'

  IsSame-refl : (from : ℕ) (es : List LeafExtent) → IsSorted from es → IsSame from es es
  IsSame-refl from es s = record {
    sorted = s;
    view_same = λ c. refl;
    shorter = omega arith;
    flags = λ c. refl;
    encode = λ h. h;
  }

  IsSame-trans :
      (from : ℕ) (es es' es'' : List LeafExtent)
      → IsSame from es es'
      → IsSame from es' es''
      → IsSame from es es''
  IsSame-trans from es es' es'' a b = record {
    sorted = b.sorted;
    view_same = λ c. b.view_same c ∙ a.view_same c;
    shorter = omega (arith, a.shorter, b.shorter);
    flags = λ c. b.flags c ∙ a.flags c;
    encode = λ h. b.encode (a.encode h);
  }

  IsSame-cons :
      (from : ℕ) (e : LeafExtent) (es es' : List LeafExtent)
      → IsSorted from (e ∷ es)
      → IsSame (e.ee_block + e.actual_len) es es'
      → IsSame from (e ∷ es) (e ∷ es')
  IsSame-cons from e es es' s a = record {
    sorted = (s.0, a.sorted);
    view_same = λ c. rw (a.view_same c);
    shorter = omega (arith, a.shorter);
    flags = λ c. rw (a.flags c);
    encode = λ h. (h.0, a.encode h.1);
  }

  merged-IsSame :
      (from : ℕ) (ex next : LeafExtent) (rest : List LeafExtent)
      → IsSorted from (ex ∷ next ∷ rest)
      → Joins ex next
      → IsSame from (ex ∷ next ∷ rest) (merged k ex next ∷ rest)
  merged-IsSame from ex next rest s j = record {
    sorted = (
      record {
        behind = s.0.behind;
        nonempty = omega (arith, s.0.nonempty);
        logical = omega (arith, j.block, s.1.0.logical);
        physical = omega (arith, j.phys, s.1.0.physical);
      },
      IsSorted-from (next.ee_block + next.actual_len)
          (ex.ee_block + (ex.actual_len + next.actual_len)) rest (omega (arith, j.block)) s.1.1,
    );
    view_same = λ c. ground (arith, j.block, j.phys);
    shorter = omega arith;
    flags = λ c. ground (arith, j.block, j.flag);
    encode = λ h. (record { init = j.short; unwritten = j.short_unwritten }, h.1.1);
  }

  try_to_merge_right-IsSame :
      (from : ℕ) (ex : LeafExtent) (after : List LeafExtent)
      → IsSorted from (ex ∷ after)
      → IsSame from (ex ∷ after) (ext4_ext_try_to_merge_right k ex after).0
  unfolding ext4_ext_try_to_merge_right
  try_to_merge_right-IsSame from ex [] s = IsSame-refl from (ex ∷ []) s
  try_to_merge_right-IsSame from ex (next ∷ rest) s =
      elim (Bool-cases (ext4_can_extents_be_merged k ex next)) [
        | inr apart ↦ rw apart (IsSame-refl from (ex ∷ next ∷ rest) s)
        | inl joins ↦
            let one =
              merged-IsSame from ex next rest s
                (can_extents_be_merged-Joins from ex next rest s joins) in
            rw joins (
              IsSame-trans from (ex ∷ next ∷ rest) (merged k ex next ∷ rest)
                (ext4_ext_try_to_merge_right k (merged k ex next) rest).0 one
                (try_to_merge_right-IsSame from (merged k ex next) rest one.sorted))
      ]

  try_to_merge_entries-IsSame :
      (from : ℕ) (before : List LeafExtent) (ex : LeafExtent) (after : List LeafExtent)
      → IsSorted from (before ++ ex ∷ after)
      → IsSame from (before ++ ex ∷ after) (try_to_merge_entries k before ex after)
  unfolding try_to_merge_entries
  try_to_merge_entries-IsSame from [] ex after s = try_to_merge_right-IsSame from ex after s
  try_to_merge_entries-IsSame from (e ∷ []) ex after s =
      elim (Bool-cases (ext4_ext_try_to_merge_right k e (ex ∷ after)).1) [
        | inl joins ↦ rw joins (try_to_merge_right-IsSame from e (ex ∷ after) s)
        | inr apart ↦ rw apart (
            IsSame-cons from e (ex ∷ after) (ext4_ext_try_to_merge_right k ex after).0 s
              (try_to_merge_right-IsSame (e.ee_block + e.actual_len) ex after s.1))
      ]
  try_to_merge_entries-IsSame from (e ∷ e' ∷ es) ex after s =
      IsSame-cons from e (e' ∷ es ++ ex ∷ after) (try_to_merge_entries k (e' ∷ es) ex after) s
        (try_to_merge_entries-IsSame (e.ee_block + e.actual_len) (e' ∷ es) ex after s.1)

  -- Entries in order that the header has room for.
  pub record IsLeaf (t : Leaf) : Type 0 where
    pub in_order : IsSorted 0 t.entries
    pub room : length t.entries ≤ t.eh_max

  try_to_merge_up-entries : (t : Leaf) → (ext4_ext_try_to_merge_up k t).entries ≡ t.entries
  unfolding ext4_ext_try_to_merge_up
  try_to_merge_up-entries t = ground arith

  try_to_merge_up-IsLeaf : (t : Leaf) → IsLeaf t → IsLeaf (ext4_ext_try_to_merge_up k t)
  unfolding ext4_ext_try_to_merge_up
  try_to_merge_up-IsLeaf t v = record {
    in_order = rw (try_to_merge_up-entries t) (v.in_order);
    room = ground (arith, v.room);
  }

  merge-IsSame :
      (t : Leaf) (p : LeafPath)
      → IsLeaf t
      → t.entries ≡ path_entries p
      → IsSame 0 t.entries (ext4_ext_try_to_merge k t p).entries
  unfolding ext4_ext_try_to_merge
  merge-IsSame t p v e =
      let m = try_to_merge_entries k p.before p.ex p.after in
      rw (try_to_merge_up-entries (record t { entries = m }), e)
        (try_to_merge_entries-IsSame 0 p.before p.ex p.after (rw e at v.in_order))

  pub ext4_ext_try_to_merge-IsLeaf :
      (t : Leaf) (p : LeafPath)
      → IsLeaf t
      → t.entries ≡ path_entries p
      → IsLeaf (ext4_ext_try_to_merge k t p)
        × ((c : ℕ) → view (ext4_ext_try_to_merge k t p).entries c ≡ view t.entries c)
  unfolding ext4_ext_try_to_merge
  ext4_ext_try_to_merge-IsLeaf t p v e =
      let m = try_to_merge_entries k p.before p.ex p.after in
      let same = try_to_merge_entries-IsSame 0 p.before p.ex p.after (rw e at v.in_order) in
      let t' : Leaf = record t { entries = m } in
      let v' : IsLeaf t' = record {
        in_order = same.sorted;
        room = omega (arith, same.shorter, rw e at v.room);
      } in
      (try_to_merge_up-IsLeaf t' v', (merge-IsSame t p v e).view_same)

  -- A merge around an entry of a leaf in order keeps the entries in order, without overlap and within
  -- `eh_max`. It changes neither the map of logical blocks to physical ones nor which blocks are
  -- marked as not written. If the length of every entry can be written to the 16 bits of `ee_len`
  -- with its mark, then it still can.
  pub ext4_ext_try_to_merge-view :
      (t : Leaf) (p : LeafPath)
      → IsLeaf t
      → t.entries ≡ path_entries p
      → AllEncode t.entries
      → IsLeaf (ext4_ext_try_to_merge k t p)
        × ((c : ℕ) → view (ext4_ext_try_to_merge k t p).entries c ≡ view t.entries c)
        × ((c : ℕ)
            → unwritten_at (ext4_ext_try_to_merge k t p).entries c ≡ unwritten_at t.entries c)
        × AllEncode (ext4_ext_try_to_merge k t p).entries
  ext4_ext_try_to_merge-view t p v e h =
      let leaf = ext4_ext_try_to_merge-IsLeaf t p v e in
      let same = merge-IsSame t p v e in (leaf.0, leaf.1, same.flags, same.encode h)
