-- ===== src/Leaf/Split.antt =====
-- `ext4_ext_insert_extent`, `ext4_split_extent_at` and `ext4_force_split_extent_at` of extents.c.
pub mod Outcome
pub mod Total
use linux_evfs.Base.{
  ℕ, ◌+◌, ◌-◌, ◌≤◌, ◌<◌, ◌≡◌, Bool, true, false, not, ◌&&◌, ◌||◌, Option, none, some, List, [], ◌∷◌,
  ◌++◌, length, set, ltb, leb, ◌==◌, if◌then◌else◌,
}
use linux_evfs.Base.Int.{ℤ, pos, negsuc, is_nonzero}
use linux_evfs.Base.Errno
use linux_evfs.Extent.{add32, sub32, add64}
use linux_evfs.Leaf.{
  LeafExtent, Leaf, LeafPath, LeafKernel, path_entries, path_at, ext4_ext_dirty,
  ext4_ext_get_access, ext4_ext_try_to_merge,
}

-- The bits of `split_flag`.
pub record SplitFlags : Type 0 where
  pub may_zeroout : Bool
  pub mark_unwrit1 : Bool
  pub mark_unwrit2 : Bool
  pub data_valid1 : Bool
  pub data_valid2 : Bool

-- `err == -ENOSPC || err == -EDQUOT || err == -ENOMEM`
abbrev pub is_no_space : ℤ → Bool
is_no_space (pos n) = false
is_no_space (negsuc n) = n == 27 || (n == 121 || n == 11)

abbrev pub efscorrupted : ℤ
efscorrupted = negsuc 116

module _ (k : LeafKernel) where
  open k use {ext4_ext_create_new_leaf, ext4_ext_correct_first_index, ext4_ext_zeroout}

  -- Of `ext4_ext_correct_indexes`, what it does on a tree with one leaf.
  unfoldable pub ext4_ext_correct_indexes : Leaf → List LeafExtent → ℤ
  ext4_ext_correct_indexes t before =
      if not t.in_block
      then pos 0
      else elim before [ [] ↦ ext4_ext_correct_first_index t | e ∷ es ↦ pos 0 ]

  -- From the `le16_add_cpu` on, with the place of the new entry.
  unfoldable pub add_entry : Leaf → List LeafExtent → LeafExtent → List LeafExtent → ℤ × Leaf
  add_entry t before newext after =
      let t' = record t { entries = before ++ newext ∷ after } in
      let err = ext4_ext_correct_indexes t' before in
      if is_nonzero err then (err, t') else (ext4_ext_dirty k t', t')

  -- `has_space:`, with a path that ends in an entry. None is the `BUG_ON`.
  unfoldable pub has_space : Leaf → LeafPath → LeafExtent → Option (ℤ × Leaf)
  has_space t p newext =
      let err = ext4_ext_get_access k t in
      if is_nonzero err
      then some (err, t)
      else (if ltb p.ex.ee_block newext.ee_block
          then some (add_entry t (p.before ++ p.ex ∷ []) newext p.after)
          else (if newext.ee_block == p.ex.ee_block
              then none
              else some (add_entry t p.before newext (p.ex ∷ p.after))))

  -- With `EXT4_GET_BLOCKS_PRE_IO`, as evfs calls it, so that nothing is merged.
  unfoldable pub ext4_ext_insert_extent : Leaf → LeafPath → LeafExtent → Option (ℤ × Leaf)
  ext4_ext_insert_extent t p newext =
      if newext.actual_len == 0
      then some (efscorrupted, t)
      else (if ltb (length t.entries) t.eh_max
          then has_space t p newext
          else (let (err, eh_max) = ext4_ext_create_new_leaf t in
              if is_nonzero err
              then some (err, t)
              else has_space (record t { eh_max = eh_max; in_block = true }) p newext))

  -- The tree with another extent in the place of `ex`.
  abbrev pub put_ex : Leaf → LeafPath → LeafExtent → Leaf
  put_ex t p ex = record t { entries = p.before ++ ex ∷ p.after }

  -- The zeroout of the second half, the first half or the whole.
  unfoldable pub zeroout_split : SplitFlags → LeafExtent → LeafExtent → LeafExtent → ℤ
  zeroout_split f orig_ex ex ex2 =
      if f.data_valid1
      then ext4_ext_zeroout ex2
      else (if f.data_valid2 then ext4_ext_zeroout ex else ext4_ext_zeroout orig_ex)

  -- The tree with another extent at the address of `ex`.
  abbrev pub set_ex : Leaf → LeafPath → LeafExtent → Leaf
  set_ex t p ex = record t { entries = set t.entries (length p.before) ex }

  -- After a zeroout that succeeded.
  unfoldable pub undo_zeroed : Leaf → LeafPath → Option (ℤ × Leaf)
  undo_zeroed t p =
      let whole = set_ex t p (record (p.ex) { unwritten = false }) in
      elim (path_at whole.entries (length p.before)) [
        | none ↦ none
        | some q ↦ let t' = ext4_ext_try_to_merge k whole q in some (ext4_ext_dirty k t', t')
      ]

  -- The insertion failed: the whole extent again, after a zeroout or not.
  unfoldable pub undo_split :
      SplitFlags → Leaf → LeafPath → LeafExtent → LeafExtent → ℤ → Option (ℤ × Leaf)
  undo_split f t p ex ex2 err =
      if not f.may_zeroout
      then some (err, set_ex t p p.ex)
      else (let err = zeroout_split f p.ex ex ex2 in
          if is_nonzero err then some (err, set_ex t p p.ex) else undo_zeroed t p)

  -- Case a, from the `memcpy` on. None is a `BUG_ON`, or that the tree grew before the insertion
  -- failed: `ex` then points into the old root.
  unfoldable pub split_in_two :
      Leaf → LeafPath → LeafExtent → LeafExtent → SplitFlags → Option (ℤ × Leaf)
  split_in_two t p first ex2 f =
      let shortened = put_ex t p first in
      let err = ext4_ext_dirty k shortened in
      if is_nonzero err
      then some (err, put_ex t p p.ex)
      else elim (ext4_ext_insert_extent shortened (record p { ex = first }) ex2) [
        | none ↦ none
        | some r ↦
            if not (is_no_space r.0)
            then some r
            else (if not (r.1.eh_max == t.eh_max) then none else undo_split f r.1 p first ex2 r.0)
      ]

  -- The two halves of an extent.
  abbrev pub first_half : LeafExtent → ℕ → Bool → LeafExtent
  first_half ex split mark = record ex { actual_len = sub32 split ex.ee_block; unwritten = mark }

  abbrev pub second_half : LeafExtent → ℕ → Bool → LeafExtent
  second_half ex split mark = record {
    ee_block = split;
    actual_len = ex.actual_len - sub32 split ex.ee_block;
    pblock = add64 (sub32 split ex.ee_block) ex.pblock;
    unwritten = mark;
  }

  -- None is a `BUG_ON`, or as above.
  unfoldable pub ext4_split_extent_at : Leaf → LeafPath → ℕ → SplitFlags → Option (ℤ × Leaf)
  ext4_split_extent_at t p split f =
      let ex = p.ex in
      if f.data_valid1 && f.data_valid2
      then none
      else (if ltb split ex.ee_block || leb (add32 ex.ee_block ex.actual_len) split
          then none
          else (if not ex.unwritten && (f.may_zeroout || (f.mark_unwrit1 || f.mark_unwrit2))
              then none
              else (let err = ext4_ext_get_access k t in
                  if is_nonzero err
                  then some (err, t)
                  else (if split == ex.ee_block
                      then (let marked = put_ex t p (record ex { unwritten = f.mark_unwrit2 }) in
                          some (ext4_ext_dirty k marked, marked))
                      else split_in_two t p (first_half ex split f.mark_unwrit1)
                          (second_half ex split f.mark_unwrit2) f))))

  unfoldable pub ext4_force_split_extent_at : Leaf → LeafPath → ℕ → Option (ℤ × Leaf)
  ext4_force_split_extent_at t p lblk =
      let unwritten = p.ex.unwritten in
      ext4_split_extent_at t p lblk (record {
        may_zeroout = false;
        mark_unwrit1 = unwritten;
        mark_unwrit2 = unwritten;
        data_valid1 = false;
        data_valid2 = false;
      })
