-- ===== src/Leaf.antt =====
-- The functions of linux-6.8/fs/ext4/extents.c that `__evfs_extent_map` calls, on a tree with one leaf.
pub mod Search
pub mod Path
pub mod Map
pub mod Store
pub mod Merge
pub mod Split
pub mod Ops
pub mod Entry
pub mod Laws
use linux_evfs.Base.{
  ℕ, zero, suc, ◌+◌, ◌-◌, ◌*◌, ◌/◌, ◌%◌, ◌^◌, ◌≤◌, ◌<◌, ◌≡◌, refl, sym, ap, ◌∙◌, ◌≢◌, inl, inr,
  Bool, true, false, not, ◌&&◌, ◌||◌, Option, none, some, List, [], ◌∷◌, ◌++◌, arith, length,
  get_or, ltb, leb, ◌==◌, if◌then◌else◌, Bool-cases,
}
use linux_evfs.Base.Int.{ℤ, pos, negsuc, is_nonzero}
use linux_evfs.Extent.{
  Extent, FindResult, find_error, found, TreeOps, ext_max_blocks, add32, sub32, add64,
}

-- What is read of a `struct ext4_extent` with the accessors of ext4_extents.h. A write of `ee_len`
-- is a write of the length here, of at most `init_max_len` blocks, and clears the mark.
pub record LeafExtent : Type 0 where
  pub ee_block : ℕ
  pub actual_len : ℕ
  pub pblock : ℕ
  pub unwritten : Bool

-- A tree with one leaf: its entries, `eh_max`, and whether it is in a block of its own (depth 1)
-- or in the inode (depth 0).
pub record Leaf : Type 0 where
  pub entries : List LeafExtent
  pub eh_max : ℕ
  pub in_block : Bool

-- What a path ends in: the entry that `p_ext` points to, with those before and behind it.
pub record LeafPath : Type 0 where
  pub before : List LeafExtent
  pub ex : LeafExtent
  pub after : List LeafExtent

-- The constants of ext4_extents.h, the calls of the journal and of the device, and what the functions do
-- above the leaf: the result of `ext4_ext_create_new_leaf` with `eh_max` of the block that the
-- entries are then in, and that of `ext4_ext_correct_indexes` for the first entry of a block.
pub record LeafKernel : Type 0 where
  pub ext_init_max_len : ℕ
  pub ext_unwritten_max_len : ℕ
  pub ext4_ext_space_root : ℕ
  pub ext4_journal_get_write_access : Leaf → ℤ
  pub ext4_handle_dirty_metadata : Leaf → ℤ
  pub ext4_mark_inode_dirty : Leaf → ℤ
  pub ext4_journal_extend : Leaf → ℤ
  pub ext4_ext_create_new_leaf : Leaf → ℤ × ℕ
  pub ext4_ext_correct_first_index : Leaf → ℤ
  pub ext4_ext_zeroout : LeafExtent → ℤ

abbrev pub no_entry : LeafExtent
no_entry = record { ee_block = 0; actual_len = 0; pblock = 0; unwritten = false }

abbrev pub entry_at : List LeafExtent → ℕ → LeafExtent
entry_at es i = get_or es i no_entry

abbrev pub path_entries : LeafPath → List LeafExtent
path_entries p = p.before ++ p.ex ∷ p.after

-- The loop of `ext4_ext_binsearch`, with the index of an entry for its address.
unfoldable pub binsearch_loop : ℕ → List LeafExtent → ℕ → ℕ → ℕ → ℕ
binsearch_loop zero es block l r = l - 1
binsearch_loop (suc fuel) es block l r =
    let m = l + (r - l) / 2 in
    let left = ltb block (entry_at es m).ee_block in
    let rest =
      binsearch_loop fuel es block (if left then l else m + 1) (if left then m - 1 else r) in
    if leb l r then rest else l - 1

-- `p_ext`, or none for an empty leaf.
unfoldable pub ext4_ext_binsearch : List LeafExtent → ℕ → Option ℕ
ext4_ext_binsearch [] block = none
ext4_ext_binsearch (e ∷ es) block =
    some (binsearch_loop (length (e ∷ es)) (e ∷ es) block 1 (length es))

-- The scan that `CHECK_BINSEARCH` compares with.
unfoldable pub check_loop : List LeafExtent → ℕ → ℕ → ℕ → ℕ
check_loop [] block k chex = chex
check_loop (e ∷ es) block k chex =
    if ltb block e.ee_block then chex else check_loop es block (k + 1) k

abbrev pub push_before : LeafExtent → LeafPath → LeafPath
push_before e p = record p { before = e ∷ p.before }

unfoldable pub path_at : List LeafExtent → ℕ → Option LeafPath
path_at [] i = none
path_at (e ∷ es) zero = some (record { before = []; ex = e; after = es })
path_at (e ∷ es) (suc i) = elim (path_at es i) [ none ↦ none | some p ↦ some (push_before e p) ]

-- `ext4_find_extent` on a tree with one leaf.
unfoldable pub ext4_find_extent : List LeafExtent → ℕ → Option LeafPath
ext4_find_extent es block = elim (ext4_ext_binsearch es block) [
  | none ↦ none
  | some i ↦ path_at es i
]

unfoldable pub ext4_ext_next_allocated_block : Option LeafPath → ℕ
ext4_ext_next_allocated_block none = ext_max_blocks
ext4_ext_next_allocated_block (some p) = elim p.after [ [] ↦ ext_max_blocks | e ∷ es ↦ e.ee_block ]

module _ (k : LeafKernel) where
  open k use {
    ext_init_max_len, ext_unwritten_max_len, ext4_ext_space_root, ext4_journal_get_write_access,
    ext4_handle_dirty_metadata, ext4_mark_inode_dirty, ext4_journal_extend,
    ext4_ext_create_new_leaf,
  }

  unfoldable pub ext4_can_extents_be_merged : LeafExtent → LeafExtent → Bool
  ext4_can_extents_be_merged ex1 ex2 =
      let ext1_ee_len = ex1.actual_len in
      let ext2_ee_len = ex2.actual_len in
      if (if ex1.unwritten then not ex2.unwritten else ex2.unwritten)
      then false
      else (if not (add32 ex1.ee_block ext1_ee_len == ex2.ee_block)
          then false
          else (if ltb ext_init_max_len (ext1_ee_len + ext2_ee_len)
              then false
              else (if ex1.unwritten && ltb ext_unwritten_max_len (ext1_ee_len + ext2_ee_len)
                  then false
                  else (add64 ex1.pblock ext1_ee_len == ex2.pblock))))

  -- The extent that grows over the next one, with its mark.
  abbrev pub merged : LeafExtent → LeafExtent → LeafExtent
  merged ex next = record ex { actual_len = ex.actual_len + next.actual_len }

  -- The extent with the entries behind it, and `merge_done`.
  unfoldable pub ext4_ext_try_to_merge_right : LeafExtent → List LeafExtent → List LeafExtent × Bool
  ext4_ext_try_to_merge_right ex [] = (ex ∷ [], false)
  ext4_ext_try_to_merge_right ex (next ∷ rest) =
      let (es, more) = ext4_ext_try_to_merge_right (merged ex next) rest in
      if ext4_can_extents_be_merged ex next then (es, true) else (ex ∷ next ∷ rest, false)

  -- Both attempts, to the left of the extent first.
  unfoldable pub try_to_merge_entries :
      List LeafExtent → LeafExtent → List LeafExtent → List LeafExtent
  try_to_merge_entries [] ex after = (ext4_ext_try_to_merge_right ex after).0
  try_to_merge_entries (e ∷ []) ex after =
      let (es, merge_done) = ext4_ext_try_to_merge_right e (ex ∷ after) in
      if merge_done then es else e ∷ (ext4_ext_try_to_merge_right ex after).0
  try_to_merge_entries (e ∷ e' ∷ es) ex after = e ∷ try_to_merge_entries (e' ∷ es) ex after

  unfoldable pub ext4_ext_try_to_merge_up : Leaf → Leaf
  ext4_ext_try_to_merge_up t =
      if not t.in_block || ltb ext4_ext_space_root (length t.entries)
      then t
      else (if is_nonzero (ext4_journal_extend t)
          then t
          else record t { eh_max = ext4_ext_space_root; in_block = false })

  unfoldable pub ext4_ext_try_to_merge : Leaf → LeafPath → Leaf
  ext4_ext_try_to_merge t p =
      ext4_ext_try_to_merge_up (record t { entries = try_to_merge_entries p.before p.ex p.after })

  unfoldable pub ext4_ext_dirty : Leaf → ℤ
  ext4_ext_dirty t = if t.in_block then ext4_handle_dirty_metadata t else ext4_mark_inode_dirty t

  unfoldable pub ext4_ext_get_access : Leaf → ℤ
  ext4_ext_get_access t = if t.in_block then ext4_journal_get_write_access t else pos 0
