-- ===== src/Extent/Laws.antt =====
-- An extent tree as a map from logical to physical blocks: what `__evfs_extent_map` (evfs.c) relies on
-- of the functions of extents.c that it calls.
use linux_evfs.Base.{
  ℕ, ◌+◌, ◌-◌, ◌^◌, ◌≤◌, ◌<◌, ◌≡◌, Bool, true, false, ◌&&◌, Option, some, ltb, leb, ◌==◌,
  if◌then◌else◌,
}
use linux_evfs.Base.Int.{pos}
use linux_evfs.Extent.{Extent, found, TreeOps}

-- `b` lies in the range of `n` blocks from `from` on.
abbrev pub within : ℕ → ℕ → ℕ → Bool
within from n b = leb from b && ltb b (from + n)

-- `view` maps a logical block to its physical block, and `begins` says where an extent begins.
module _ {T : Type 0} (ops : TreeOps T) (view : T → ℕ → Option ℕ) (begins : T → ℕ → Bool) where
  -- `ex` is the extent that is found for `b`, and `b` lies in it.
  pub record Covers (t : T) (b : ℕ) (ex : Extent) (next_block : ℕ) : Type 0 where
    pub here : ops.ext4_find_extent t b ≡ found (some ex) next_block
    pub from : ex.ee_block ≤ b
    pub to : b < ex.ee_block + ex.actual_len
    pub small : ex.ee_block + ex.actual_len < 2 ^ 32
    pub mapped : (i : ℕ) → i < ex.actual_len → view t (ex.ee_block + i) ≡ some (ex.pblock + i)
    pub starts : begins t ex.ee_block ≡ true
    pub whole : (c : ℕ) → ex.ee_block < c → c < ex.ee_block + ex.actual_len → begins t c ≡ false

-- The functions of the tree by what they do to the map. A call that can fail is described for the
-- result 0 only.
pub record TreeLaws {T : Type 0} (ops : TreeOps T) : Type 1 where
  pub view : T → ℕ → Option ℕ
  pub begins : T → ℕ → Bool
  pub IsTree : T → Type 0
  pub find_lem :
      (t : T) (b p : ℕ)
      → IsTree t
      → view t b ≡ some p
      → (ex : Extent) × (next_block : ℕ) × Covers ops view begins t b ex next_block
  pub split_lem :
      (t t' : T) (b at : ℕ) (ex : Extent) (next_block : ℕ)
      → IsTree t
      → Covers ops view begins t b ex next_block
      → ex.ee_block < at
      → at < ex.ee_block + ex.actual_len
      → ops.ext4_force_split_extent_at t at ≡ (pos 0, t')
      → IsTree t'
        × ((c : ℕ) → view t' c ≡ view t c)
        × ((c : ℕ) → begins t' c ≡ (if c == at then true else begins t c))
  pub store_lem :
      (t : T) (b p : ℕ) (ex : Extent) (next_block : ℕ)
      → IsTree t
      → Covers ops view begins t b ex next_block
      → p + ex.actual_len < 2 ^ 48
      → let t' = ops.ext4_ext_store_pblock t ex.ee_block p in
        IsTree t'
        × ((c : ℕ)
            → view t' c ≡ (
                if within ex.ee_block ex.actual_len c
                then some (p + (c - ex.ee_block))
                else view t c))
        × (begins t' ex.ee_block ≡ true)
  pub merge_lem :
      (t : T) (at : ℕ)
      → IsTree t
      → begins t at ≡ true
      → let t' = ops.ext4_ext_try_to_merge t at in IsTree t' × ((c : ℕ) → view t' c ≡ view t c)
  pub dirty_lem :
      (t t' : T) (at : ℕ)
      → IsTree t
      → ops.ext4_ext_dirty t at ≡ (pos 0, t')
      → IsTree t' × ((c : ℕ) → view t' c ≡ view t c)

-- No split inside an extent and no mark of a changed extent fails.
pub record NoErrors {T : Type 0} (ops : TreeOps T) (laws : TreeLaws ops) : Type 0 where
  pub split_ok :
      (t : T) (b at : ℕ) (ex : Extent) (next_block : ℕ)
      → laws.IsTree t
      → Covers ops laws.view laws.begins t b ex next_block
      → ex.ee_block < at
      → at < ex.ee_block + ex.actual_len
      → (ops.ext4_force_split_extent_at t at).0 ≡ pos 0
  pub dirty_ok : (t : T) (at : ℕ) → laws.IsTree t → (ops.ext4_ext_dirty t at).0 ≡ pos 0
