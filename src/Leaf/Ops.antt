-- ===== src/Leaf/Ops.antt =====
-- The calls that `__evfs_extent_map` makes, by the functions of extents.c on a tree with one leaf.
use linux_evfs.Base.{ℕ, Bool, Option, none, some, ◌∷◌, ◌++◌}
use linux_evfs.Base.Int.{ℤ}
use linux_evfs.Base.Errno.{eio}
use linux_evfs.Extent.{Extent, found, TreeOps}
use linux_evfs.Leaf.{
  LeafExtent, Leaf, LeafPath, LeafKernel, ext4_find_extent, ext4_ext_next_allocated_block,
  ext4_ext_dirty, ext4_ext_try_to_merge,
}
use linux_evfs.Leaf.Map.{view, begins}
use linux_evfs.Leaf.Split.{ext4_force_split_extent_at}

abbrev pub to_extent : LeafExtent → Extent
to_extent e = record { ee_block = e.ee_block; actual_len = e.actual_len; pblock = e.pblock }

-- `path[depth].p_ext` as evfs reads it.
abbrev pub p_ext : Option LeafPath → Option Extent
p_ext none = none
p_ext (some p) = some (to_extent p.ex)

-- A `BUG_ON` stops the kernel; a failure stands for it.
abbrev pub or_bug : Leaf → Option (ℤ × Leaf) → ℤ × Leaf
or_bug t none = (eio, t)
or_bug t (some r) = r

module _ (k : LeafKernel) where
  abbrev pub split_path : Leaf → ℕ → Option LeafPath → ℤ × Leaf
  split_path t at none = (eio, t)
  split_path t at (some p) = or_bug t (ext4_force_split_extent_at k t p at)

  abbrev pub store_path : Leaf → ℕ → Option LeafPath → Leaf
  store_path t pblock none = t
  store_path t pblock (some p) = record t {
    entries = p.before ++ record (p.ex) { pblock = pblock } ∷ p.after;
  }

  abbrev pub merge_path : Leaf → Option LeafPath → Leaf
  merge_path t none = t
  merge_path t (some p) = ext4_ext_try_to_merge k t p

  -- The path that a call works on is the one to the extent it is given.
  abbrev pub leaf_ops : TreeOps Leaf
  leaf_ops = record {
    ext4_find_extent = λ t lblk.
        let p = ext4_find_extent t.entries lblk in
        found (p_ext p) (ext4_ext_next_allocated_block p);
    ext4_force_split_extent_at = λ t at. split_path t at (ext4_find_extent t.entries at);
    ext4_ext_store_pblock = λ t at pblock. store_path t pblock (ext4_find_extent t.entries at);
    ext4_ext_try_to_merge = λ t at. merge_path t (ext4_find_extent t.entries at);
    ext4_ext_dirty = λ t at. (ext4_ext_dirty k t, t);
  }

  abbrev pub leaf_view : Leaf → ℕ → Option ℕ
  leaf_view t = view t.entries

  abbrev pub leaf_begins : Leaf → ℕ → Bool
  leaf_begins t = begins t.entries
