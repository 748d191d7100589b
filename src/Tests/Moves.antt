-- ===== src/Tests/Moves.antt =====
-- Witnesses of the theorems on extents of a tree with one leaf.
use linux_evfs.Base.{ℕ, ◌+◌, ◌≡◌, refl, false, some, [], ◌∷◌, arith, length}
use linux_evfs.Base.Int.{pos}
use linux_evfs.Move.{State, MvIn}
use linux_evfs.Leaf.{
  LeafExtent, Leaf, LeafPath, LeafKernel, ext4_ext_binsearch, check_loop, ext4_ext_try_to_merge,
}
use linux_evfs.Leaf.Map.{unwritten_at, view, IsSorted}
use linux_evfs.Leaf.Search.{ext4_ext_binsearch-check_loop}
use linux_evfs.Leaf.Merge.{IsLeaf, AllEncode, ext4_ext_try_to_merge-view}

abbrev kernel : LeafKernel
kernel = record {
  ext_init_max_len = 32768;
  ext_unwritten_max_len = 32767;
  ext4_ext_space_root = 4;
  ext4_journal_get_write_access = λ t. pos 0;
  ext4_handle_dirty_metadata = λ t. pos 0;
  ext4_mark_inode_dirty = λ t. pos 0;
  ext4_journal_extend = λ t. pos 0;
  ext4_ext_create_new_leaf = λ t. (pos 0, length t.entries + 1);
  ext4_ext_correct_first_index = λ t. pos 0;
  ext4_ext_zeroout = λ e. pos 0;
}

-- Blocks 10 to 19 at 100, and blocks 20 to 23 at 110.
abbrev low : LeafExtent
low = record { ee_block = 10; actual_len = 10; pblock = 100; unwritten = false }

abbrev high : LeafExtent
high = record { ee_block = 20; actual_len = 4; pblock = 110; unwritten = false }

abbrev leaf : Leaf
leaf = record { entries = low ∷ high ∷ []; eh_max = 4; in_block = false }

sorted : IsSorted 0 (low ∷ high ∷ [])
sorted = (
  record {
    behind = omega arith;
    nonempty = omega arith;
    logical = omega arith;
    physical = omega arith;
  },
  (
    record {
      behind = omega arith;
      nonempty = omega arith;
      logical = omega arith;
      physical = omega arith;
    },
    omega arith,
  ),
)

leaf-IsLeaf : IsLeaf kernel leaf
leaf-IsLeaf = record { in_order = sorted; room = omega arith }

ext4_ext_binsearch-check_loop_example :
    ext4_ext_binsearch (low ∷ high ∷ []) 21 ≡ some (check_loop (low ∷ high ∷ []) 21 0 0)
ext4_ext_binsearch-check_loop_example = ext4_ext_binsearch-check_loop 0 low (high ∷ []) 21 sorted

abbrev low_path : LeafPath
low_path = record { before = []; ex = low; after = high ∷ [] }

ext4_ext_try_to_merge-view_example :
    IsLeaf kernel (ext4_ext_try_to_merge kernel leaf low_path)
    × ((c : ℕ)
        → view (ext4_ext_try_to_merge kernel leaf low_path).entries c ≡ view (low ∷ high ∷ []) c)
    × ((c : ℕ)
        → unwritten_at (ext4_ext_try_to_merge kernel leaf low_path).entries c
          ≡ unwritten_at (low ∷ high ∷ []) c)
    × AllEncode kernel (ext4_ext_try_to_merge kernel leaf low_path).entries
ext4_ext_try_to_merge-view_example =
    ext4_ext_try_to_merge-view kernel leaf low_path leaf-IsLeaf refl (
      record { init = omega arith; unwritten = omega arith },
      (record { init = omega arith; unwritten = omega arith }, tt),
    )

abbrev state : State Leaf
state = record {
  tree = leaf;
  i_version = 5;
  held = record { inode_refs = 0; inode_locks = 0; readers = 0; writers = 0; handles = 0 };
}

-- Blocks 13 to 21, which lie in both extents.
abbrev args : MvIn
args = record {
  ino_num = 12;
  exp_iver = 5;
  ext = record { log_start = 13; phy_start = 500; len = 9 };
}
