-- ===== src/Tests/Extents.antt =====
-- Witnesses of the theorems on the extent functions.
use linux_evfs.Base.{ℕ, ◌≡◌, refl, some, List, [], ◌∷◌}
use linux_evfs.Base.Int.{pos}
use linux_evfs.Extent.{
  EvfsExt, Extent, map_loop, map_round, cover_extent, swap_extent, set_next, trim, evfs_extent_map,
}
use linux_evfs.Move.{MvIn, move_loop, evfs_iver, MvOut, State, evfs_extent_move}
use linux_evfs.Move.Bounds.{IsClean, evfs_extent_move-IsClean}
use linux_evfs.Samples.{tree_ops, inode_state, move_kernel}

-- Twelve blocks from block 10 on, and four from block 13 on.
abbrev twelve : EvfsExt
twelve = record { log_start = 10; phy_start = 500; len = 12 }

abbrev four : EvfsExt
four = record { log_start = 13; phy_start = 500; len = 4 }

abbrev hole : EvfsExt
hole = record { log_start = 4; phy_start = 500; len = 8 }

abbrev in_hole : EvfsExt
in_hole = record { log_start = 4; phy_start = 500; len = 2 }

abbrev at : ℕ → ℕ → ℕ → Extent
at b n p = record { ee_block = b; actual_len = n; pblock = p }

abbrev moved : MvOut × State (List Extent)
moved = (
  record { ret = pos 0; exts = record { log_start = 10; phy_start = 100; len = 10 } ∷ [] },
  record inode_state { tree = at 10 10 500 ∷ [] },
)

abbrev move_args : MvIn
move_args = record {
  ino_num = 12;
  exp_iver = 5;
  ext = record { log_start = 10; phy_start = 500; len = 10 };
}

runs : evfs_extent_move tree_ops move_kernel 1 move_args inode_state ≡ some moved
unfolding evfs_extent_move move_loop evfs_iver evfs_extent_map map_loop map_round cover_extent
    swap_extent set_next trim
runs = refl

evfs_extent_move-IsClean_example : IsClean tree_ops move_kernel 10 inode_state.held moved
evfs_extent_move-IsClean_example =
    evfs_extent_move-IsClean tree_ops move_kernel 1 move_args inode_state moved runs

abbrev at_start : State (List Extent)
at_start = record inode_state { tree = at 0 10 100 ∷ [] }
