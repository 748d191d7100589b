-- ===== src/Extent/Swap.antt =====
-- Whole calls of `__evfs_extent_map` (evfs.c), by where the range lies.
use linux_evfs.Base.{
  ℕ, suc, ◌+◌, ◌-◌, ◌^◌, ◌≤◌, ◌<◌, ◌≡◌, refl, some, arith, ltb, if◌then◌else◌, le→ltb,
}
use linux_evfs.Base.Int.{pos}
use linux_evfs.Extent.{
  EvfsExt, Extent, found, TreeOps, Mapped, sub32, add64, no_ext, map_loop, evfs_extent_map,
}
use linux_evfs.Extent.Map.{
  Fits, remapped, map_round-prefix, map_round-split_left, map_round-split_right, map_round-hole,
}

module _ {T : Type 0} (ops : TreeOps T) (curr : EvfsExt) where
  -- The logical extent `ex` of a tree, found by its own blocks from `log_start` on.
  abbrev pub Finds : T → Extent → Type 0
  Finds t ex = (nb : ℕ) × (ops.ext4_find_extent t curr.log_start ≡ found (some ex) nb)

  -- An extent that begins with the range and is not longer than it: one round maps it to the new
  -- blocks, hands out the old ones, and leaves the rest of the range, or nothing, to map.
  pub evfs_extent_map-prefix :
      (fuel : ℕ) (ex : Extent) (t t' : T)
      → Fits curr
      → Finds t ex
      → ex.ee_block ≡ curr.log_start
      → 0 < ex.actual_len
      → ex.actual_len ≤ curr.len
      → remapped ops curr t ≡ (pos 0, t')
      → evfs_extent_map ops (suc fuel) curr t
        ≡ some (record {
          ret = pos 0;
          curr = record { log_start = curr.log_start; phy_start = ex.pblock; len = ex.actual_len };
          next =
              if ltb ex.actual_len curr.len
              then record {
                log_start = curr.log_start + ex.actual_len;
                phy_start = curr.phy_start + ex.actual_len;
                len = curr.len - ex.actual_len;
              }
              else no_ext;
          tree = t';
        })
  unfolding evfs_extent_map map_loop
  evfs_extent_map-prefix fuel ex t t' fits (nb, here) start nonempty short marked = rw (
    evfs_extent_map,
    map_loop,
    map_round-prefix ops curr fits ex nb t t' here start nonempty short marked,
  )

  -- A range strictly inside one extent: the extent is split at the start and at the end of the
  -- range, exactly the range is mapped to the new blocks, the old blocks of the range are handed
  -- out, and nothing is left to map. Three rounds are enough.
  pub evfs_extent_map-middle :
      (fuel : ℕ) (ex right middle : Extent) (t t1 t2 t3 : T)
      → Fits curr
      → Finds t ex
      → ex.ee_block < curr.log_start
      → curr.log_start + curr.len < ex.ee_block + ex.actual_len
      → ex.ee_block + ex.actual_len < 2 ^ 32
      → ops.ext4_force_split_extent_at t curr.log_start ≡ (pos 0, t1)
      → Finds t1 right
      → right.ee_block ≡ curr.log_start
      → right.ee_block + right.actual_len ≡ ex.ee_block + ex.actual_len
      → ops.ext4_force_split_extent_at t1 (curr.log_start + curr.len) ≡ (pos 0, t2)
      → Finds t2 middle
      → middle.ee_block ≡ curr.log_start
      → middle.actual_len ≡ curr.len
      → remapped ops curr t2 ≡ (pos 0, t3)
      → evfs_extent_map ops (suc (suc (suc fuel))) curr t
        ≡ some (record {
          ret = pos 0;
          curr = record { log_start = curr.log_start; phy_start = middle.pblock; len = curr.len };
          next = no_ext;
          tree = t3;
        })
  unfolding evfs_extent_map map_loop
  evfs_extent_map-middle fuel ex right middle t t1 t2 t3 fits (nb, here) before inside small split
        (nb1, here1) start1 end1 split1 (nb2, here2) start2 end2 marked =
      rw (
        evfs_extent_map,
        map_loop,
        map_round-split_left ops curr fits ex nb t t1 here before (omega (arith, fits.nonempty))
            small split,
        map_loop,
        map_round-split_right ops curr fits right nb1 t1 t2 here1 start1 (omega arith) (omega arith)
            split1,
        map_loop,
        map_round-prefix ops curr fits middle nb2 t2 t3 here2 start2 (omega (arith, fits.nonempty))
            (omega arith) marked,
        end2,
        le→ltb curr.len curr.len (omega arith),
      )

  -- A range that begins in a hole and reaches the next extent: the hole is handed out as it is, the
  -- rest of the range is left to map, and the tree does not change.
  pub evfs_extent_map-hole :
      (fuel : ℕ) (ex : Extent) (t : T)
      → Fits curr
      → Finds t ex
      → curr.log_start < ex.ee_block
      → ex.ee_block < curr.log_start + curr.len
      → let jump = ex.ee_block - curr.log_start in
        evfs_extent_map ops (suc fuel) curr t
        ≡ some (record {
          ret = pos 0;
          curr = record curr { len = jump };
          next = record {
            log_start = curr.log_start + jump;
            phy_start = curr.phy_start + jump;
            len = curr.len - jump;
          };
          tree = t;
        })
  unfolding evfs_extent_map map_loop
  evfs_extent_map-hole fuel ex t fits (nb, here) before reaches =
      let jump = ex.ee_block - curr.log_start in
      let lo : curr.log_start + jump ≡ ex.ee_block = omega arith in
      let phys : add64 curr.phy_start jump ≡ curr.phy_start + jump = omega (arith, fits.physical) in
      let rest : sub32 curr.len jump ≡ curr.len - jump = omega (arith, fits.logical) in
      rw (
        evfs_extent_map,
        map_loop,
        map_round-hole ops curr fits ex nb t here before (omega (arith, fits.logical)),
        lo,
        phys,
        rest,
      )

  -- A range that lies in a hole which reaches beyond its end: what is left to map is not empty, as
  -- the length wraps around, and begins behind the range, at an extent that was not named.
  pub evfs_extent_map-overrun :
      (fuel : ℕ) (ex : Extent) (t : T)
      → Fits curr
      → Finds t ex
      → curr.log_start + curr.len < ex.ee_block
      → ex.ee_block < 2 ^ 32
      → (m : Mapped T) × (evfs_extent_map ops (suc fuel) curr t ≡ some m)
        × (m.ret ≡ pos 0)
        × (m.next.log_start ≡ ex.ee_block)
        × (m.next.len ≡ 2 ^ 32 + (curr.log_start + curr.len) - ex.ee_block)
        × (0 < m.next.len)
  unfolding evfs_extent_map map_loop
  evfs_extent_map-overrun fuel ex t fits (nb, here) behind small = (
    record {
      ret = pos 0;
      curr = record curr { len = ex.ee_block - curr.log_start };
      next = record {
        log_start = ex.ee_block;
        phy_start = add64 curr.phy_start (ex.ee_block - curr.log_start);
        len = sub32 curr.len (ex.ee_block - curr.log_start);
      };
      tree = t;
    },
    rw (evfs_extent_map, map_loop, map_round-hole ops curr fits ex nb t here (omega arith) small),
    refl,
    refl,
    omega arith,
    omega arith,
  )
