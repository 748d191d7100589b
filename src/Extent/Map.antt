-- ===== src/Extent/Map.antt =====
-- What one call of `__evfs_extent_map` does with the range that it is given: covered by an extent,
-- longer than its extent, or beginning in a hole.
use linux_evfs.Base.{
  ℕ, ◌+◌, ◌-◌, ◌^◌, ◌≤◌, ◌<◌, ◌≡◌, ◌∙◌, inl, inr, true, false, some, arith, ltb, if◌then◌else◌,
  Bool-cases, lt→ltb, le→ltb, lt→leb,
}
use linux_evfs.Base.Int.{ℤ, pos}
use linux_evfs.Extent.{
  EvfsExt, Extent, found, TreeOps, Mapped, ends, again, add32, sub32, add64, sub64, no_ext, ret_jmp,
  set_next, swap_extent, split_extent, trim, cover_extent, map_round,
}

-- The range ends below the largest logical block, and its physical blocks fit 64 bits.
pub record Fits (c : EvfsExt) : Type 0 where
  pub nonempty : 0 < c.len
  pub logical : c.log_start + c.len < 2 ^ 32
  pub physical : c.phy_start + c.len < 2 ^ 64

module _ {T : Type 0} (ops : TreeOps T) (curr : EvfsExt) where
  -- The tree after the extent at `log_start` got its new first block and was merged and marked.
  unfoldable pub remapped : T → ℤ × T
  remapped t =
      ops.ext4_ext_dirty
        (ops.ext4_ext_try_to_merge (ops.ext4_ext_store_pblock t curr.log_start curr.phy_start)
          curr.log_start)
        curr.log_start

module _ {T : Type 0} (ops : TreeOps T) (curr : EvfsExt) (fits : Fits curr) where
  -- An extent that begins where the range begins and ends with it or before it.
  module _ (ex : Extent) (nb : ℕ) (t t' : T)
      (here : ops.ext4_find_extent t curr.log_start ≡ found (some ex) nb)
      (start : ex.ee_block ≡ curr.log_start) (nonempty : 0 < ex.actual_len)
      (short : ex.actual_len ≤ curr.len) (marked : remapped ops curr t ≡ (pos 0, t')) where
    -- The blocks that were mapped come out, and what the extent did not cover is left to map.
    abbrev pub outcome : Mapped T
    outcome = record {
      ret = pos 0;
      curr = record { log_start = curr.log_start; phy_start = ex.pblock; len = ex.actual_len };
      next =
          if ltb ex.actual_len curr.len
          then record {
            log_start = curr.log_start + ex.actual_len;
            phy_start = curr.phy_start + ex.actual_len;
            len = curr.len - ex.actual_len;
          }
          else no_ext;
      tree = t';
    }

    end_same : add32 ex.ee_block ex.actual_len ≡ curr.log_start + ex.actual_len
    end_same = omega (arith, fits.logical)

    trimmed : trim ops (curr.log_start + ex.actual_len) curr.log_start curr.len ≡ ex.actual_len
    unfolding trim
    trimmed = ground (arith, fits.logical)

    add_small : add32 curr.log_start ex.actual_len ≡ curr.log_start + ex.actual_len
    add_small = omega (arith, fits.logical)

    reaches_cover :
        map_round ops curr curr.log_start curr.len t
        ≡ cover_extent ops curr ex curr.log_start curr.len t
    unfolding map_round
    reaches_cover = rw (
      map_round,
      here,
      le→ltb curr.log_start ex.ee_block (omega arith),
      end_same,
      lt→leb curr.log_start (curr.log_start + ex.actual_len) (omega arith),
    )

    reaches_swap :
        cover_extent ops curr ex curr.log_start curr.len t
        ≡ swap_extent ops curr ex curr.log_start ex.actual_len t
    unfolding cover_extent
    reaches_swap =
        let lo = curr.log_start in
        let total : add32 lo curr.len ≡ lo + curr.len = omega (arith, fits.logical) in
        let back : sub32 (lo + curr.len) lo ≡ curr.len = omega (arith, fits.logical) in
        rw (
          total,
          lt→leb lo (lo + curr.len) (omega (arith, fits.nonempty)),
          back,
          le→ltb ex.ee_block lo (omega arith),
          end_same,
          trimmed,
          add_small,
          le→ltb (lo + ex.actual_len) (lo + ex.actual_len) (omega arith),
        )

    swaps :
        swap_extent ops curr ex curr.log_start ex.actual_len t
        ≡ set_next ops curr ex curr.log_start ex.actual_len t'
    unfolding swap_extent remapped
    swaps =
        let new : sub64 (add64 curr.phy_start curr.log_start) curr.log_start ≡ curr.phy_start =
          omega (arith, fits.physical, fits.logical) in
        rw (new, start, marked)

    next_range : set_next ops curr ex curr.log_start ex.actual_len t' ≡ ends outcome
    unfolding set_next
    next_range =
        let lo = curr.log_start in
        let total : add32 lo curr.len ≡ lo + curr.len = omega (arith, fits.logical) in
        let rest : sub32 (lo + curr.len) (lo + ex.actual_len) ≡ curr.len - ex.actual_len =
          omega (arith, fits.logical) in
        let phys : add64 (sub64 (add64 curr.phy_start lo) lo) ex.actual_len
            ≡ curr.phy_start + ex.actual_len =
          omega (arith, fits.physical, fits.logical) in
        rw (total, end_same)
          (elim (Bool-cases (ltb ex.actual_len curr.len)) [
            | inl e ↦
                let e' : ltb (lo + ex.actual_len) (lo + curr.len) ≡ true = ground arith in
                rw (e, e', rest, phys)
            | inr e ↦
                let e' : ltb (lo + ex.actual_len) (lo + curr.len) ≡ false = ground arith in
                rw (e, e')
          ])

    pub map_round-prefix : map_round ops curr curr.log_start curr.len t ≡ ends outcome
    map_round-prefix = reaches_cover ∙ reaches_swap ∙ swaps ∙ next_range

  -- An extent that begins before the range is split at its start.
  pub map_round-split_left :
      (ex : Extent) (nb : ℕ) (t t' : T)
      → ops.ext4_find_extent t curr.log_start ≡ found (some ex) nb
      → ex.ee_block < curr.log_start
      → curr.log_start < ex.ee_block + ex.actual_len
      → ex.ee_block + ex.actual_len < 2 ^ 32
      → ops.ext4_force_split_extent_at t curr.log_start ≡ (pos 0, t')
      → map_round ops curr curr.log_start curr.len t ≡ again curr.log_start curr.len t'
  unfolding map_round cover_extent split_extent
  map_round-split_left ex nb t t' here before inside small split =
      let lo = curr.log_start in
      let end : add32 ex.ee_block ex.actual_len ≡ ex.ee_block + ex.actual_len = omega arith in
      let total : add32 lo curr.len ≡ lo + curr.len = omega (arith, fits.logical) in
      let back : sub32 (lo + curr.len) lo ≡ curr.len = omega (arith, fits.logical) in
      rw (
        map_round,
        here,
        le→ltb lo ex.ee_block (omega arith),
        end,
        lt→leb lo (ex.ee_block + ex.actual_len) inside,
        total,
        lt→leb lo (lo + curr.len) (omega (arith, fits.nonempty)),
        back,
        lt→ltb ex.ee_block lo before,
        split,
      )

  -- An extent that begins with the range and ends behind it is split at the end of the range.
  pub map_round-split_right :
      (ex : Extent) (nb : ℕ) (t t' : T)
      → ops.ext4_find_extent t curr.log_start ≡ found (some ex) nb
      → ex.ee_block ≡ curr.log_start
      → curr.len < ex.actual_len
      → ex.ee_block + ex.actual_len < 2 ^ 32
      → ops.ext4_force_split_extent_at t (curr.log_start + curr.len) ≡ (pos 0, t')
      → map_round ops curr curr.log_start curr.len t ≡ again curr.log_start curr.len t'
  unfolding map_round cover_extent split_extent trim
  map_round-split_right ex nb t t' here start longer small split =
      let lo = curr.log_start in
      let end : add32 ex.ee_block ex.actual_len ≡ lo + ex.actual_len = omega arith in
      let total : add32 lo curr.len ≡ lo + curr.len = omega (arith, fits.logical) in
      let back : sub32 (lo + curr.len) lo ≡ curr.len = omega (arith, fits.logical) in
      rw (
        map_round,
        here,
        le→ltb lo ex.ee_block (omega arith),
        end,
        lt→leb lo (lo + ex.actual_len) (omega (arith, fits.nonempty)),
        total,
        lt→leb lo (lo + curr.len) (omega (arith, fits.nonempty)),
        back,
        le→ltb ex.ee_block lo (omega arith),
        total,
        le→ltb (lo + ex.actual_len) (lo + curr.len) (omega arith),
        total,
        lt→ltb (lo + curr.len) (lo + ex.actual_len) (omega arith),
        split,
      )

  -- A range that begins in a hole: the function stops before the next extent.
  pub map_round-hole :
      (ex : Extent) (nb : ℕ) (t : T)
      → ops.ext4_find_extent t curr.log_start ≡ found (some ex) nb
      → curr.log_start < ex.ee_block
      → ex.ee_block < 2 ^ 32
      → map_round ops curr curr.log_start curr.len t
        ≡ ends (record {
          ret = pos 0;
          curr = record curr { len = ex.ee_block - curr.log_start };
          next = record {
            log_start = ex.ee_block;
            phy_start = add64 curr.phy_start (ex.ee_block - curr.log_start);
            len = sub32 curr.len (ex.ee_block - curr.log_start);
          };
          tree = t;
        })
  unfolding map_round ret_jmp
  map_round-hole ex nb t here before small =
      let lo = curr.log_start in
      let jump : sub32 ex.ee_block lo ≡ ex.ee_block - lo = omega arith in
      let to : add32 lo (ex.ee_block - lo) ≡ ex.ee_block = omega arith in
      rw (map_round, here, lt→ltb lo ex.ee_block before, jump, to)
