-- ===== src/Block/Invariant.antt =====
-- The invariant that ties the free count of a group to its bitmap, and the block functions of evfs.c.
use linux_evfs.Base.{
  ℕ, ◌+◌, ◌<◌, ◌≡◌, ◌⊎◌, inl, inr, true, false, arith, length, get_or, set, ◌==◌, if◌then◌else◌,
  Bool-cases, length-set,
}
use linux_evfs.Base.Int.{ℤ, is_neg}
use linux_evfs.Ext4.Desc.{ext4_free_group_clusters}
use linux_evfs.Ext4.State.{Group, SbInfo, Fs, set_group, get_bh, start_handle}
use linux_evfs.Ext4.Kernel.{LeBitops, BlockKernel}
use linux_evfs.Ext4.Bitmap.{
  clear_bits, clear_bits-le-length, clear_bits-set-true, clear_bits-set-false, set-same,
}
use linux_evfs.Ext4.Desc64.{count_bound}
use linux_evfs.Block.{
  out, stop_journal, dirty_metadata, alloc_desc, free_desc, alloc_super, alloc_locked, open_group,
  evfs_block_alloc, free_super, free_locked, evfs_block_free,
}
use linux_evfs.Block.Counts.{
  BitmapCsumLaw, alloc_desc-free, alloc_desc-uninit, free_desc-free, free_desc-uninit,
}

-- The free count of a group is the number of clear bits of its block bitmap, the descriptor is
-- wide enough for the size of the bitmap, and the bitmap is initialised.
pub record IsCounted (sbi : SbInfo) (grp : Group) : Type 0 where
  pub counted : ext4_free_group_clusters sbi.wide grp.desc ≡ clear_bits grp.block_bits
  pub fits : length grp.block_bits < count_bound sbi.wide
  pub inited : grp.desc.block_uninit ≡ false

module _ (b : LeBitops) (k : BlockKernel) (sbi : SbInfo) where
  -- What `evfs_block_alloc` makes of the group, and of the superblock.
  alloc_group : ℕ → ℕ → Group → Group
  alloc_group g offset grp =
      let (old, bits) = b.ext4_test_and_set_bit offset grp.block_bits in
      if old
      then record grp { block_bits = bits }
      else record grp { block_bits = bits; desc = alloc_desc b k sbi g bits grp.desc }

  free_group : ℕ → ℕ → Group → Group
  free_group g offset grp =
      let (old, bits) = b.ext4_test_and_clear_bit offset grp.block_bits in
      if old
      then record grp { block_bits = bits; desc = free_desc b k sbi g bits grp.desc }
      else record grp { block_bits = bits }

  stop_journal-group :
      (ret : ℤ) (fs : Fs)
      → ((stop_journal b k sbi ret fs).1.group ≡ fs.group)
        × ((stop_journal b k sbi ret fs).1.es ≡ fs.es)
  unfolding stop_journal out
  stop_journal-group ret fs = ground arith

  dirty_metadata-group :
      (g : ℕ) (fs : Fs)
      → ((dirty_metadata b k sbi g fs).1.group ≡ fs.group)
        × ((dirty_metadata b k sbi g fs).1.es ≡ fs.es)
  unfolding dirty_metadata
  dirty_metadata-group g fs = grind (arith, stop_journal-group)

  alloc_locked-group :
      (g offset : ℕ) (fs : Fs)
      → ((alloc_locked b k sbi g offset fs).1.group
          ≡ (set_group g (alloc_group g offset (fs.group g)) fs).group)
        × ((alloc_locked b k sbi g offset fs).1.es ≡ (
            if (b.ext4_test_and_set_bit offset (fs.group g).block_bits).0
            then fs.es
            else (alloc_super b k sbi fs).es))
  unfolding alloc_locked alloc_super alloc_group
  alloc_locked-group g offset fs =
      elim (Bool-cases (b.ext4_test_and_set_bit offset (fs.group g).block_bits).0) [
        | inl e ↦ rw e (stop_journal-group _ _)
        | inr e ↦ rw e (dirty_metadata-group g _)
      ]

  free_locked-group :
      (g offset : ℕ) (fs : Fs)
      → ((free_locked b k sbi g offset fs).1.group
          ≡ (set_group g (free_group g offset (fs.group g)) fs).group)
        × ((free_locked b k sbi g offset fs).1.es ≡ (
            if (b.ext4_test_and_clear_bit offset (fs.group g).block_bits).0
            then (free_super b k sbi fs).es
            else fs.es))
  unfolding free_locked free_super free_group
  free_locked-group g offset fs =
      elim (Bool-cases (b.ext4_test_and_clear_bit offset (fs.group g).block_bits).0) [
        | inl e ↦ rw e (dirty_metadata-group g _)
        | inr e ↦ rw e (stop_journal-group _ _)
      ]

  -- Either an opening step fails, with its error and nothing changed, or the locked part runs.
  open_group-cases :
      (locked : ℕ → ℕ → Fs → ℤ × Fs) (bindex : ℕ) (fs : Fs)
      → let (g, offset) = k.ext4_get_group_no_and_offset bindex in
        ((is_neg (open_group b k sbi locked bindex fs).0 ≡ true)
          × ((open_group b k sbi locked bindex fs).1 ≡ fs))
        ⊎ (open_group b k sbi locked bindex fs ≡ locked g offset (start_handle (get_bh fs)))
  unfolding open_group stop_journal out
  open_group-cases locked bindex fs = grind arith

  module _ (one : sbi.s_cluster_bits ≡ 0) (law : BitmapCsumLaw k sbi.wide) (g offset : ℕ)
      (grp : Group) (inside : offset < length grp.block_bits) (v : IsCounted sbi grp) where
    alloc_group-IsCounted : IsCounted sbi (alloc_group g offset grp)
    unfolding alloc_group
    alloc_group-IsCounted =
        let bits = set grp.block_bits offset true in
        rw (b.test_and_set_lem offset grp.block_bits inside)
          (elim (Bool-cases (get_or grp.block_bits offset false)) [
            | inl e ↦ rw (e, set-same grp.block_bits offset true e inside) v
            | inr e ↦
                let less = clear_bits-set-true grp.block_bits offset inside e in
                let fits' : ext4_free_group_clusters sbi.wide grp.desc < count_bound sbi.wide =
                  omega (arith, v.counted, v.fits, clear_bits-le-length grp.block_bits) in
                let some_free : 0 < ext4_free_group_clusters sbi.wide grp.desc =
                  omega (arith, less, v.counted) in
                rw e (record {
                  counted = omega (
                    arith,
                    less,
                    v.counted,
                    alloc_desc-free b k sbi one law g bits grp.desc fits' some_free v.inited,
                  );
                  fits = rw (length-set grp.block_bits offset true) v.fits;
                  inited = alloc_desc-uninit b k sbi one law g bits grp.desc fits' v.inited;
                })
          ])

    free_group-IsCounted : IsCounted sbi (free_group g offset grp)
    unfolding free_group
    free_group-IsCounted =
        let bits = set grp.block_bits offset false in
        rw (b.test_and_clear_lem offset grp.block_bits inside)
          (elim (Bool-cases (get_or grp.block_bits offset false)) [
            | inl e ↦
                let more = clear_bits-set-false grp.block_bits offset inside e in
                let most = clear_bits-le-length bits in
                let same = length-set grp.block_bits offset false in
                let room : ext4_free_group_clusters sbi.wide grp.desc + 1 < count_bound sbi.wide =
                  omega (arith, v.counted, v.fits, more, most, same) in
                let fits' : ext4_free_group_clusters sbi.wide grp.desc < count_bound sbi.wide =
                  omega (arith, room) in
                rw e (record {
                  counted = omega (
                    arith,
                    more,
                    v.counted,
                    free_desc-free b k sbi one law g bits grp.desc fits' room,
                  );
                  fits = rw same v.fits;
                  inited = free_desc-uninit b k sbi one law g bits grp.desc fits' v.inited;
                })
            | inr e ↦ rw (e, set-same grp.block_bits offset false e inside) v
          ])

  set_group-All :
      (P : Group → Type 0) (g j : ℕ) (x : Group) (fs : Fs)
      → ((i : ℕ) → P (fs.group i))
      → P x
      → P ((set_group g x fs).group j)
  set_group-All P g j x fs all p = elim (Bool-cases (j == g)) [
    | inl e ↦ rw e p
    | inr e ↦ rw e (all j)
  ]

  group-subst : (P : Group → Type 0) (x y : ℕ → Group) (j : ℕ) → x ≡ y → P (y j) → P (x j)
  group-subst P x y j e p = rw e p

  module _ (one : sbi.s_cluster_bits ≡ 0) (law : BitmapCsumLaw k sbi.wide) (bindex : ℕ) (fs : Fs)
      (inside : (k.ext4_get_group_no_and_offset bindex).1
        < length (fs.group (k.ext4_get_group_no_and_offset bindex).0).block_bits)
      (v : (j : ℕ) → IsCounted sbi (fs.group j)) where
    -- On a file system with one block per cluster, for a block inside its group, and however the
    -- calls into the kernel end, where the checksum of a bitmap leaves the other fields of the
    -- descriptor alone: if the free count of every group is the number of clear bits of
    -- its bitmap, no group has an uninitialised bitmap and every bitmap is of a size that the width
    -- of the count allows, then all that still holds after an allocation and after a release.
    pub evfs_block-IsCounted :
        (j : ℕ)
        → IsCounted sbi ((evfs_block_alloc b k sbi bindex fs).1.group j)
          × IsCounted sbi ((evfs_block_free b k sbi bindex fs).1.group j)
    unfolding evfs_block_alloc evfs_block_free
    evfs_block-IsCounted j =
        let g = (k.ext4_get_group_no_and_offset bindex).0 in
        let offset = (k.ext4_get_group_no_and_offset bindex).1 in
        let fs' = start_handle (get_bh fs) in
        (
          elim (open_group-cases (alloc_locked b k sbi) bindex fs) [
            | inl e ↦ rw (e.1) (v j)
            | inr e ↦ rw e (
                group-subst (IsCounted sbi) _ _ j (alloc_locked-group g offset fs').0 (
                  set_group-All (IsCounted sbi) g j _ fs' v
                    (alloc_group-IsCounted one law g offset (fs.group g) inside (v g))))
          ],
          elim (open_group-cases (free_locked b k sbi) bindex fs) [
            | inl e ↦ rw (e.1) (v j)
            | inr e ↦ rw e (
                group-subst (IsCounted sbi) _ _ j (free_locked-group g offset fs').0 (
                  set_group-All (IsCounted sbi) g j _ fs' v
                    (free_group-IsCounted one law g offset (fs.group g) inside (v g))))
          ],
        )
