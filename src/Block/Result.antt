-- ===== src/Block/Result.antt =====
-- What a call of `evfs_block_alloc` or `evfs_block_free` returns and leaves, branch by branch.
use linux_evfs.Base.{
  ℕ, ◌+◌, ◌-◌, ◌%◌, ◌^◌, ◌<◌, ◌≡◌, refl, sym, ◌∙◌, ◌≢◌, Bool, true, false, none, ◌∷◌, arith, length,
  get_or, set, length-set, ==_refl, ne→==,
}
use native.Mathlib.Nat.{add-zero}
use linux_evfs.Base.Int.{ℤ, pos, is_neg}
use linux_evfs.Ext4.Desc.{ext4_free_group_clusters}
use linux_evfs.Ext4.State.{
  block_bitmap_bh, grpdsc_bh, SbInfo, Fs, ext4_free_blocks_count, dirty, get_bh, brelse,
  start_handle, stop_handle,
}
use linux_evfs.Ext4.Kernel.{LeBitops, BlockKernel}
use linux_evfs.Ext4.Bitmap.{clear_bits-le-length, clear_bits-set-true, clear_bits-set-false}
use linux_evfs.Ext4.Desc64.{count_bound}
use linux_evfs.Block.{
  out, stop_journal, dirty_metadata, alloc_super, alloc_locked, open_group, evfs_block_alloc,
  free_super, free_locked, evfs_block_free,
}
use linux_evfs.Block.Counts.{
  BitmapCsumLaw, num_b2c_one, super_bound, alloc_desc-free, free_desc-free, alloc_super-free,
  free_super-free,
}
use linux_evfs.Block.Invariant.{IsCounted}

-- Every call up to the locked part succeeds.
pub record Opens (k : BlockKernel) (g : ℕ) : Type 0 where
  pub read : k.ext4_read_block_bitmap g ≡ none
  pub desc : k.ext4_get_group_desc g ≡ true
  pub start : k.ext4_journal_start ≡ none
  pub bitmap_access : is_neg (k.ext4_journal_get_write_access (block_bitmap_bh g)) ≡ false
  pub desc_access : is_neg (k.ext4_journal_get_write_access (grpdsc_bh g)) ≡ false

-- Every call behind the locked part succeeds.
pub record Closes (k : BlockKernel) (g : ℕ) : Type 0 where
  pub desc_dirty : is_neg (k.ext4_handle_dirty_metadata (grpdsc_bh g)) ≡ false
  pub bitmap_dirty : is_neg (k.ext4_handle_dirty_metadata (block_bitmap_bh g)) ≡ false
  pub stop : is_neg k.ext4_journal_stop ≡ false

-- A successful call: bit `offset` of group `g` becomes `v`, the counts of the group, of the superblock
-- and of free clusters in memory go down by `down` and up by `up`, both buffers go to the journal,
-- and neither the inode bitmap nor any other group changes.
pub record Flips (sbi : SbInfo) (g offset : ℕ) (v : Bool) (down up : ℕ) (fs fs' : Fs) : Type 0 where
  pub bits : (fs'.group g).block_bits ≡ set (fs.group g).block_bits offset v
  pub inode_bits : (fs'.group g).inode_bits ≡ (fs.group g).inode_bits
  pub free :
      ext4_free_group_clusters sbi.wide (fs'.group g).desc + down
      ≡ ext4_free_group_clusters sbi.wide (fs.group g).desc + up
  pub super_free : ext4_free_blocks_count sbi fs'.es + down ≡ ext4_free_blocks_count sbi fs.es + up
  pub counter :
      fs'.s_freeclusters_counter ≡ (fs.s_freeclusters_counter + (2 ^ 64 - down) + up) % 2 ^ 64
  pub journaled : fs'.dirtied ≡ block_bitmap_bh g ∷ grpdsc_bh g ∷ fs.dirtied
  pub others : (j : ℕ) → j ≢ g → fs'.group j ≡ fs.group j

module _ (b : LeBitops) (k : BlockKernel) (sbi : SbInfo) where
  pub open_group-Opens :
      (locked : ℕ → ℕ → Fs → ℤ × Fs) (bindex : ℕ) (fs : Fs)
      → Opens k (k.ext4_get_group_no_and_offset bindex).0
      → open_group b k sbi locked bindex fs
        ≡ locked
            (k.ext4_get_group_no_and_offset bindex).0
            (k.ext4_get_group_no_and_offset bindex).1
            (start_handle (get_bh fs))
  unfolding open_group
  open_group-Opens locked bindex fs o =
      rw (open_group, o.read, o.desc, o.start, o.bitmap_access, o.desc_access)

  dirty_metadata-Closes :
      (g : ℕ) (fs : Fs)
      → Closes k g
      → dirty_metadata b k sbi g fs
        ≡ (pos 0, brelse (stop_handle (dirty (block_bitmap_bh g) (dirty (grpdsc_bh g) fs))))
  unfolding dirty_metadata stop_journal out
  dirty_metadata-Closes g fs c = rw (c.desc_dirty, c.bitmap_dirty, c.stop)

  module _ (one : sbi.s_cluster_bits ≡ 0) (law : BitmapCsumLaw k sbi.wide) (bindex : ℕ) (fs : Fs)
      (opens : Opens k (k.ext4_get_group_no_and_offset bindex).0)
      (closes : Closes k (k.ext4_get_group_no_and_offset bindex).0)
      (inside : (k.ext4_get_group_no_and_offset bindex).1
        < length (fs.group (k.ext4_get_group_no_and_offset bindex).0).block_bits)
      (v : IsCounted sbi (fs.group (k.ext4_get_group_no_and_offset bindex).0)) where
    abbrev g : ℕ
    g = (k.ext4_get_group_no_and_offset bindex).0

    abbrev offset : ℕ
    offset = (k.ext4_get_group_no_and_offset bindex).1

    -- On a file system with one block per cluster whose group is counted, for a block inside its
    -- group, when the count of the superblock can change by one within its width, the checksum of
    -- a bitmap leaves the other fields alone and every call succeeds, a free block becomes used: the function returns 0, the bit is
    -- set, the free counts of the group and of the superblock go down by one, so does the counter
    -- of free clusters modulo 2 ^ 64, both changed buffers are journaled, and neither the inode
    -- bitmap of the group nor any other group changes.
    pub evfs_block_alloc-Flips :
        get_or (fs.group g).block_bits offset false ≡ false
        → 0 < ext4_free_blocks_count sbi fs.es
        → ext4_free_blocks_count sbi fs.es < super_bound sbi
        → ((evfs_block_alloc b k sbi bindex fs).0 ≡ pos 0)
          × Flips sbi g offset true 1 0 fs (evfs_block_alloc b k sbi bindex fs).1
    unfolding evfs_block_alloc alloc_locked alloc_super
    evfs_block_alloc-Flips e some_free fits =
        let bits = set (fs.group g).block_bits offset true in
        let less = clear_bits-set-true (fs.group g).block_bits offset inside e in
        let most = clear_bits-le-length (fs.group g).block_bits in
        let d = (fs.group g).desc in
        let fits' : ext4_free_group_clusters sbi.wide d < count_bound sbi.wide =
          omega (arith, v.counted, v.fits, most) in
        let some_free' : 0 < ext4_free_group_clusters sbi.wide d = omega (arith, less, v.counted) in
        rw
          (
            open_group-Opens (alloc_locked b k sbi) bindex fs opens,
            b.test_and_set_lem offset (fs.group g).block_bits inside,
            e,
            dirty_metadata-Closes g _ closes,
          )
          (
            refl,
            record {
              bits = rw (==_refl g);
              inode_bits = rw (==_refl g);
              free = rw (==_refl g) (
                  alloc_desc-free b k sbi one law g bits d fits' some_free' v.inited
                  ∙ sym (add-zero (ext4_free_group_clusters sbi.wide d)));
              super_free =
                  alloc_super-free b k sbi fs some_free fits
                  ∙ sym (add-zero (ext4_free_blocks_count sbi fs.es));
              counter = rw (num_b2c_one sbi one 1 (omega arith)) (omega arith);
              journaled = refl;
              others = λ j ne. rw (ne→== j g ne);
            },
          )

    -- On a file system with one block per cluster whose group is counted, for a block inside its
    -- group, when the count of the superblock can change by one within its width, the checksum of
    -- a bitmap leaves the other fields alone and every call succeeds, a used block becomes free: the function returns 0, the bit is
    -- clear, the free counts of the group and of the superblock go up by one, so does the counter
    -- of free clusters modulo 2 ^ 64, both changed buffers are journaled, and neither the inode
    -- bitmap of the group nor any other group changes.
    pub evfs_block_free-Flips :
        get_or (fs.group g).block_bits offset false ≡ true
        → ext4_free_blocks_count sbi fs.es + 1 < super_bound sbi
        → ((evfs_block_free b k sbi bindex fs).0 ≡ pos 0)
          × Flips sbi g offset false 0 1 fs (evfs_block_free b k sbi bindex fs).1
    unfolding evfs_block_free free_locked free_super
    evfs_block_free-Flips e room_super =
        let bits = set (fs.group g).block_bits offset false in
        let more = clear_bits-set-false (fs.group g).block_bits offset inside e in
        let most = clear_bits-le-length bits in
        let same = length-set (fs.group g).block_bits offset false in
        let d = (fs.group g).desc in
        let room : ext4_free_group_clusters sbi.wide d + 1 < count_bound sbi.wide =
          omega (arith, v.counted, v.fits, more, most, same) in
        rw
          (
            open_group-Opens (free_locked b k sbi) bindex fs opens,
            b.test_and_clear_lem offset (fs.group g).block_bits inside,
            e,
            dirty_metadata-Closes g _ closes,
          )
          (
            refl,
            record {
              bits = rw (==_refl g);
              inode_bits = rw (==_refl g);
              free =
                  rw (==_refl g) (
                    add-zero _
                    ∙ free_desc-free b k sbi one law g bits d (omega (arith, room)) room);
              super_free = add-zero _ ∙ free_super-free b k sbi fs room_super;
              counter = rw (num_b2c_one sbi one 1 (omega arith)) (omega arith);
              journaled = refl;
              others = λ j ne. rw (ne→== j g ne);
            },
          )
