-- ===== src/InodeAlloc/Result.antt =====
-- What a call of `evfs_inode_alloc` does when no call outside the repository fails.
use linux_evfs.Base.{
  ℕ, ◌+◌, ◌-◌, ◌/◌, ◌%◌, ◌^◌, ◌<◌, ◌≡◌, ◌≢◌, refl, ap, ◌∙◌, arith, ne→==, true, false, Option, some,
  none, ◌∷◌, length, get_or, set, ==_refl,
}
use linux_evfs.Base.Int.{pos, negsuc}
use linux_evfs.Base.Errno
use linux_evfs.Ext4.State.{
  block_bitmap_bh, inode_bitmap_bh, grpdsc_bh, Group, SbInfo, Fs, sub_wrap, set_group, dirty,
  get_bh, ext4_lock_group, ext4_unlock_group, brelse, start_handle, stop_handle,
}
use linux_evfs.Ext4.Kernel.{LeBitops}
use linux_evfs.Ext4.Desc.{ext4_free_inodes_count, ext4_used_dirs_count}
use linux_evfs.Ext4.Desc64.{count_bound}
use linux_evfs.InodeAlloc.Counts.{CsumLaw, alloc_desc-inode_counts}
use linux_evfs.Tracker.{EvfsBmTracker, done}
use linux_evfs.Track.{TrackEnv, evfs_inode_track}
use linux_evfs.InodeAlloc.{
  Inode, AllocState, InodeKernel, fill_inode, seed_inode, out, fail_init, stop_journal,
  dirty_metadata, count_inode, insert_inode, track_inode, take_bit, open_buffers, create_inode,
  evfs_inode_alloc,
}

-- The calls up to the test of the bit succeed, and `new_inode` returns `ino`.
pub record Opens (k : InodeKernel) (g : ℕ) (ino : Inode) : Type 0 where
  pub inode_read : k.ext4_read_inode_bitmap g ≡ none
  pub block_read : k.ext4_read_block_bitmap g ≡ none
  pub desc : k.ext4_get_group_desc g ≡ true
  pub inode : k.new_inode ≡ some ino
  pub dquot : k.dquot_initialize ≡ pos 0
  pub start : k.ext4_journal_start ≡ none
  pub inode_access : k.ext4_journal_get_write_access (inode_bitmap_bh g) ≡ pos 0
  pub block_access : k.ext4_journal_get_write_access (block_bitmap_bh g) ≡ pos 0
  pub desc_access : k.ext4_journal_get_write_access (grpdsc_bh g) ≡ pos 0
  pub stop : k.ext4_journal_stop ≡ pos 0

-- The calls after the inode is tracked succeed.
pub record Closes (k : InodeKernel) (g : ℕ) : Type 0 where
  pub locked : k.insert_inode_locked ≡ pos 0
  pub quota : k.dquot_alloc_inode ≡ pos 0
  pub inode_dirty : k.ext4_mark_inode_dirty ≡ pos 0
  pub desc_dirty : k.ext4_handle_dirty_metadata (grpdsc_bh g) ≡ pos 0
  pub block_dirty : k.ext4_handle_dirty_metadata (block_bitmap_bh g) ≡ pos 0
  pub bitmap_dirty : k.ext4_handle_dirty_metadata (inode_bitmap_bh g) ≡ pos 0

-- The state after a call that took the bit of `offset` in group `g` and then stopped: the bit is set,
-- `t` is the tracker, and the block bitmap, the descriptor, the counter and the journal are as before.
pub record IsTaken {S : Type 0} (g offset : ℕ) (t : Option (EvfsBmTracker S)) (s s' : AllocState S)
    : Type 0 where
  pub inode_bits : (s'.fs.group g).inode_bits ≡ set (s.fs.group g).inode_bits offset true
  pub block_bits : (s'.fs.group g).block_bits ≡ (s.fs.group g).block_bits
  pub desc : (s'.fs.group g).desc ≡ (s.fs.group g).desc
  pub counter : s'.fs.s_freeinodes_counter ≡ s.fs.s_freeinodes_counter
  pub dirtied : s'.fs.dirtied ≡ s.fs.dirtied
  pub journaled : s'.journaled ≡ s.journaled
  pub tracker : s'.tracker ≡ t
  pub others : (j : ℕ) → j ≢ g → s'.fs.group j ≡ s.fs.group j

-- `ext4_set_inode_flags` sets flags of the VFS alone.
pub record FlagsLaw (k : InodeKernel) : Type 0 where
  pub i_ino : (i : Inode) → (k.ext4_set_inode_flags i).i_ino ≡ i.i_ino
  pub i_mode : (i : Inode) → (k.ext4_set_inode_flags i).i_mode ≡ i.i_mode
  pub i_nlink : (i : Inode) → (k.ext4_set_inode_flags i).i_nlink ≡ i.i_nlink
  pub i_block_group : (i : Inode) → (k.ext4_set_inode_flags i).i_block_group ≡ i.i_block_group

module _ {S : Type 0} (b : LeBitops) (k : InodeKernel) (v : TrackEnv S) (sbi : SbInfo) (iindex : ℕ)
    (ino : Inode) (s : AllocState S) where
  abbrev g : ℕ
  g = sub_wrap 64 iindex 1 / sbi.s_inodes_per_group % 2 ^ 32

  abbrev offset : ℕ
  offset = sub_wrap 64 iindex 1 % sbi.s_inodes_per_group

  abbrev grp : Group
  grp = s.fs.group g

  -- The fields of the inode that is handed to the journal.
  pub record IsFilled (made : Inode) : Type 0 where
    pub i_ino : made.i_ino ≡ iindex
    pub i_mode : made.i_mode ≡ 0o100644
    pub i_nlink : made.i_nlink ≡ 1
    pub i_block_group : made.i_block_group ≡ g
    pub i_generation : made.i_generation ≡ k.get_random_u32

  seed_inode-IsFilled :
      FlagsLaw k → IsFilled (seed_inode b k v sbi (fill_inode b k v sbi iindex g ino))
  unfolding seed_inode fill_inode
  seed_inode-IsFilled flags = record {
    i_ino = flags.i_ino _;
    i_mode = flags.i_mode _;
    i_nlink = flags.i_nlink _;
    i_block_group = flags.i_block_group _;
    i_generation = refl;
  }

  -- The state after a successful call: the bit of the inode is set, the group has one free inode less
  -- and as many directories, and so on.
  pub record IsCreated (t : Option (EvfsBmTracker S)) (s' : AllocState S) : Type 0 where
    pub inode_bits : (s'.fs.group g).inode_bits ≡ set grp.inode_bits offset true
    pub block_bits : (s'.fs.group g).block_bits ≡ grp.block_bits
    pub free_inodes :
        ext4_free_inodes_count sbi.wide (s'.fs.group g).desc + 1
        ≡ ext4_free_inodes_count sbi.wide grp.desc
    pub used_dirs :
        ext4_used_dirs_count sbi.wide (s'.fs.group g).desc ≡ ext4_used_dirs_count sbi.wide grp.desc
    pub counter : s'.fs.s_freeinodes_counter ≡ sub_wrap 64 s.fs.s_freeinodes_counter 1
    pub dirtied : s'.fs.dirtied ≡ inode_bitmap_bh g ∷ block_bitmap_bh g ∷ grpdsc_bh g ∷ s.fs.dirtied
    pub made : Inode
    pub journaled : s'.journaled ≡ made ∷ s.journaled
    pub filled : IsFilled made
    pub quota : s'.quota ≡ s.quota + 1
    pub tracker : s'.tracker ≡ t
    pub others : (j : ℕ) → j ≢ g → s'.fs.group j ≡ s.fs.group j

  -- The file system with the bit taken, the two states that a call can end in after that.
  abbrev marked : Fs
  marked = ext4_unlock_group (
      set_group g (record grp { inode_bits = set grp.inode_bits offset true })
        (ext4_lock_group (start_handle (get_bh (get_bh s.fs)))))

  abbrev taken : Option (EvfsBmTracker S) → AllocState S
  taken t = record s {
    fs = brelse (brelse (stop_handle marked));
    tracker = t;
    inode_refs = s.inode_refs + 1 - 1;
  }

  abbrev created : Option (EvfsBmTracker S) → AllocState S
  created t = record s {
    fs = brelse (
        brelse (
          stop_handle (
            dirty (inode_bitmap_bh g) (
              dirty (block_bitmap_bh g)
                (dirty (grpdsc_bh g) (count_inode b k v sbi g offset marked))))));
    tracker = t;
    inode_refs = s.inode_refs + 1 - 1;
    inode_locks = s.inode_locks + 1 - 1;
    quota = s.quota + 1;
    journaled = seed_inode b k v sbi (fill_inode b k v sbi iindex g ino) ∷ s.journaled;
  }

  module _ (opens : Opens k g ino) (inside : offset < length grp.inode_bits) where
    evfs_inode_alloc-Opens :
        evfs_inode_alloc b k v sbi iindex s
        ≡ take_bit b k v sbi iindex g offset ino
            (record s { fs = start_handle (get_bh (get_bh s.fs)); inode_refs = s.inode_refs + 1 })
    unfolding evfs_inode_alloc create_inode open_buffers
    evfs_inode_alloc-Opens = grind (
      arith, opens.inode_read, opens.block_read, opens.desc, opens.inode, opens.dquot, opens.start,
      opens.inode_access, opens.block_access, opens.desc_access,
    )

    -- When no call up to the test of the bit fails, a number that is in use in the bitmap is refused
    -- with `-EEXIST`, and the counts, the tracker and the journal are as before.
    pub evfs_inode_alloc-eexist :
        get_or grp.inode_bits offset false ≡ true
        → (s' : AllocState S) × (evfs_inode_alloc b k v sbi iindex s ≡ done (Errno.eexist, s'))
          × IsTaken g offset s.tracker s s'
    unfolding take_bit stop_journal fail_init out
    evfs_inode_alloc-eexist e = (
      taken s.tracker,
      evfs_inode_alloc-Opens ∙ rw (b.test_and_set_lem offset grp.inode_bits inside, e, opens.stop),
      record {
        inode_bits = rw (==_refl g);
        block_bits = rw (==_refl g);
        desc = rw (==_refl g);
        counter = refl;
        dirtied = refl;
        journaled = refl;
        tracker = refl;
        others = λ j ne. rw (ne→== j g ne);
      },
    )

    -- When no call up to the test of the bit fails, and the number is free in the bitmap but the
    -- tracker refuses it: the call returns the
    -- tracker's error, and the number stays marked as used in the bitmap, uncounted.
    pub evfs_inode_alloc-untracked :
        get_or grp.inode_bits offset false ≡ false
        → (e : ℕ) (t : Option (EvfsBmTracker S))
        → evfs_inode_track v s.tracker iindex ≡ done (negsuc e, t)
        → (s' : AllocState S) × (evfs_inode_alloc b k v sbi iindex s ≡ done (negsuc e, s'))
          × IsTaken g offset t s s'
    unfolding take_bit track_inode stop_journal fail_init out
    evfs_inode_alloc-untracked free e t refused = (
      taken t,
      evfs_inode_alloc-Opens
          ∙ grind
              (arith, b.test_and_set_lem offset grp.inode_bits inside, free, refused, opens.stop),
      record {
        inode_bits = rw (==_refl g);
        block_bits = rw (==_refl g);
        desc = rw (==_refl g);
        counter = refl;
        dirtied = refl;
        journaled = refl;
        tracker = refl;
        others = λ j ne. rw (ne→== j g ne);
      },
    )

    -- When the tracker takes the number and no other call fails, a number that is free in the bitmap
    -- is allocated: the function returns 0, the bit is set, the group has one free inode less and as
    -- many directories as before, the counter of free inodes goes down, the three buffers are
    -- journaled, and an inode with this number, one link and the mode of a regular file is journaled
    -- and charged to the quota. The block bitmap and all other groups are as before. The group had a
    -- free inode, its count fits the descriptor, and the checksum functions of the bitmaps and
    -- `ext4_set_inode_flags` leave the fields alone that this is about.
    pub evfs_inode_alloc-creates :
        get_or grp.inode_bits offset false ≡ false
        → (t : Option (EvfsBmTracker S)) → evfs_inode_track v s.tracker iindex ≡ done (pos 0, t)
        → Closes k g
        → CsumLaw k sbi.wide
        → FlagsLaw k
        → 0 < ext4_free_inodes_count sbi.wide grp.desc
        → ext4_free_inodes_count sbi.wide grp.desc < count_bound sbi.wide
        → (s' : AllocState S) × (evfs_inode_alloc b k v sbi iindex s ≡ done (pos 0, s'))
          × IsCreated t s'
    unfolding take_bit track_inode insert_inode count_inode dirty_metadata stop_journal fail_init
        out
    evfs_inode_alloc-creates free t tracked c law flags some_free fits = (
      created t,
      evfs_inode_alloc-Opens
          ∙ grind (
            arith,
            b.test_and_set_lem offset grp.inode_bits inside,
            free,
            tracked,
            c.locked,
            c.quota,
            c.inode_dirty,
            c.desc_dirty,
            c.block_dirty,
            c.bitmap_dirty,
            opens.stop,
          ),
      record {
        inode_bits = rw (==_refl g);
        block_bits = rw (==_refl g);
        free_inodes = rw (==_refl g) (
            let counts =
              alloc_desc-inode_counts b k v sbi law g offset
                (record grp { inode_bits = set grp.inode_bits offset true }) some_free fits in
            omega (arith, ap (λ x. x.0) counts, some_free));
        used_dirs = rw (==_refl g) (
            ap (λ x. x.1)
              (alloc_desc-inode_counts b k v sbi law g offset
                (record grp { inode_bits = set grp.inode_bits offset true }) some_free fits));
        counter = refl;
        dirtied = refl;
        made = seed_inode b k v sbi (fill_inode b k v sbi iindex g ino);
        journaled = refl;
        filled = seed_inode-IsFilled flags;
        quota = refl;
        tracker = refl;
        others = λ j ne. rw (ne→== j g ne);
      },
    )
