-- ===== src/InodeFree/Result.antt =====
-- What a call of `evfs_inode_free` returns, changes and still holds.
use linux_evfs.Base.{
  ℕ, ◌+◌, ◌-◌, ◌/◌, ◌≤◌, ◌<◌, ◌≡◌, refl, sym, ap, ◌∙◌, true, false, none, some, ◌∷◌, arith,
  if◌then◌else◌, lt→ltb, le→ltb,
}
use linux_evfs.Base.Int.{ℤ, pos, is_neg}
use linux_evfs.Base.Errno
use linux_evfs.Ext4.State.{sub_wrap}
use linux_evfs.Tracker.{EvfsBmTracker, Run, done, oops, bits_per_bm}
use linux_evfs.Tracker.Valid.{IsValid, tracked}
use linux_evfs.Tracker.Ready.{Keeps, settled}
use linux_evfs.Track.{TrackEnv, IsUpdated, evfs_inode_untrack_lem}
use linux_evfs.InodeFree.{
  Held, FreeState, FreeKernel, evfs_inode_dec_nlink, release_inode, stop_journal, untrack_inode,
  evfs_inode_free,
}

abbrev rest : {S : Type 0} → Held → Run (ℤ × FreeState S) → Held
rest d oops = d
rest d (done (r, s)) = s.held

abbrev closed : Held → Held
closed h = record h {
  inode_refs = h.inode_refs - 1;
  inode_locks = h.inode_locks - 1;
  handles = h.handles - 1;
}

module _ {S : Type 0} (k : FreeKernel) (v : TrackEnv S) where
  untrack_inode-held :
      (d : Held) (iindex : ℕ) (s : FreeState S)
      → d ≡ closed s.held
      → rest d (untrack_inode k v iindex s) ≡ d
  unfolding untrack_inode stop_journal release_inode evfs_inode_dec_nlink
  untrack_inode-held d iindex s h = grind arith

  evfs_inode_free-rest :
      (d : Held) (iindex : ℕ) (s : FreeState S)
      → d ≡ s.held
      → rest d (evfs_inode_free k v iindex s) ≡ d
  unfolding evfs_inode_free release_inode
  evfs_inode_free-rest d iindex s h = grind (arith, untrack_inode-held)

  -- A call of `evfs_inode_free` that ends, with whatever value, leaves the counts of references, locks
  -- and handles as they were.
  pub evfs_inode_free-held :
      (iindex : ℕ) (s s' : FreeState S) (ret : ℤ)
      → evfs_inode_free k v iindex s ≡ done (ret, s')
      → s'.held ≡ s.held
  evfs_inode_free-held iindex s s' ret eq =
      ap (rest s.held) (sym eq) ∙ evfs_inode_free-rest s.held iindex s refl

  -- The calls outside the repository succeed.
  pub record Succeeds (iindex : ℕ) : Type 0 where
    pub iget : k.ext4_iget iindex ≡ none
    pub start : k.ext4_journal_start ≡ none
    pub stop : is_neg k.ext4_journal_stop ≡ false

  module _ (iindex : ℕ) (s : FreeState S) (ok : Succeeds iindex) where
    -- An inode with more than one link is refused with `-EBUSY`, and nothing of it changes.
    pub evfs_inode_free-ebusy :
        1 < s.i_nlink
        → (s' : FreeState S) × (evfs_inode_free k v iindex s ≡ done (Errno.ebusy, s'))
          × (s'.tracker ≡ s.tracker)
          × (s'.i_nlink ≡ s.i_nlink)
          × (s'.orphans ≡ s.orphans)
    unfolding evfs_inode_free untrack_inode stop_journal release_inode
    evfs_inode_free-ebusy many = (
      record s {
        held = record {
          inode_refs = s.held.inode_refs + 1 - 1;
          inode_locks = s.held.inode_locks + 1 - 1;
          handles = s.held.handles + 1 - 1;
        };
      },
      grind (arith, ok.iget, ok.start, ok.stop, lt→ltb 1 s.i_nlink many),
      refl,
      refl,
      refl,
    )

    module _ (t : EvfsBmTracker S) (here : s.tracker ≡ some t) (keeps : Keeps v.sem v.others)
        (memory : v.kzalloc_ok ≡ true) (valid : IsValid t)
        (inside : iindex / bits_per_bm < t.num_bitmaps) (few : s.i_nlink ≤ 1) where
      abbrev base : EvfsBmTracker S
      base = settled v.sem v.others t (iindex / bits_per_bm)

      -- For an inode with at most one link, when the mount has a valid tracker whose bitmaps reach
      -- the inode's number, there is memory for a bitmap, and the inode and the journal are had and
      -- closed without an error: if the tracker knows the inode, the call returns 0, and the inode
      -- loses its link, is handed to the orphan list and is not tracked any more; if not, the call
      -- returns `-ENOENT`, and the inode keeps its link and is not handed on. What the tracker knows
      -- is taken once other threads have run while the call held no lock. No other inode's bit of
      -- the tracker changes.
      pub evfs_inode_free_lem :
          (s' : FreeState S) × (t' : EvfsBmTracker S) × (evfs_inode_free k v iindex s
            ≡ done (if tracked base iindex then pos 0 else Errno.enoent, s'))
          × (s'.tracker ≡ some t')
          × IsUpdated v false iindex base t'
          × (s'.i_nlink ≡ (if tracked base iindex then sub_wrap 32 s.i_nlink 1 else s.i_nlink))
          × (s'.orphans ≡ (if tracked base iindex then iindex ∷ s.orphans else s.orphans))
      unfolding evfs_inode_free untrack_inode stop_journal release_inode evfs_inode_dec_nlink
      evfs_inode_free_lem =
          let r = evfs_inode_untrack_lem v keeps memory t iindex valid inside in
          let closed_held : Held = record {
            inode_refs = s.held.inode_refs + 1 - 1;
            inode_locks = s.held.inode_locks + 1 - 1;
            handles = s.held.handles + 1 - 1;
          } in
          (
            (if tracked base iindex
                then record s {
                  tracker = some r.0;
                  i_nlink = sub_wrap 32 s.i_nlink 1;
                  marked = s.marked + 1;
                  orphans = iindex ∷ s.orphans;
                  held = closed_held;
                }
                else record s { tracker = some r.0; held = closed_held }),
            r.0,
            grind (arith, ok.iget, ok.start, ok.stop, here, r.1, le→ltb 1 s.i_nlink few),
            ground arith,
            r.2,
            ground arith,
            ground arith,
          )
