-- ===== src/Block/Refuse.antt =====
-- Refusals of the block functions of evfs.c, and one function after the other.
use linux_evfs.Base.{
  ℕ, ◌+◌, ◌-◌, ◌<◌, ◌≡◌, refl, ap, ◌∙◌, ◌≢◌, inl, inr, true, false, arith, length, get_or, set,
  ◌==◌, if◌then◌else◌, Bool-cases, length-set, get_or-set_self, set-set,
}
use linux_evfs.Base.Int.{is_neg}
use linux_evfs.Base.Errno
use linux_evfs.Ext4.Desc.{ext4_free_group_clusters}
use linux_evfs.Ext4.State.{
  Bits, Group, SbInfo, Held, Fs, ext4_free_blocks_count, set_group, get_bh, brelse, start_handle,
  stop_handle, ext4_lock_group, ext4_unlock_group,
}
use linux_evfs.Ext4.Kernel.{LeBitops, BlockKernel}
use linux_evfs.Ext4.Bitmap.{set-same}
use mathlib.Core.Path.{fun_ext}
use linux_evfs.Block.{
  out, stop_journal, alloc_locked, evfs_block_alloc, free_locked, evfs_block_free,
}
use linux_evfs.Block.Counts.{BitmapCsumLaw, super_bound}
use linux_evfs.Block.Invariant.{IsCounted, evfs_block-IsCounted}
use linux_evfs.Block.Result.{
  Opens, Closes, open_group-Opens, evfs_block_alloc-Flips, evfs_block_free-Flips,
}

update-same :
    (f : ℕ → Group) (g : ℕ) (x : Group)
    → x ≡ f g
    → ◌≡◌ {A = ℕ → Group} (λ j. if j == g then x else f j) f
update-same f g x e = fun_ext λ j. ground arith

held-undo :
    (h : Held)
    → record h {
      buffers = h.buffers + 1 - 1;
      handles = h.handles + 1 - 1;
      group_locks = h.group_locks + 1 - 1;
    }
      ≡ h
held-undo h = ground arith

module _ (b : LeBitops) (k : BlockKernel) (sbi : SbInfo) (bindex : ℕ) (fs : Fs) where
  abbrev g : ℕ
  g = (k.ext4_get_group_no_and_offset bindex).0

  abbrev offset : ℕ
  offset = (k.ext4_get_group_no_and_offset bindex).1

  refused-same :
      (grp : Group)
      → grp ≡ fs.group g
      → brelse (
          stop_handle
            (ext4_unlock_group (set_group g grp (ext4_lock_group (start_handle (get_bh fs))))))
        ≡ fs
  refused-same grp e =
      λ i. record fs { group = update-same fs.group g grp e i; held = held-undo fs.held i }

  -- When the group can be opened and the journal stops without an error, an allocation of a block of
  -- the group that is in use and a release of one that is free are refused with `-EEXIST`, and
  -- leave the whole file system as it was.
  pub evfs_block-refused :
      Opens k g
      → is_neg k.ext4_journal_stop ≡ false
      → offset < length (fs.group g).block_bits
      → (if get_or (fs.group g).block_bits offset false
          then evfs_block_alloc b k sbi bindex fs
          else evfs_block_free b k sbi bindex fs)
        ≡ (Errno.eexist, fs)
  unfolding evfs_block_alloc evfs_block_free alloc_locked free_locked stop_journal out
  evfs_block-refused opens stop inside =
      let bits = (fs.group g).block_bits in
      elim (Bool-cases (get_or bits offset false)) [
        | inl e ↦
            rw
              (
                e,
                open_group-Opens b k sbi (alloc_locked b k sbi) bindex fs opens,
                b.test_and_set_lem offset bits inside,
                e,
                stop,
                set-same bits offset true e inside,
              )
              (λ i. (Errno.eexist, refused-same (fs.group g) refl i))
        | inr e ↦
            rw
              (
                e,
                open_group-Opens b k sbi (free_locked b k sbi) bindex fs opens,
                b.test_and_clear_lem offset bits inside,
                e,
                stop,
                set-same bits offset false e inside,
              )
              (λ i. (Errno.eexist, refused-same (fs.group g) refl i))
      ]

  -- On a file system with one block per cluster whose groups are counted, an allocation of a free
  -- block followed by its release, with every call successful, gives the
  -- group its old bitmap and free count back, and the superblock its old free count.
  pub evfs_block_free-evfs_block_alloc :
      sbi.s_cluster_bits ≡ 0
      → BitmapCsumLaw k sbi.wide
      → Opens k g
      → Closes k g
      → offset < length (fs.group g).block_bits
      → ((j : ℕ) → IsCounted sbi (fs.group j))
      → get_or (fs.group g).block_bits offset false ≡ false
      → 0 < ext4_free_blocks_count sbi fs.es
      → ext4_free_blocks_count sbi fs.es < super_bound sbi
      → let fs' = (evfs_block_free b k sbi bindex (evfs_block_alloc b k sbi bindex fs).1).1 in
        ((fs'.group g).block_bits ≡ (fs.group g).block_bits)
        × (ext4_free_group_clusters sbi.wide (fs'.group g).desc
            ≡ ext4_free_group_clusters sbi.wide (fs.group g).desc)
        × (ext4_free_blocks_count sbi fs'.es ≡ ext4_free_blocks_count sbi fs.es)
        × ((j : ℕ) → j ≢ g → fs'.group j ≡ fs.group j)
  evfs_block_free-evfs_block_alloc one law opens closes inside v e some_free fits =
      let fs1 = (evfs_block_alloc b k sbi bindex fs).1 in
      let bits = (fs.group g).block_bits in
      let (_, a) =
        evfs_block_alloc-Flips b k sbi one law bindex fs opens closes inside (v g) e some_free
          fits in
      let inside1 : offset < length (fs1.group g).block_bits =
        rw (a.bits, length-set bits offset true) inside in
      let used : get_or (fs1.group g).block_bits offset false ≡ true =
        rw a.bits (get_or-set_self bits offset true false inside) in
      let (_, f) =
        evfs_block_free-Flips b k sbi one law bindex fs1 opens closes inside1
          (evfs_block-IsCounted b k sbi one law bindex fs inside v g).0 used
          (omega (arith, a.super_free, fits)) in
      (
        f.bits
            ∙ ap (λ (m : Bits). set m offset false) a.bits
            ∙ set-set bits offset true false
            ∙ set-same bits offset false e inside,
        omega (arith, a.free, f.free),
        omega (arith, a.super_free, f.super_free),
        λ j ne. f.others j ne ∙ a.others j ne,
      )
