-- ===== src/Dir/Success.antt =====
-- When `ext4_add_entry` (namei.c) adds a name: no call fails, and no entry is bad or has the name.
use linux_evfs.Base.{
  ℕ, ◌+◌, ◌-◌, ◌%◌, ◌^◌, ◌≤◌, ◌<◌, ◌≡◌, ◌⊎◌, refl, ap, inl, inr, false, Option, none, some, List,
  [], ◌∷◌, arith, length, ltb, leb, Bool-cases,
}
use linux_evfs.Base.Int.{ℤ, pos, is_nonzero}
use linux_evfs.Dentry.{DirEntry}
use linux_evfs.DirBlock.{
  DirKernel, Dest, dest_error, dest, dest_cons, enospc, free_len, csum_size, find_dest_loop,
  ext4_find_dest_de, place_entry, add_dirent_to_buf,
}
use linux_evfs.DirBlock.Insert.{Passed}
use linux_evfs.Dir.{Dir, WalkKernel, Block}
use linux_evfs.Dir.Add.{
  is_enospc, fill_hole, try_block, ext4_append, add_to_new_block, add_loop, add_behind, finish_add,
  ext4_add_entry,
}
use linux_evfs.Dir.Put.{names}
use linux_evfs.Dir.Names.{Gains, ext4_add_entry-names}

-- No call fails, and the size of a directory has no limit.
pub record IsHealthy (k : DirKernel) (w : WalkKernel) : Type 0 where
  pub names : w.setup_filename ≡ pos 0
  pub reads : (b : ℕ) → w.ext4_read_dirblock b ≡ none
  pub makes : (b : ℕ) → w.ext4_bread b ≡ none
  pub unmapped : (b : ℕ) → w.ext4_map_blocks b ≡ pos 0
  pub unlimited : w.s_max_dir_size_kb ≡ 0
  pub grows : w.append_mark_dirty ≡ pos 0
  pub appends : w.append_write_access ≡ pos 0
  pub grants : k.ext4_journal_get_write_access ≡ pos 0
  pub marks : k.ext4_mark_inode_dirty ≡ pos 0
  pub dirties : k.ext4_handle_dirty_dirblock ≡ pos 0

-- Every entry is good and has another name.
abbrev pub AllPassed : DirKernel → WalkKernel → List ℕ → List Block → Type 0
AllPassed k w fname [] = fname ≡ fname
AllPassed k w fname (none ∷ bs) = AllPassed k w fname bs
AllPassed k w fname (some es ∷ bs) =
    Passed k (w.s_blocksize - csum_size k) fname es 0 × AllPassed k w fname bs

-- A place, or none for want of space.
abbrev NoError : Dest → Type 0
NoError (dest_error err) = err ≡ enospc
NoError (dest before de after) = de ≡ de

NoError-cons : (e : DirEntry) (d : Dest) → NoError d → NoError (dest_cons e d)
NoError-cons e (dest_error err) h = h
NoError-cons e (dest before de after) h = refl

find_dest_loop-NoError :
    (k : DirKernel) (buf_size reclen : ℕ) (fname : List ℕ) (es : List DirEntry) (offset : ℕ)
    → Passed k buf_size fname es offset
    → NoError (find_dest_loop k buf_size reclen fname es offset)
unfolding find_dest_loop
find_dest_loop-NoError k buf_size reclen fname [] offset p = refl
find_dest_loop-NoError k buf_size reclen fname (de ∷ rest) offset (good, other, p) =
    elim (Bool-cases (ltb buf_size (offset + reclen))) [
      | inl far ↦ rw far refl
      | inr inside ↦ elim (Bool-cases (leb reclen (free_len k de))) [
        | inl fits ↦ rw (inside, good, other, fits) refl
        | inr full ↦
            rw (inside, good, other, full)
              (NoError-cons de _
                (find_dest_loop-NoError k buf_size reclen fname rest (offset + de.rec_len) p))
      ]
    ]

module _ (k : DirKernel) (w : WalkKernel) (fname : List ℕ) (ino mode : ℕ)
    (healthy : IsHealthy k w) where
  place_entry-healthy :
      (es : List DirEntry) (d : Dest)
      → NoError d
      → let r = place_entry k fname ino mode es d in (r.0 ≡ pos 0) ⊎ (r.0 ≡ enospc)
  unfolding place_entry
  place_entry-healthy es (dest_error err) h = inr h
  place_entry-healthy es (dest before de after) h =
      rw (healthy.grants, healthy.dirties, healthy.marks) (inl refl)

  add_dirent_to_buf-healthy :
      (es : List DirEntry)
      → Passed k (w.s_blocksize - csum_size k) fname es 0
      → let r = add_dirent_to_buf k w.s_blocksize fname ino mode es in
        (r.0 ≡ pos 0) ⊎ (r.0 ≡ enospc)
  unfolding add_dirent_to_buf ext4_find_dest_de
  add_dirent_to_buf-healthy es p =
      place_entry-healthy es _ (find_dest_loop-NoError k _ _ fname es 0 p)

  add_to_new_block-healthy : (add_to_new_block k w fname ino mode).0 ≡ pos 0
  unfolding add_to_new_block place_entry
  add_to_new_block-healthy = rw (healthy.grants, healthy.dirties, healthy.marks) refl

  add_loop-healthy :
      (block : ℕ) (bs : List Block)
      → AllPassed k w fname bs
      → let r = add_loop k w fname ino mode block bs in (r.0 ≡ none) ⊎ (r.0 ≡ some (pos 0))
  unfolding add_loop fill_hole try_block is_enospc
  add_loop-healthy block [] p = inl refl
  add_loop-healthy block (none ∷ rest) p =
      rw (healthy.reads block, healthy.makes block) (inr (ap some add_to_new_block-healthy))
  add_loop-healthy block (some es ∷ rest) (p, ps) = elim (add_dirent_to_buf-healthy es p) [
    | inl done ↦ rw (healthy.reads block, done) (inr refl)
    | inr full ↦ rw (healthy.reads block, full) (add_loop-healthy (block + 1) rest ps)
  ]

  ext4_append-healthy : (d : Dir) → (ext4_append k w d).0 ≡ pos 0
  unfolding ext4_append
  ext4_append-healthy d =
      rw (healthy.unlimited, healthy.unmapped, healthy.makes, healthy.grows) (healthy.appends)

  finish_add-healthy :
      (ended : Option ℤ) (d : Dir)
      → (ended ≡ none) ⊎ (ended ≡ some (pos 0))
      → (finish_add k w fname ino mode ended d).0 ≡ pos 0
  unfolding finish_add add_behind
  finish_add-healthy ended d (inl e) = rw (e, ext4_append-healthy d) add_to_new_block-healthy
  finish_add-healthy ended d (inr e) = rw e refl

  ext4_add_entry-zero :
      (d : Dir) → AllPassed k w fname d.blocks → (ext4_add_entry k w fname ino mode d).0 ≡ pos 0
  unfolding ext4_add_entry
  ext4_add_entry-zero d passed =
      let named : is_nonzero w.setup_filename ≡ false = ap is_nonzero healthy.names in
      rw named (finish_add-healthy _ _ (add_loop-healthy 0 d.blocks passed))

  -- A call that returns 0 added the name.
  pub ext4_add_entry-Gains :
      length fname ≤ 255
      → 1024 ≤ w.s_blocksize
      → 0 < ino % 2 ^ 32
      → (d : Dir)
      → let r = ext4_add_entry k w fname ino mode d in
        r.0 ≡ pos 0 → (r.0 ≡ pos 0) × Gains fname (ino % 2 ^ 32) (names d.blocks) (names r.1.blocks)
  unfolding is_enospc
  ext4_add_entry-Gains short large used d zero_ret =
      let dirblock : is_enospc k.ext4_handle_dirty_dirblock ≡ false =
        ap is_enospc healthy.dirties in
      let inode : is_enospc k.ext4_mark_inode_dirty ≡ false = ap is_enospc healthy.marks in
      elim (ext4_add_entry-names k w fname ino mode short large used dirblock inode d) [
        | inl (fails, same) ↦ absurd (ground (arith, fails, zero_ret))
        | inr (ended, gains) ↦ (zero_ret, gains)
      ]

  -- If no call fails, and every entry of the directory is good and has another name, adding a name
  -- of at most 255 bytes to a directory of blocks of 1024 bytes or more returns 0 and adds exactly
  -- this name, in whatever block has the space, in a hole or in a new block. The size of the
  -- directory has no limit, and the inode's number is not 0 in 32 bits.
  pub ext4_add_entry-succeeds :
      length fname ≤ 255
      → 1024 ≤ w.s_blocksize
      → 0 < ino % 2 ^ 32
      → (d : Dir) → AllPassed k w fname d.blocks
      → let r = ext4_add_entry k w fname ino mode d in
        (r.0 ≡ pos 0) × Gains fname (ino % 2 ^ 32) (names d.blocks) (names r.1.blocks)
  ext4_add_entry-succeeds short large used d passed =
      ext4_add_entry-Gains short large used d (ext4_add_entry-zero d passed)
