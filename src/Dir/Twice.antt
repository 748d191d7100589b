-- ===== src/Dir/Twice.antt =====
-- What `ext4_add_entry` (namei.c) does not look at: the entries behind the first that has room.
use linux_evfs.Base.{
  ℕ, ◌+◌, ◌-◌, ◌%◌, ◌^◌, ◌≤◌, ◌<◌, ◌≡◌, refl, ap, ◌∙◌, false, some, List, [], ◌∷◌, arith, length,
  le→ltb, le→leb,
}
use linux_evfs.Base.Int.{pos, is_nonzero}
use linux_evfs.Dentry.{DirEntry}
use linux_evfs.DirBlock.{
  DirKernel, dest, csum_size, ext4_dir_rec_len, ext4_match, free_len, find_dest_loop,
  ext4_find_dest_de, place_entry, add_dirent_to_buf,
}
use linux_evfs.DirBlock.Insert.{reclen}
use linux_evfs.Dir.{Dir, WalkKernel, Block}
use linux_evfs.Dir.Add.{is_enospc, try_block, add_loop, finish_add, ext4_add_entry}
use linux_evfs.Dir.Put.{names}
use linux_evfs.Dir.Names.{Gains}
use linux_evfs.Dir.Success.{IsHealthy, ext4_add_entry-Gains}

-- The first entry of a block is good, has another name and has room for a new entry.
pub record HasRoom (k : DirKernel) (w : WalkKernel) (fname : List ℕ) (e : DirEntry) : Type 0 where
  pub good : k.ext4_check_dir_entry (w.s_blocksize - csum_size k) 0 e ≡ false
  pub other : ext4_match k fname e ≡ false
  pub room : reclen k (w.s_blocksize - csum_size k) fname ≤ free_len k e
  pub inside : reclen k (w.s_blocksize - csum_size k) fname ≤ w.s_blocksize - csum_size k

module _ (k : DirKernel) (w : WalkKernel) (fname : List ℕ) (ino mode : ℕ) (healthy : IsHealthy k w)
    (e : DirEntry) (es : List DirEntry) (roomy : HasRoom k w fname e) where
  find_dest-first : ext4_find_dest_de k (w.s_blocksize - csum_size k) fname (e ∷ es) ≡ dest [] e es
  unfolding ext4_find_dest_de find_dest_loop
  find_dest-first =
      let near =
        le→ltb (w.s_blocksize - csum_size k) (0 + ext4_dir_rec_len k (length fname))
          (omega (arith, roomy.inside)) in
      let fits = le→leb (ext4_dir_rec_len k (length fname)) (free_len k e) roomy.room in
      rw (near, roomy.good, roomy.other, fits) refl

  add_dirent_to_buf-first : (add_dirent_to_buf k w.s_blocksize fname ino mode (e ∷ es)).0 ≡ pos 0
  unfolding add_dirent_to_buf place_entry
  add_dirent_to_buf-first =
      ap (λ d. (place_entry k fname ino mode (e ∷ es) d).0) find_dest-first
      ∙ rw (healthy.grants, healthy.dirties, healthy.marks) refl

  add_loop-first :
      (bs : List Block) → (add_loop k w fname ino mode 0 (some (e ∷ es) ∷ bs)).0 ≡ some (pos 0)
  unfolding add_loop try_block is_enospc
  add_loop-first bs = rw (healthy.reads 0, add_dirent_to_buf-first) refl

  ext4_add_entry-first :
      (bs : List Block) (lookup : ℕ)
      → (ext4_add_entry k w fname ino mode
          record { blocks = some (e ∷ es) ∷ bs; i_dir_start_lookup = lookup }).0
        ≡ pos 0
  unfolding ext4_add_entry finish_add
  ext4_add_entry-first bs lookup =
      let named : is_nonzero w.setup_filename ≡ false = ap is_nonzero healthy.names in
      rw (named, add_loop-first bs) refl

  -- If no call fails, and the first entry of the first block is good, has another name and has room
  -- for the new entry, `ext4_add_entry` returns 0 and adds the name, whatever names the other
  -- entries of the directory have: also one that is in use already.
  pub ext4_add_entry-twice :
      length fname ≤ 255
      → 1024 ≤ w.s_blocksize
      → 0 < ino % 2 ^ 32
      → (bs : List Block) (lookup : ℕ)
      → let d : Dir = record { blocks = some (e ∷ es) ∷ bs; i_dir_start_lookup = lookup } in
        let r = ext4_add_entry k w fname ino mode d in
        (r.0 ≡ pos 0) × Gains fname (ino % 2 ^ 32) (names d.blocks) (names r.1.blocks)
  ext4_add_entry-twice short large used bs lookup =
      ext4_add_entry-Gains k w fname ino mode healthy short large used _
        (ext4_add_entry-first bs lookup)
