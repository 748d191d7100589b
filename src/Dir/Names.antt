-- ===== src/Dir/Names.antt =====
-- What `ext4_add_entry` (namei.c) does to the names of a directory.
use linux_evfs.Base.{
  ℕ, ◌-◌, ◌%◌, ◌^◌, ◌<◌, ◌≡◌, ◌⊎◌, sym, ap, ◌∙◌, inl, inr, true, false, none, some, List, [], ◌∷◌,
  ◌++◌, arith, length, ◌≤◌,
}
use linux_evfs.Base.Int.{is_nonzero}
use linux_evfs.Dentry.{DirEntry}
use linux_evfs.DirBlock.{DirKernel, free_len, csum_size, ext4_dir_rec_len}
use linux_evfs.DirBlock.Insert.{
  live, append-three, IsAdded, add_dirent_to_buf-IsAdded, place_dest-IsAdded, reclen,
}
use linux_evfs.Dir.{Dir, WalkKernel, Block}
use linux_evfs.Dir.Add.{
  is_enospc, new_block, empty_entry, ext4_initialize_dirent_tail, add_to_new_block, ext4_add_entry,
}
use linux_evfs.Dir.Put.{
  names, IsPut, put_here, put_hole, put_behind, put_next, ext4_add_entry-Outcome, live-new_block,
}

-- One more name, somewhere.
pub record Gains (name : List ℕ) (ino : ℕ) (ns ns' : List (List ℕ × ℕ)) : Type 0 where
  pub left : List (List ℕ × ℕ)
  pub right : List (List ℕ × ℕ)
  pub old : ns ≡ left ++ right
  pub new : ns' ≡ left ++ (name, ino) ∷ right

module _ (name : List ℕ) (ino : ℕ) where
  IsAdded-Gains :
      {es es' : List DirEntry} (ns : List (List ℕ × ℕ))
      → IsAdded name ino es es'
      → Gains name ino (live es ++ ns) (live es' ++ ns)
  IsAdded-Gains ns p = record {
    left = p.left;
    right = p.right ++ ns;
    old = ap (λ ms. ms ++ ns) p.old ∙ sym (append-three p.left p.right ns);
    new = ap (λ ms. ms ++ ns) p.new ∙ sym (append-three p.left ((name, ino) ∷ p.right) ns);
  }

  pub Gains-append :
      (ms : List (List ℕ × ℕ)) {ns ns' : List (List ℕ × ℕ)}
      → Gains name ino ns ns'
      → Gains name ino (ms ++ ns) (ms ++ ns')
  Gains-append ms g = record {
    left = ms ++ g.left;
    right = g.right;
    old = ap (λ ns. ms ++ ns) g.old ∙ append-three ms g.left g.right;
    new = ap (λ ns. ms ++ ns) g.new ∙ append-three ms g.left ((name, ino) ∷ g.right);
  }

  pub IsPut-Gains :
      (fresh : List DirEntry) {bs bs' : List Block}
      → live fresh ≡ []
      → IsPut (IsAdded name ino) fresh bs bs'
      → Gains name ino (names bs) (names bs')
  IsPut-Gains fresh unused (put_here {rest = rest} p) = IsAdded-Gains (names rest) p
  IsPut-Gains fresh unused (put_hole {es' = es'} {rest = rest} p) =
      rw unused at (IsAdded-Gains (names rest) p)
  IsPut-Gains fresh unused (put_behind {es' = es'} p) = rw unused at (IsAdded-Gains [] p)
  IsPut-Gains fresh unused (put_next {b = none} p) = IsPut-Gains fresh unused p
  IsPut-Gains fresh unused (put_next {b = some es} p) =
      Gains-append (live es) (IsPut-Gains fresh unused p)

module _ (k : DirKernel) (w : WalkKernel) (fname : List ℕ) (ino mode : ℕ)
    (short : length fname ≤ 255) (large : 1024 ≤ w.s_blocksize) where
  -- The longest entry fits into the smallest block.
  pub new_block-bound : (n : ℕ) → reclen k n fname ≤ w.s_blocksize - csum_size k
  unfolding ext4_dir_rec_len csum_size
  new_block-bound n = ground (arith, short, large)

  pub new_block-fits : reclen k w.s_blocksize fname ≤ free_len k (empty_entry k w)
  unfolding free_len empty_entry
  new_block-fits = new_block-bound w.s_blocksize

  pub add_to_new_block-IsAdded :
      0 < ino % 2 ^ 32
      → let r = add_to_new_block k w fname ino mode in
        ((is_nonzero r.0 ≡ true) × (r.1 ≡ new_block k w))
        ⊎ IsAdded fname (ino % 2 ^ 32) (new_block k w) r.1
  unfolding add_to_new_block
  add_to_new_block-IsAdded used =
      place_dest-IsAdded k w.s_blocksize ino mode fname used [] (empty_entry k w)
        (ext4_initialize_dirent_tail k w) new_block-fits

  -- Adding a name of at most 255 bytes to a directory, of blocks of 1024 bytes or more, either
  -- reports an error and leaves the names in use as they were, or adds exactly this name with the
  -- inode's number and does not report `-ENOSPC`. The number is not 0 in 32 bits, and the two calls
  -- that mark the directory and its block as changed do not fail with `-ENOSPC`, at which the
  -- search for a place would go on.
  pub ext4_add_entry-names :
      0 < ino % 2 ^ 32
      → is_enospc k.ext4_handle_dirty_dirblock ≡ false
      → is_enospc k.ext4_mark_inode_dirty ≡ false
      → (d : Dir)
      → let r = ext4_add_entry k w fname ino mode d in
        ((is_nonzero r.0 ≡ true) × (names r.1.blocks ≡ names d.blocks))
        ⊎ ((is_enospc r.0 ≡ false) × Gains fname (ino % 2 ^ 32) (names d.blocks) (names r.1.blocks))
  ext4_add_entry-names used dirblock inode d =
      let added = add_dirent_to_buf-IsAdded k w.s_blocksize ino mode fname used in
      let made = add_to_new_block-IsAdded used in
      elim (ext4_add_entry-Outcome k w fname ino mode (IsAdded fname (ino % 2 ^ 32)) dirblock inode
        added made d) [
          | inl failed ↦ inl failed
          | inr (ended, put) ↦
              inr (ended, IsPut-Gains fname (ino % 2 ^ 32) (new_block k w) (live-new_block k w) put)
        ]
