-- ===== src/Dir/Put.antt =====
-- Where `ext4_add_entry` (namei.c) puts a name: into one block of the directory.
use linux_evfs.Base.{
  append-nil, ℕ, ◌+◌, ◌-◌, ◌≡◌, ◌⊎◌, refl, ap, ◌∙◌, inl, inr, true, false, Option, none, some, List,
  [], ◌∷◌, ◌++◌, arith, Bool-cases,
}
use linux_evfs.Base.Int.{ℤ, pos, negsuc, is_nonzero}
use linux_evfs.Dentry.{DirEntry}
use linux_evfs.DirBlock.{
  DirKernel, Dest, dest_error, dest, csum_size, ext4_find_dest_de, place_entry, add_dirent_to_buf,
}
use linux_evfs.DirBlock.Insert.{live, append-three}
use linux_evfs.Dir.{Dir, WalkKernel, Block}
use linux_evfs.Dir.Add.{
  is_enospc, ext4_append, empty_entry, ext4_initialize_dirent_tail, fill_hole, try_block, zeroed,
  new_block, add_to_new_block, add_loop, add_behind, finish_add, ext4_add_entry,
}

-- The names in use in the whole directory, with their inodes.
abbrev pub names : List Block → List (List ℕ × ℕ)
names [] = []
names (none ∷ bs) = names bs
names (some es ∷ bs) = live es ++ names bs

-- One block changes: an old one, or one that stands in place of a hole or behind the others and had
-- the entries `fresh`.
pub data IsPut (P : List DirEntry → List DirEntry → Type 0) (fresh : List DirEntry)
    : List Block → List Block → Type 0 where
  put_here :
      {es es' : List DirEntry} {rest : List Block}
      → P es es'
      → IsPut P fresh (some es ∷ rest) (some es' ∷ rest)
  put_hole :
      {es' : List DirEntry} {rest : List Block}
      → P fresh es'
      → IsPut P fresh (none ∷ rest) (some es' ∷ rest)
  put_behind : {es' : List DirEntry} → P fresh es' → IsPut P fresh [] (some es' ∷ [])
  put_next :
      {b : Block} {bs bs' : List Block} → IsPut P fresh bs bs' → IsPut P fresh (b ∷ bs) (b ∷ bs')

pub names-append : (bs bs' : List Block) → names (bs ++ bs') ≡ names bs ++ names bs'
names-append [] bs' = refl
names-append (none ∷ bs) bs' = names-append bs bs'
names-append (some es ∷ bs) bs' =
    ap (λ ns. live es ++ ns) (names-append bs bs') ∙ append-three (live es) (names bs) (names bs')

names-grown :
    (bs : List Block) (es : List DirEntry) → live es ≡ [] → names (bs ++ some es ∷ []) ≡ names bs
names-grown bs es unused =
    names-append bs (some es ∷ [])
    ∙ ap (λ ns. names bs ++ (ns ++ [])) unused
    ∙ append-nil (names bs)

nonzero_of_enospc : (x : ℤ) → is_enospc x ≡ true → is_nonzero x ≡ true
unfolding is_enospc
nonzero_of_enospc (pos n) h = absurd (ground (arith, h))
nonzero_of_enospc (negsuc n) h = refl

pub live-new_block : (k : DirKernel) (w : WalkKernel) → live (new_block k w) ≡ []
unfolding empty_entry ext4_initialize_dirent_tail
live-new_block k w = ground arith

module _ (k : DirKernel) (w : WalkKernel) (fname : List ℕ) (ino mode : ℕ)
    (P : List DirEntry → List DirEntry → Type 0) where
  -- How a function ends that changed the blocks: with an error and the same names, or with the name
  -- put, and not with `-ENOSPC`.
  abbrev pub Outcome : ℤ → List Block → List Block → Type 0
  Outcome ret bs bs' =
      ((is_nonzero ret ≡ true) × (names bs' ≡ names bs))
      ⊎ ((is_enospc ret ≡ false) × IsPut P (new_block k w) bs bs')

  abbrev AfterLoop : Option ℤ → List Block → List Block → Type 0
  AfterLoop none bs bs' = bs' ≡ bs
  AfterLoop (some ret) bs bs' = Outcome ret bs bs'

  AfterLoop-next :
      (es : List DirEntry) (ended : Option ℤ) (bs bs' : List Block)
      → AfterLoop ended bs bs'
      → AfterLoop ended (some es ∷ bs) (some es ∷ bs')
  AfterLoop-next es none bs bs' same = ap (λ ys. some es ∷ ys) same
  AfterLoop-next es (some ret) bs bs' (inl (fails, same)) =
      inl (fails, ap (λ ys. live es ++ ys) same)
  AfterLoop-next es (some ret) bs bs' (inr (ended, put)) = inr (ended, put_next put)

  module _ (dirblock : is_enospc k.ext4_handle_dirty_dirblock ≡ false)
      (inode : is_enospc k.ext4_mark_inode_dirty ≡ false)
      (added : (es : List DirEntry)
        → let r = add_dirent_to_buf k w.s_blocksize fname ino mode es in
          ((is_nonzero r.0 ≡ true) × (r.1 ≡ es)) ⊎ P es r.1)
      (made : let r = add_to_new_block k w fname ino mode in
        ((is_nonzero r.0 ≡ true) × (r.1 ≡ new_block k w)) ⊎ P (new_block k w) r.1) where
    place_entry-full :
        (es : List DirEntry) (d : Dest)
        → let r = place_entry k fname ino mode es d in is_enospc r.0 ≡ true → r.1 ≡ es
    unfolding place_entry
    place_entry-full es (dest_error err) full = refl
    place_entry-full es (dest before de after) full =
        elim (Bool-cases (is_nonzero k.ext4_journal_get_write_access)) [
          | inl fails ↦ rw fails refl
          | inr granted ↦ absurd (ground (arith, dirblock, inode, granted, full))
        ]

    add_dirent_to_buf-full :
        (es : List DirEntry)
        → let r = add_dirent_to_buf k w.s_blocksize fname ino mode es in
          is_enospc r.0 ≡ true → r.1 ≡ es
    unfolding add_dirent_to_buf
    add_dirent_to_buf-full es =
        place_entry-full es (ext4_find_dest_de k (w.s_blocksize - csum_size k) fname es)

    made_ended :
        let r = add_to_new_block k w fname ino mode in
        ((is_nonzero r.0 ≡ true) × (r.1 ≡ new_block k w))
        ⊎ ((is_enospc r.0 ≡ false) × P (new_block k w) r.1)
    unfolding add_to_new_block
    made_ended =
        let r = add_to_new_block k w fname ino mode in
        elim (Bool-cases (is_enospc r.0)) [
          | inl full ↦ inl (nonzero_of_enospc r.0 full, place_entry-full (new_block k w) _ full)
          | inr ended ↦ elim made [ inl failed ↦ inl failed | inr put ↦ inr (ended, put) ]
        ]

    fill_hole-AfterLoop :
        (read bread : Option ℕ) (rest : List Block)
        → let r = fill_hole read bread (add_to_new_block k w fname ino mode) rest in
          AfterLoop r.0 (none ∷ rest) r.1
    unfolding fill_hole
    fill_hole-AfterLoop (some err) bread rest = inl (refl, refl)
    fill_hole-AfterLoop none (some err) rest = inl (refl, refl)
    fill_hole-AfterLoop none none rest = elim made_ended [
      | inl (fails, same) ↦ inl (
        fails,
        ap (λ es. live es ++ names rest) same ∙ ap (λ ns. ns ++ names rest) (live-new_block k w),
      )
      | inr (ended, put) ↦ inr (ended, put_hole put)
    ]

    try_block-AfterLoop :
        (read : Option ℕ) (es : List DirEntry) (next : Option ℤ × List Block) (rest : List Block)
        → AfterLoop next.0 rest next.1
        → let r =
            try_block read (add_dirent_to_buf k w.s_blocksize fname ino mode es) next es rest in
          AfterLoop r.0 (some es ∷ rest) r.1
    unfolding try_block
    try_block-AfterLoop (some err) es next rest h = inl (refl, refl)
    try_block-AfterLoop none es next rest h =
        let r = add_dirent_to_buf k w.s_blocksize fname ino mode es in
        elim (Bool-cases (is_enospc r.0)) [
          | inl full ↦
              rw (full, add_dirent_to_buf-full es full) (AfterLoop-next es next.0 rest next.1 h)
          | inr ended ↦ elim (added es) [
            | inl (fails, same) ↦ rw ended (inl (fails, ap (λ es'. live es' ++ names rest) same))
            | inr put ↦ rw ended (inr (ended, put_here put))
          ]
        ]

    add_loop-AfterLoop :
        (block : ℕ) (bs : List Block)
        → let r = add_loop k w fname ino mode block bs in AfterLoop r.0 bs r.1
    unfolding add_loop
    add_loop-AfterLoop block [] = refl
    add_loop-AfterLoop block (none ∷ rest) =
        fill_hole-AfterLoop (w.ext4_read_dirblock block) (w.ext4_bread block) rest
    add_loop-AfterLoop block (some es ∷ rest) =
        try_block-AfterLoop (w.ext4_read_dirblock block) es
          (add_loop k w fname ino mode (block + 1) rest) rest (add_loop-AfterLoop (block + 1) rest)

    IsPut-append :
        {es' : List DirEntry} (bs : List Block)
        → P (new_block k w) es'
        → IsPut P (new_block k w) bs (bs ++ some es' ∷ [])
    IsPut-append [] put = put_behind put
    IsPut-append (b ∷ bs) put = put_next (IsPut-append bs put)

    ext4_append-names : (d : Dir) → names ((ext4_append k w d).1.blocks) ≡ names (d.blocks)
    unfolding ext4_append
    ext4_append-names d = grind (arith, names-grown (d.blocks) (zeroed k w ∷ []) refl)

    add_behind-Outcome :
        (d : Dir) → let r = add_behind k w fname ino mode d in Outcome r.0 d.blocks r.1.blocks
    unfolding add_behind
    add_behind-Outcome d =
        let r = ext4_append k w d in
        elim (Bool-cases (is_nonzero r.0)) [
          | inl fails ↦ rw fails (inl (fails, ext4_append-names d))
          | inr grown ↦ elim made_ended [
            | inl (fails, same) ↦
                rw grown (inl (fails, names-grown d.blocks _ (ap live same ∙ (live-new_block k w))))
            | inr (ended, put) ↦ rw grown (inr (ended, IsPut-append d.blocks put))
          ]
        ]

    add_end :
        (d : Dir) (ended : Option ℤ) (blocks : List Block)
        → AfterLoop ended d.blocks blocks
        → let r = finish_add k w fname ino mode ended (record d { blocks = blocks }) in
          Outcome r.0 d.blocks r.1.blocks
    unfolding finish_add
    add_end d none blocks same = rw same (add_behind-Outcome d)
    add_end d (some ret) blocks h = h

    -- The whole function.
    pub ext4_add_entry-Outcome :
        (d : Dir) → let r = ext4_add_entry k w fname ino mode d in Outcome r.0 d.blocks r.1.blocks
    unfolding ext4_add_entry
    ext4_add_entry-Outcome d =
        let r = add_loop k w fname ino mode 0 d.blocks in
        elim (Bool-cases (is_nonzero w.setup_filename)) [
          | inl fails ↦ rw fails (inl (fails, refl))
          | inr named ↦ rw named (add_end d r.0 r.1 (add_loop-AfterLoop 0 d.blocks))
        ]
