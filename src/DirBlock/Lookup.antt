-- ===== src/DirBlock/Lookup.antt =====
-- A name that was added to a block of a directory is found there: `ext4_search_dir` of namei.c.
use linux_evfs.Base.{
  ℕ, ◌+◌, ◌-◌, ◌%◌, ◌^◌, ◌≤◌, ◌<◌, ◌≡◌, ◌⊎◌, refl, sym, ◌∙◌, inl, inr, true, false, List, [], ◌∷◌,
  ◌++◌, arith, length, ltb, lt→ltb, ◌==◌, Bool-cases,
}
use linux_evfs.Base.Int.{is_nonzero}
use linux_evfs.Dentry.{DirEntry}
use linux_evfs.DirBlock.{
  DirKernel, Dest, dest_error, dest, search_found, ext4_dir_rec_len, ext4_match, free_len,
  ext4_find_dest_de, new_entry, ext4_insert_dentry, csum_size, place_entry, add_dirent_to_buf,
  ext4_search_dir,
}
use linux_evfs.DirBlock.Insert.{
  size, size-append, append-three, IsDest, Passed, reclen, find_dest_loop-IsDest,
}

-- What dir.c does in `ext4_check_dir_entry`, and what fscrypt does without encryption. An entry that
-- passes the check has bytes. One that ends where a good entry ends, and begins a multiple of four bytes
-- behind its start, passes in the whole block too if it is long enough for its name and
-- its inode exists. A name matches itself.
pub record Checks (k : DirKernel) (blocksize s_inodes_count : ℕ) (fname : List ℕ) : Type 0 where
  pub positive :
      (o : ℕ) (e : DirEntry)
      → k.ext4_check_dir_entry (blocksize - csum_size k) o e ≡ false
      → 0 < e.rec_len
  pub accepts :
      (o o' : ℕ) (e e' : DirEntry)
      → k.ext4_check_dir_entry (blocksize - csum_size k) o e ≡ false
      → o ≤ o'
      → o' + e'.rec_len ≡ o + e.rec_len
      → (o' - o) % 4 ≡ 0
      → ext4_dir_rec_len k e'.name_len ≤ e'.rec_len
      → 0 < e'.name_len
      → e'.inode ≤ s_inodes_count
      → k.ext4_check_dir_entry blocksize o' e' ≡ false
  pub matches : k.fscrypt_match_name fname fname (length fname) ≡ true

module _ (k : DirKernel) (blocksize s_inodes_count ino mode : ℕ) (fname : List ℕ)
    (checks : Checks k blocksize s_inodes_count fname) (used : 0 < ino % 2 ^ 32)
    (exists : ino % 2 ^ 32 ≤ s_inodes_count) (named : 0 < length fname) where
  abbrev n : ℕ
  n = blocksize - csum_size k

  -- The search goes past an entry with another name.
  search-skip :
      (e : DirEntry) (rest : List DirEntry) (offset : ℕ)
      → ext4_match k fname e ≡ false
      → 0 < e.rec_len
      → offset + 8 < blocksize
      → ext4_search_dir k blocksize fname (e ∷ rest) offset
        ≡ ext4_search_dir k blocksize fname rest (offset + e.rec_len)
  unfolding ext4_search_dir
  search-skip e rest offset other len bound =
      let a : ltb (offset + 8) blocksize ≡ true = lt→ltb (offset + 8) blocksize bound in
      let b : (e.rec_len == 0) ≡ false = ground (arith, len) in rw (a, other, b) (ground arith)

  search-Passed :
      (before rest : List DirEntry) (offset : ℕ)
      → Passed k n fname before offset
      → offset + size before + 8 < blocksize
      → ext4_search_dir k blocksize fname (before ++ rest) offset
        ≡ ext4_search_dir k blocksize fname rest (offset + size before)
  search-Passed [] rest offset p bound = let at : offset + 0 ≡ offset = omega arith in rw at refl
  search-Passed (e ∷ es) rest offset (good, other, p) bound =
      let at : offset + e.rec_len + size es ≡ offset + (e.rec_len + size es) = omega arith in
      search-skip e (es ++ rest) offset other (checks.positive offset e good) (omega (arith, bound))
      ∙ search-Passed es rest (offset + e.rec_len) p (omega (arith, bound))
      ∙ rw at refl

  search-here :
      (rec_len offset : ℕ) (rest : List DirEntry)
      → let e = new_entry k rec_len fname ino mode in
        k.ext4_check_dir_entry blocksize offset e ≡ false
        → offset + 8 + length fname ≤ blocksize
        → ext4_search_dir k blocksize fname (e ∷ rest) offset ≡ search_found offset e
  unfolding ext4_search_dir ext4_match
  search-here rec_len offset rest good bound =
      ground (arith, good, bound, named, used, checks.matches)

  rec_len-bounds : (m : ℕ) → (m + 8 ≤ ext4_dir_rec_len k m) × (ext4_dir_rec_len k m % 4 ≡ 0)
  unfolding ext4_dir_rec_len
  rec_len-bounds m = (ground arith, ground arith)

  -- The entry that was put is found.
  pub record IsFound (es : List DirEntry) : Type 0 where
    pub offset : ℕ
    pub entry : DirEntry
    pub finds : ext4_search_dir k blocksize fname es 0 ≡ search_found offset entry
    pub inode : entry.inode ≡ ino % 2 ^ 32
    pub name : entry.name ≡ fname

  -- The end of a good entry, from a place in it on.
  put-good :
      (de : DirEntry) (offset at rec_len : ℕ)
      → k.ext4_check_dir_entry n offset de ≡ false
      → offset ≤ at
      → at + rec_len ≡ offset + de.rec_len
      → (at - offset) % 4 ≡ 0
      → reclen k n fname ≤ rec_len
      → k.ext4_check_dir_entry blocksize at (new_entry k rec_len fname ino mode) ≡ false
  put-good de offset at rec_len good le same aligned room =
      checks.accepts offset at de (new_entry k rec_len fname ino mode) good le same aligned room
        named exists

  search-start :
      (before rest : List DirEntry)
      → Passed k n fname before 0
      → size before + 8 < blocksize
      → ext4_search_dir k blocksize fname (before ++ rest) 0
        ≡ ext4_search_dir k blocksize fname rest (size before)
  search-start before rest p bound =
      let at : 0 + size before ≡ size before = omega arith in
      rw at at (search-Passed before rest 0 p (omega (arith, bound)))

  match-shortened :
      (de : DirEntry) (rec_len : ℕ)
      → ext4_match k fname de ≡ false
      → ext4_match k fname (record de { rec_len = rec_len }) ≡ false
  unfolding ext4_match
  match-shortened de rec_len other = other

  -- The two ways to put an entry: into unused bytes, or behind the entry in use.
  put_unused-IsFound :
      (before : List DirEntry) (de : DirEntry) (after : List DirEntry)
      → Passed k n fname before 0
      → k.ext4_check_dir_entry n (size before) de ≡ false
      → reclen k n fname ≤ de.rec_len
      → size before + reclen k n fname ≤ blocksize
      → IsFound (before ++ new_entry k de.rec_len fname ino mode ∷ after)
  put_unused-IsFound before de after p good fits bound =
      let (long, aligned) = rec_len-bounds (length fname) in
      let e = new_entry k de.rec_len fname ino mode in
      record {
        offset = size before;
        entry = e;
        finds =
            search-start before (e ∷ after) p (omega (arith, bound, long, named))
            ∙ search-here de.rec_len (size before) after
                (put-good de (size before) (size before) de.rec_len good (omega arith) refl
                  (ground arith) fits)
                (omega (arith, bound, long));
        inode = refl;
        name = refl;
      }

  put_behind-IsFound :
      (before : List DirEntry) (de : DirEntry) (after : List DirEntry)
      → Passed k n fname before 0
      → k.ext4_check_dir_entry n (size before) de ≡ false
      → ext4_match k fname de ≡ false
      → let nlen = ext4_dir_rec_len k de.name_len in
        reclen k n fname ≤ de.rec_len - nlen
        → size before + de.rec_len ≤ blocksize
        → IsFound (
            before
            ++ record de { rec_len = nlen }
              ∷ new_entry k (de.rec_len - nlen) fname ino mode
              ∷ after)
  put_behind-IsFound before de after p good other fits bound =
      let nlen = ext4_dir_rec_len k de.name_len in
      let left = de.rec_len - nlen in
      let (short, aligned) = rec_len-bounds de.name_len in
      let (long, aligned') = rec_len-bounds (length fname) in
      let e = new_entry k left fname ino mode in
      let de' : DirEntry = record de { rec_len = nlen } in
      record {
        offset = size before + nlen;
        entry = e;
        finds =
            search-start before (de' ∷ e ∷ after) p (omega (arith, bound, fits, long, named))
            ∙ search-skip de' (e ∷ after) (size before) (match-shortened de nlen other)
                (omega (arith, short)) (omega (arith, bound, fits, long, named))
            ∙ search-here left (size before + nlen) after
                (put-good de (size before) (size before + nlen) left good (omega arith)
                  (omega (arith, fits, long)) (omega (arith, aligned)) fits)
                (omega (arith, bound, fits, long));
        inode = refl;
        name = refl;
      }

  put-IsFound :
      (before : List DirEntry) (de : DirEntry) (after : List DirEntry)
      → Passed k n fname before 0
      → k.ext4_check_dir_entry n (size before) de ≡ false
      → ext4_match k fname de ≡ false
      → reclen k n fname ≤ free_len k de
      → size before + de.rec_len ≤ blocksize
      → IsFound (before ++ ext4_insert_dentry k fname ino mode de ++ after)
  unfolding ext4_insert_dentry free_len
  put-IsFound before de after p good other room bound =
      let nlen = ext4_dir_rec_len k de.name_len in
      elim (Bool-cases (de.inode == 0)) [
        | inl unused ↦
            let fits : reclen k n fname ≤ de.rec_len = rw unused at room in
            let e = new_entry k de.rec_len fname ino mode in
            rw (unused, sym (append-three before (e ∷ []) after))
              (put_unused-IsFound before de after p good fits (omega (arith, bound, fits)))
        | inr in_use ↦
            let fits : reclen k n fname ≤ de.rec_len - nlen = rw in_use at room in
            let two =
              record de { rec_len = nlen } ∷ new_entry k (de.rec_len - nlen) fname ino mode ∷ [] in
            rw (in_use, sym (append-three before two after))
              (put_behind-IsFound before de after p good other fits bound)
      ]

  pub place_entry-IsFound :
      (es : List DirEntry) (d : Dest)
      → size es ≤ blocksize
      → IsDest k n fname es 0 d
      → let r = place_entry k fname ino mode es d in
        ((is_nonzero r.0 ≡ true) × (r.1 ≡ es)) ⊎ IsFound r.1
  unfolding place_entry
  place_entry-IsFound es (dest_error err) whole d = inl (d, refl)
  place_entry-IsFound es (dest before de after) whole (eq, p, good, other, room, bound) =
      let at : 0 + size before ≡ size before = omega arith in
      let inside : size before + de.rec_len ≤ blocksize =
        omega (arith, rw eq at whole, size-append before (de ∷ after)) in
      elim (Bool-cases (is_nonzero k.ext4_journal_get_write_access)) [
        | inl fails ↦ rw fails (inl (fails, refl))
        | inr granted ↦
            rw granted (inr (put-IsFound before de after p (rw at at good) other room inside))
      ]

  -- Adding a name to the entries of a block either reports an error before anything is written, or a search of
  -- the block for the name then finds an entry with the name and the inode's number. The
  -- check of entries and the comparison of names behave as documented, the name is not empty, and the
  -- inode's number is not 0 in 32 bits and at most the count of inodes.
  pub add_dirent_to_buf-ext4_search_dir :
      (es : List DirEntry)
      → size es ≤ blocksize
      → let r = add_dirent_to_buf k blocksize fname ino mode es in
        ((is_nonzero r.0 ≡ true) × (r.1 ≡ es)) ⊎ IsFound r.1
  unfolding add_dirent_to_buf ext4_find_dest_de
  add_dirent_to_buf-ext4_search_dir es whole =
      place_entry-IsFound es (ext4_find_dest_de k n fname es) whole
        (find_dest_loop-IsDest k n fname es 0)
