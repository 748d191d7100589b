-- ===== src/DirBlock/Insert.antt =====
-- A new entry in a block of a directory: `add_dirent_to_buf` of namei.c.
use linux_evfs.Base.{
  ℕ, ◌+◌, ◌-◌, ◌%◌, ◌^◌, ◌≤◌, ◌<◌, ◌≡◌, ◌⊎◌, refl, sym, ap, ◌∙◌, inl, inr, true, false, List, [],
  ◌∷◌, ◌++◌, arith, length, ltb, leb, ltb→le, leb→le, ◌==◌, if◌then◌else◌, Bool-cases,
}
use linux_evfs.Base.Int.{is_nonzero}
use linux_evfs.Dentry.{DirEntry}
use linux_evfs.DirBlock.{
  DirKernel, Dest, dest_error, dest, dest_cons, ext4_dir_rec_len, ext4_match, free_len,
  find_dest_loop, ext4_find_dest_de, ext4_insert_dentry, csum_size, place_entry, add_dirent_to_buf,
}

-- The names in use, with their inodes, and the bytes of all entries.
abbrev pub live : List DirEntry → List (List ℕ × ℕ)
live [] = []
live (e ∷ es) = if e.inode == 0 then live es else (e.name, e.inode) ∷ live es

abbrev pub size : List DirEntry → ℕ
size [] = 0
size (e ∷ es) = e.rec_len + size es

pub live-append : (es es' : List DirEntry) → live (es ++ es') ≡ live es ++ live es'
live-append [] es' = refl
live-append (e ∷ es) es' = ground (arith, live-append es es')

pub size-append : (es es' : List DirEntry) → size (es ++ es') ≡ size es + size es'
size-append [] es' = omega arith
size-append (e ∷ es) es' = omega (arith, size-append es es')

-- The entries have one more name, somewhere, in as many bytes.
pub record IsAdded (name : List ℕ) (ino : ℕ) (es es' : List DirEntry) : Type 0 where
  pub left : List (List ℕ × ℕ)
  pub right : List (List ℕ × ℕ)
  pub old : live es ≡ left ++ right
  pub new : live es' ≡ left ++ (name, ino) ∷ right
  pub same_size : size es' ≡ size es

module _ (k : DirKernel) (buf_size : ℕ) (fname : List ℕ) where
  abbrev pub reclen : ℕ
  reclen = ext4_dir_rec_len k (length fname)

  -- Entries that the search for a place passed: they are good and have another name.
  abbrev pub Passed : List DirEntry → ℕ → Type 0
  Passed [] offset = offset ≡ offset
  Passed (e ∷ es) offset =
      (k.ext4_check_dir_entry buf_size offset e ≡ false)
      × (ext4_match k fname e ≡ false)
      × Passed es (offset + e.rec_len)

  -- What the search for a place ends with.
  abbrev pub IsDest : List DirEntry → ℕ → Dest → Type 0
  IsDest es offset (dest_error err) = is_nonzero err ≡ true
  IsDest es offset (dest before de after) =
      (es ≡ before ++ de ∷ after)
      × Passed before offset
      × (k.ext4_check_dir_entry buf_size (offset + size before) de ≡ false)
      × (ext4_match k fname de ≡ false)
      × (reclen ≤ free_len k de)
      × (offset + size before + reclen ≤ buf_size)

  IsDest-cons :
      (e : DirEntry) (es : List DirEntry) (offset : ℕ) (d : Dest)
      → k.ext4_check_dir_entry buf_size offset e ≡ false
      → ext4_match k fname e ≡ false
      → IsDest es (offset + e.rec_len) d
      → IsDest (e ∷ es) offset (dest_cons e d)
  IsDest-cons e es offset (dest_error err) good other d = d
  IsDest-cons e es offset (dest before de after) good other (eq, passed, c, m, room, bound) =
      let at : offset + e.rec_len + size before ≡ offset + (e.rec_len + size before) =
        omega arith in
      (ap (λ ys. e ∷ ys) eq, (good, other, passed), rw at at c, m, room, omega (arith, bound))

  pub find_dest_loop-IsDest :
      (es : List DirEntry) (offset : ℕ)
      → IsDest es offset (find_dest_loop k buf_size reclen fname es offset)
  unfolding find_dest_loop
  find_dest_loop-IsDest [] offset = refl
  find_dest_loop-IsDest (de ∷ rest) offset = elim (Bool-cases (ltb buf_size (offset + reclen))) [
    | inl far ↦ rw far refl
    | inr inside ↦ elim (Bool-cases (k.ext4_check_dir_entry buf_size offset de)) [
      | inl bad ↦ rw (inside, bad) refl
      | inr good ↦ elim (Bool-cases (ext4_match k fname de)) [
        | inl same ↦ rw (inside, good, same) refl
        | inr other ↦ elim (Bool-cases (leb reclen (free_len k de))) [
          | inl fits ↦
              let at : offset + 0 ≡ offset = omega arith in
              rw (inside, good, other, fits)
                (
                  refl,
                  refl,
                  rw at good,
                  other,
                  leb→le reclen (free_len k de) fits,
                  omega (arith, ltb→le buf_size (offset + reclen) inside),
                )
          | inr full ↦
              rw (inside, good, other, full)
                (IsDest-cons de rest offset
                  (find_dest_loop k buf_size reclen fname rest (offset + de.rec_len)) good other
                  (find_dest_loop-IsDest rest (offset + de.rec_len)))
        ]
      ]
    ]
  ]

  reclen-pos : 0 < reclen
  unfolding ext4_dir_rec_len
  reclen-pos = ground arith

  -- The entry that is split, or whose bytes are taken.
  pub insert_dentry-live :
      (ino mode : ℕ) (de : DirEntry)
      → 0 < ino % 2 ^ 32
      → reclen ≤ free_len k de
      → (live (ext4_insert_dentry k fname ino mode de)
          ≡ live (de ∷ []) ++ (fname, ino % 2 ^ 32) ∷ [])
        × (size (ext4_insert_dentry k fname ino mode de) ≡ de.rec_len)
  unfolding ext4_insert_dentry free_len
  insert_dentry-live ino mode de used room = elim (Bool-cases (de.inode == 0)) [
    | inl unused ↦ (ground (arith, unused, used), ground (arith, unused))
    | inr in_use ↦ (ground (arith, in_use, used), ground (arith, in_use, reclen-pos, room))
  ]

pub append-three : {A : Type 0} (xs ys zs : List A) → xs ++ (ys ++ zs) ≡ (xs ++ ys) ++ zs
append-three [] ys zs = refl
append-three (x ∷ xs) ys zs = ap (λ ws. x ∷ ws) (append-three xs ys zs)

append-middle :
    {A : Type 0} (xs ys zs : List A) (b : A) → (xs ++ (ys ++ b ∷ [])) ++ zs ≡ (xs ++ ys) ++ b ∷ zs
append-middle xs ys zs b =
    ap (λ ws. ws ++ zs) (append-three xs ys (b ∷ [])) ∙ sym (append-three (xs ++ ys) (b ∷ []) zs)

module _ (k : DirKernel) (blocksize ino mode : ℕ) (fname : List ℕ) (used : 0 < ino % 2 ^ 32) where
  put-IsAdded :
      (before : List DirEntry) (de : DirEntry) (after : List DirEntry)
      → reclen k blocksize fname ≤ free_len k de
      → IsAdded fname
          (ino % 2 ^ 32)
          (before ++ de ∷ after)
          (before ++ ext4_insert_dentry k fname ino mode de ++ after)
  put-IsAdded before de after room =
      let placed = insert_dentry-live k blocksize fname ino mode de used room in
      let put = ext4_insert_dentry k fname ino mode de in
      record {
        left = live before ++ live (de ∷ []);
        right = live after;
        old =
            live-append before (de ∷ after)
            ∙ ap (λ ys. live before ++ ys) (live-append (de ∷ []) after)
            ∙ append-three (live before) (live (de ∷ [])) (live after);
        new =
            live-append (before ++ put) after
            ∙ ap (λ ys. ys ++ live after)
                (live-append before put ∙ ap (λ ys. live before ++ ys) placed.0)
            ∙ append-middle (live before) (live (de ∷ [])) (live after) (fname, ino % 2 ^ 32);
        same_size = omega (
          arith,
          size-append (before ++ put) after,
          size-append before put,
          size-append before (de ∷ after),
          placed.1,
        );
      }

  pub place_dest-IsAdded :
      (before : List DirEntry) (de : DirEntry) (after : List DirEntry)
      → reclen k blocksize fname ≤ free_len k de
      → let es = before ++ de ∷ after in
        let r = place_entry k fname ino mode es (dest before de after) in
        ((is_nonzero r.0 ≡ true) × (r.1 ≡ es)) ⊎ IsAdded fname (ino % 2 ^ 32) es r.1
  unfolding place_entry
  place_dest-IsAdded before de after room =
      elim (Bool-cases (is_nonzero k.ext4_journal_get_write_access)) [
        | inl fails ↦ rw fails (inl (fails, refl))
        | inr granted ↦ rw granted (inr (put-IsAdded before de after room))
      ]

  place_entry-IsAdded :
      (es : List DirEntry) (d : Dest) (n : ℕ)
      → IsDest k n fname es 0 d
      → let r = place_entry k fname ino mode es d in
        ((is_nonzero r.0 ≡ true) × (r.1 ≡ es)) ⊎ IsAdded fname (ino % 2 ^ 32) es r.1
  unfolding place_entry
  place_entry-IsAdded es (dest_error err) n d = inl (d, refl)
  place_entry-IsAdded es (dest before de after) n (eq, passed, c, m, room, bound) =
      rw eq (place_dest-IsAdded before de after room)

  -- Adding a name to a block either reports an error before anything is written, or adds exactly this name
  -- with the inode's number to the names in use, in the bytes that the entries had before.
  pub add_dirent_to_buf-IsAdded :
      (es : List DirEntry)
      → let r = add_dirent_to_buf k blocksize fname ino mode es in
        ((is_nonzero r.0 ≡ true) × (r.1 ≡ es)) ⊎ IsAdded fname (ino % 2 ^ 32) es r.1
  unfolding add_dirent_to_buf ext4_find_dest_de
  add_dirent_to_buf-IsAdded es =
      place_entry-IsAdded es (ext4_find_dest_de k (blocksize - csum_size k) fname es)
        (blocksize - csum_size k) (find_dest_loop-IsDest k (blocksize - csum_size k) fname es 0)
