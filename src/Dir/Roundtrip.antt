-- ===== src/Dir/Roundtrip.antt =====
-- A name that `ext4_add_entry` (namei.c) added is found by `__ext4_find_entry`.
use linux_evfs.Base.{
  ℕ, ◌-◌, ◌%◌, ◌^◌, ◌≤◌, ◌<◌, ◌≡◌, ◌⊎◌, refl, ap, ◌∙◌, inl, inr, true, false, none, some, List, [],
  arith, length, get_or, leb, Bool-cases, leb→le,
}
use linux_evfs.Base.Int.{is_nonzero}
use linux_evfs.Dentry.{DirEntry}
use linux_evfs.DirBlock.{DirKernel, dest, ext4_match, csum_size, add_dirent_to_buf}
use linux_evfs.DirBlock.Insert.{size}
use linux_evfs.DirBlock.Lookup.{
  Checks, IsFound, place_entry-IsFound, add_dirent_to_buf-ext4_search_dir,
}
use linux_evfs.Dir.{
  Dir, WalkKernel, Block, find_found, visit_block, after_search, note_found, search_dirblock, visit,
  find_entry,
}
use linux_evfs.Dir.Add.{
  is_enospc, empty_entry, ext4_initialize_dirent_tail, new_block, add_to_new_block, ext4_add_entry,
}
use linux_evfs.Dir.Find.{scan, found, lookup_order, find_entry-scan}
use linux_evfs.Dir.Put.{names, ext4_add_entry-Outcome}
use linux_evfs.Dir.Names.{new_block-bound, new_block-fits}
use linux_evfs.Dir.Lookup.{AllWhole, IsReadable, Changed, IsPut-Changed, scan-lookup_order}

module _ (k : DirKernel) (w : WalkKernel) (s_inodes_count ino mode : ℕ) (fname : List ℕ)
    (checks : Checks k w.s_blocksize s_inodes_count fname) (used : 0 < ino % 2 ^ 32)
    (exists : ino % 2 ^ 32 ≤ s_inodes_count) (named : 0 < length fname) (short : length fname ≤ 255)
    (large : 1024 ≤ w.s_blocksize) where
  abbrev InBlock : List DirEntry → Type 0
  InBlock es = IsFound k w.s_blocksize s_inodes_count ino mode fname checks used exists named es

  abbrev P : List DirEntry → List DirEntry → Type 0
  P es es' = size es ≤ w.s_blocksize → InBlock es'

  add_dirent_to_buf-InBlock :
      (es : List DirEntry)
      → let r = add_dirent_to_buf k w.s_blocksize fname ino mode es in
        ((is_nonzero r.0 ≡ true) × (r.1 ≡ es)) ⊎ P es r.1
  add_dirent_to_buf-InBlock es = elim (Bool-cases (leb (size es) w.s_blocksize)) [
    | inr long ↦ inr (λ h. absurd (ground (arith, long, h)))
    | inl whole ↦
        elim (add_dirent_to_buf-ext4_search_dir k w.s_blocksize s_inodes_count ino mode fname checks
          used exists named es (leb→le _ _ whole)) [
            | inl failed ↦ inl failed
            | inr here ↦ inr (λ h. here)
          ]
  ]

  new_block-whole : size (new_block k w) ≤ w.s_blocksize
  unfolding empty_entry ext4_initialize_dirent_tail csum_size
  new_block-whole = ground (arith, large)

  unused-match : ext4_match k fname (empty_entry k w) ≡ false
  unfolding ext4_match empty_entry
  unused-match = refl

  add_to_new_block-InBlock :
      k.ext4_check_dir_entry (w.s_blocksize - csum_size k) 0 (empty_entry k w) ≡ false
      → let r = add_to_new_block k w fname ino mode in
        ((is_nonzero r.0 ≡ true) × (r.1 ≡ new_block k w)) ⊎ P (new_block k w) r.1
  unfolding add_to_new_block
  add_to_new_block-InBlock good =
      let fits = new_block-fits k w fname ino mode short large in
      elim (place_entry-IsFound k w.s_blocksize s_inodes_count ino mode fname checks used exists
        named (new_block k w) (dest [] (empty_entry k w) (ext4_initialize_dirent_tail k w))
        new_block-whole
        (
          refl,
          refl,
          good,
          unused-match,
          fits,
          omega (arith, new_block-bound k w fname ino mode short large s_inodes_count),
        )) [ inl failed ↦ inl failed | inr here ↦ inr (λ h. here) ]

  -- The directory in which the name is found, with any fuel that is enough.
  pub record IsFoundIn (d : Dir) : Type 0 where
    pub block : ℕ
    pub offset : ℕ
    pub entry : DirEntry
    pub finds :
        (fuel : ℕ)
        → length d.blocks ≤ fuel
        → find_entry k w fuel fname d
          ≡ some (find_found block offset entry, record d { i_dir_start_lookup = block })
    pub inode : entry.inode ≡ ino % 2 ^ 32
    pub name : entry.name ≡ fname

  module _ (readable : IsReadable w) where
    visit-here :
        (bs : List Block) (b : ℕ) (es : List DirEntry) (f : InBlock es)
        → get_or bs b none ≡ some es
        → visit k w bs fname b ≡ some (find_found b f.offset f.entry)
    unfolding visit visit_block search_dirblock after_search
    visit-here bs b es f here = rw (here, readable.uptodate, readable.verified, f.finds) refl

    visit-same :
        (bs bs' : List Block) (b : ℕ)
        → get_or bs' b none ≡ get_or bs b none
        → visit k w bs' fname b ≡ visit k w bs fname b
    unfolding visit
    visit-same bs bs' b same = ap (visit_block k w fname b) same

    Changed-IsFoundIn :
        (bs : List Block) (d : Dir)
        → ((b : ℕ) → visit k w bs fname b ≡ none)
        → Changed InBlock bs d.blocks
        → IsFoundIn d
    unfolding note_found
    Changed-IsFoundIn bs d absent c =
        let f = c.good in
        let r = find_found c.at f.offset f.entry in
        let at_order : scan k w d.blocks fname (lookup_order k w fname d) ≡ some r =
          scan-lookup_order k w d.blocks fname c.at r (visit-here d.blocks c.at c.entries f c.here)
            (λ j ne. visit-same bs d.blocks j (c.elsewhere j ne) ∙ absent j) d c.inside in
        record {
          block = c.at;
          offset = f.offset;
          entry = f.entry;
          finds = λ fuel enough.
              find_entry-scan k w fuel fname d readable.reads short
                (omega (arith, enough, c.inside)) enough
              ∙ ap (λ o. some (found o, note_found (found o) d)) at_order;
          inode = f.inode;
          name = f.name;
        }

    -- After a name was added to a directory in which a search finds it in no block, either the
    -- function reported an error and left the names in use as they were, or the search of the
    -- directory ends, from wherever it starts, at an entry with the name and the inode's number.
    -- The checks behave as documented, the entry of a new block is good, all buffers can be read,
    -- blocks have 1024 bytes or more and are full at most, the name has 1 to 255 bytes, the inode
    -- exists, and the calls that mark something as changed do not fail with `-ENOSPC`.
    pub ext4_add_entry-find_entry :
        is_enospc k.ext4_handle_dirty_dirblock ≡ false
        → is_enospc k.ext4_mark_inode_dirty ≡ false
        → k.ext4_check_dir_entry (w.s_blocksize - csum_size k) 0 (empty_entry k w) ≡ false
        → (d : Dir) → AllWhole w.s_blocksize d.blocks
        → ((b : ℕ) → visit k w d.blocks fname b ≡ none)
        → let r = ext4_add_entry k w fname ino mode d in
          ((is_nonzero r.0 ≡ true) × (names r.1.blocks ≡ names d.blocks)) ⊎ IsFoundIn r.1
    ext4_add_entry-find_entry dirblock inode good d whole absent =
        elim (ext4_add_entry-Outcome k w fname ino mode P dirblock inode add_dirent_to_buf-InBlock
          (add_to_new_block-InBlock good) d) [
            | inl failed ↦ inl failed
            | inr (ended, put) ↦ inr (
                Changed-IsFoundIn d.blocks _ absent
                  (IsPut-Changed w.s_blocksize InBlock (new_block k w) new_block-whole whole put))
          ]
