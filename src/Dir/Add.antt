-- ===== src/Dir/Add.antt =====
-- The addition of a name to a directory: `ext4_append` and `ext4_add_entry` of namei.c, in the
-- scope of Dir.
use linux_evfs.Base.{
  ℕ, ◌+◌, ◌-◌, ◌*◌, ◌/◌, Bool, false, not, ◌&&◌, Option, none, some, List, [], ◌∷◌, ◌++◌, length,
  leb, ◌==◌, if◌then◌else◌,
}
use linux_evfs.Base.Int.{ℤ, pos, negsuc, is_neg, is_nonzero}
use linux_evfs.Dentry.{DirEntry}
use linux_evfs.DirBlock.{
  DirKernel, dest, enospc, efscorrupted, csum_size, place_entry, add_dirent_to_buf,
}
use linux_evfs.Dir.{Dir, Block, WalkKernel}

-- `retval == -ENOSPC`
unfoldable pub is_enospc : ℤ → Bool
is_enospc (pos n) = false
is_enospc (negsuc n) = n == 27

-- A block of the `for` loop of `ext4_add_entry` that is a hole: how reading it and making its
-- buffer end, and the call of `add_dirent_to_buf` on the new block.
unfoldable pub fill_hole :
    Option ℕ → Option ℕ → ℤ × List DirEntry → List Block → Option ℤ × List Block
fill_hole (some err) bread added rest = (some (negsuc err), none ∷ rest)
fill_hole none (some err) added rest = (some (negsuc err), none ∷ rest)
fill_hole none none (ret, es) rest = (some ret, some es ∷ rest)

-- A block with entries: how reading it ends, the call of `add_dirent_to_buf`, and the loop on the
-- rest.
unfoldable pub try_block :
    Option ℕ
    → ℤ × List DirEntry
    → Option ℤ × List Block
    → List DirEntry
    → List Block
    → Option ℤ × List Block
try_block (some err) added next es rest = (some (negsuc err), some es ∷ rest)
try_block none (ret, es') (ended, bs) es rest =
    if is_enospc ret then (ended, some es' ∷ bs) else (some ret, some es' ∷ rest)

module _ (k : DirKernel) (w : WalkKernel) where
  open w use {
    s_blocksize, s_max_dir_size_kb, setup_filename, ext4_read_dirblock, ext4_bread, ext4_map_blocks,
    append_mark_dirty, append_write_access,
  }

  -- A block of zeros: its first entry has no bytes.
  abbrev pub zeroed : DirEntry
  zeroed = record { inode = 0; rec_len = 0; name_len = 0; file_type = 0; name = [] }

  -- `ext4_append`: 0 in place of the buffer.
  unfoldable pub ext4_append : Dir → ℤ × Dir
  ext4_append d =
      let i_size = length d.blocks * s_blocksize in
      let block = length d.blocks in
      let grown = record d { blocks = d.blocks ++ some (zeroed ∷ []) ∷ [] } in
      if not (s_max_dir_size_kb == 0) && leb s_max_dir_size_kb (i_size / 1024)
      then (enospc, d)
      else if is_neg (ext4_map_blocks block)
      then (ext4_map_blocks block, d)
      else if is_nonzero (ext4_map_blocks block)
      then (efscorrupted, d)
      else elim (ext4_bread block) [
        | some err ↦ (negsuc err, d)
        | none ↦
            if is_nonzero append_mark_dirty
            then (append_mark_dirty, grown)
            else (append_write_access, grown)
      ]

  -- The entry that a new block begins with.
  unfoldable pub empty_entry : DirEntry
  empty_entry = record zeroed { rec_len = s_blocksize - csum_size k }

  -- The bytes of a checksum at the end of a block, as an entry.
  unfoldable pub ext4_initialize_dirent_tail : List DirEntry
  ext4_initialize_dirent_tail =
      if k.ext4_has_metadata_csum
      then record { inode = 0; rec_len = 12; name_len = 0; file_type = 0xde; name = [] } ∷ []
      else []

  -- From `de = bh->b_data` at `add_to_new_block:` on: the entries of the new block, and the call of
  -- `add_dirent_to_buf` on the first of them.
  abbrev pub new_block : List DirEntry
  new_block = empty_entry ∷ ext4_initialize_dirent_tail

  unfoldable pub add_to_new_block : List ℕ → ℕ → ℕ → ℤ × List DirEntry
  add_to_new_block fname ino mode =
      place_entry k fname ino mode new_block (dest [] empty_entry ext4_initialize_dirent_tail)

  -- The `for` loop, from a block on: the result of the function, or nothing if it is left at the
  -- end.
  unfoldable pub add_loop : List ℕ → ℕ → ℕ → ℕ → List Block → Option ℤ × List Block
  add_loop fname ino mode block [] = (none, [])
  add_loop fname ino mode block (none ∷ rest) =
      fill_hole (ext4_read_dirblock block) (ext4_bread block) (add_to_new_block fname ino mode) rest
  add_loop fname ino mode block (some es ∷ rest) =
      try_block (ext4_read_dirblock block) (add_dirent_to_buf k s_blocksize fname ino mode es)
        (add_loop fname ino mode (block + 1) rest) es rest

  -- From `ext4_append` on; the block that it made is the last one.
  unfoldable pub add_behind : List ℕ → ℕ → ℕ → Dir → ℤ × Dir
  add_behind fname ino mode d =
      let (err, d') = ext4_append d in
      let (ret, es) = add_to_new_block fname ino mode in
      if is_nonzero err then (err, d') else (ret, record d { blocks = d.blocks ++ some es ∷ [] })

  -- What follows the loop: its result, or a block behind the others.
  unfoldable pub finish_add : List ℕ → ℕ → ℕ → Option ℤ → Dir → ℤ × Dir
  finish_add fname ino mode (some ret) d = (ret, d)
  finish_add fname ino mode none d = add_behind fname ino mode d

  -- `ext4_add_entry`, but for the state flag of the inode.
  unfoldable pub ext4_add_entry : List ℕ → ℕ → ℕ → Dir → ℤ × Dir
  ext4_add_entry fname ino mode d =
      let (ended, blocks) = add_loop fname ino mode 0 d.blocks in
      if is_nonzero setup_filename
      then (setup_filename, d)
      else finish_add fname ino mode ended (record d { blocks = blocks })
