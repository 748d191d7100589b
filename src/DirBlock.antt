-- ===== src/DirBlock.antt =====
-- The entries of a block of a directory in linux-6.8/fs/ext4/namei.c, which `__ext4_link` and
-- `__ext4_unlink` change for evfs: search, insertion and deletion. The directory is neither
-- encrypted nor casefolded and has no inline data, and pages have less than 65536 bytes.
pub mod Lookup
pub mod Insert
pub mod Delete
use linux_evfs.Base.{
  ℕ, zero, suc, ◌+◌, ◌-◌, ◌*◌, ◌/◌, ◌%◌, ◌^◌, Bool, true, false, not, ◌&&◌, Option, none, some,
  List, [], ◌∷◌, ◌++◌, length, ltb, leb, ◌==◌, if◌then◌else◌,
}
use linux_evfs.Base.Int.{ℤ, pos, negsuc, is_nonzero}
use linux_evfs.Base.Errno
use linux_evfs.Dentry.{DirEntry}

abbrev pub enospc : ℤ
enospc = negsuc 27

abbrev pub efscorrupted : ℤ
efscorrupted = negsuc 116

-- `ext4_check_dir_entry` (dir.c) on a buffer of a size and the entry at an offset: whether it is bad. Then
-- `fscrypt_match_name`, the flag of `ext4_hash_in_dirent`, the type that `ext4_set_de_type` writes
-- for a mode, and the results of the calls of the journal.
pub record DirKernel : Type 0 where
  pub ext4_check_dir_entry : ℕ → ℕ → DirEntry → Bool
  pub fscrypt_match_name : List ℕ → List ℕ → ℕ → Bool
  pub ext4_hash_in_dirent : Bool
  pub de_type : ℕ → ℕ
  pub ext4_has_metadata_csum : Bool
  pub ext4_journal_get_write_access : ℤ
  pub ext4_mark_inode_dirty : ℤ
  pub ext4_handle_dirty_dirblock : ℤ

-- What `ext4_find_dest_de` ends with: an error, or an entry with those before and behind it.
pub data Dest : Type 0 where
  dest_error : ℤ → Dest
  dest : List DirEntry → DirEntry → List DirEntry → Dest

abbrev pub dest_cons : DirEntry → Dest → Dest
dest_cons e (dest_error err) = dest_error err
dest_cons e (dest before de after) = dest (e ∷ before) de after

-- What `ext4_search_dir` ends with: 0, -1, or 1 with the entry and its offset.
pub data SearchResult : Type 0 where
  not_found : SearchResult
  search_failed : SearchResult
  search_found : ℕ → DirEntry → SearchResult

module _ (k : DirKernel) where
  open k use {
    ext4_check_dir_entry, fscrypt_match_name, ext4_hash_in_dirent, de_type, ext4_has_metadata_csum,
    ext4_journal_get_write_access, ext4_mark_inode_dirty, ext4_handle_dirty_dirblock,
  }

  -- `(name_len + 8 + EXT4_DIR_ROUND) & ~EXT4_DIR_ROUND`, with the hash if there is one.
  unfoldable pub ext4_dir_rec_len : ℕ → ℕ
  ext4_dir_rec_len name_len = (name_len + 8 + 3 + (if ext4_hash_in_dirent then 8 else 0)) / 4 * 4

  unfoldable pub ext4_match : List ℕ → DirEntry → Bool
  ext4_match fname de =
      if de.inode == 0 then false else fscrypt_match_name fname de.name de.name_len

  -- The bytes of an entry that a new entry can take.
  unfoldable pub free_len : DirEntry → ℕ
  free_len de =
      if not (de.inode == 0) then de.rec_len - ext4_dir_rec_len de.name_len else de.rec_len

  -- `ext4_find_dest_de` from an entry on. The list ends with the buffer.
  unfoldable pub find_dest_loop : ℕ → ℕ → List ℕ → List DirEntry → ℕ → Dest
  find_dest_loop buf_size reclen fname [] offset = dest_error enospc
  find_dest_loop buf_size reclen fname (de ∷ rest) offset =
      let next = find_dest_loop buf_size reclen fname rest (offset + de.rec_len) in
      if ltb buf_size (offset + reclen)
      then dest_error enospc
      else (if ext4_check_dir_entry buf_size offset de
          then dest_error efscorrupted
          else (if ext4_match fname de
              then dest_error Errno.eexist
              else (if leb reclen (free_len de) then dest [] de rest else dest_cons de next)))

  unfoldable pub ext4_find_dest_de : ℕ → List ℕ → List DirEntry → Dest
  ext4_find_dest_de buf_size fname es =
      find_dest_loop buf_size (ext4_dir_rec_len (length fname)) fname es 0

  -- The entry that is written, in the bytes that it gets.
  abbrev pub new_entry : ℕ → List ℕ → ℕ → ℕ → DirEntry
  new_entry rec_len fname ino mode = record {
    inode = ino % 2 ^ 32;
    rec_len = rec_len;
    name_len = length fname;
    file_type = de_type mode;
    name = fname;
  }

  -- What stands in the place of `de` afterwards.
  unfoldable pub ext4_insert_dentry : List ℕ → ℕ → ℕ → DirEntry → List DirEntry
  ext4_insert_dentry fname ino mode de =
      let nlen = ext4_dir_rec_len de.name_len in
      let rlen = de.rec_len in
      if not (de.inode == 0)
      then record de { rec_len = nlen } ∷ new_entry (rlen - nlen) fname ino mode ∷ []
      else new_entry rlen fname ino mode ∷ []

  -- The bytes at the end of a block that `struct ext4_dir_entry_tail` takes.
  unfoldable pub csum_size : ℕ
  csum_size = if ext4_has_metadata_csum then 12 else 0

  -- `add_dirent_to_buf` behind the search for a place, without the times and the version of the directory.
  unfoldable pub place_entry : List ℕ → ℕ → ℕ → List DirEntry → Dest → ℤ × List DirEntry
  place_entry fname ino mode es (dest_error err) = (err, es)
  place_entry fname ino mode es (dest before de after) =
      if is_nonzero ext4_journal_get_write_access then (ext4_journal_get_write_access, es) else (
        if is_nonzero ext4_handle_dirty_dirblock
            then ext4_handle_dirty_dirblock
            else ext4_mark_inode_dirty,
        before ++ ext4_insert_dentry fname ino mode de ++ after,
      )

  -- `add_dirent_to_buf` without a given entry.
  unfoldable pub add_dirent_to_buf : ℕ → List ℕ → ℕ → ℕ → List DirEntry → ℤ × List DirEntry
  add_dirent_to_buf blocksize fname ino mode es =
      place_entry fname ino mode es (ext4_find_dest_de (blocksize - csum_size) fname es)

  -- `ext4_generic_delete_entry` from an entry on, with `pde` before it.
  unfoldable pub delete_loop : ℕ → ℕ → ℕ → DirEntry → List DirEntry → ℕ → ℤ × List DirEntry
  delete_loop buf_size tail de_del pde [] i = (Errno.enoent, pde ∷ [])
  delete_loop buf_size tail de_del pde (de ∷ rest) i =
      let next = delete_loop buf_size tail de_del de rest (i + de.rec_len) in
      if not (ltb i (buf_size - tail))
      then (Errno.enoent, pde ∷ de ∷ rest)
      else (if ext4_check_dir_entry buf_size i de
          then (efscorrupted, pde ∷ de ∷ rest)
          else (if i == de_del
              then (pos 0, record pde { rec_len = pde.rec_len + de.rec_len } ∷ rest)
              else (next.0, pde ∷ next.1)))

  -- The first entry of a block is wiped but for its length.
  abbrev pub wiped : DirEntry → DirEntry
  wiped de = record { inode = 0; rec_len = de.rec_len; name_len = 0; file_type = 0; name = [] }

  -- `de_del` is the offset of the entry.
  unfoldable pub ext4_generic_delete_entry : ℕ → ℕ → ℕ → List DirEntry → ℤ × List DirEntry
  ext4_generic_delete_entry buf_size tail de_del [] = (Errno.enoent, [])
  ext4_generic_delete_entry buf_size tail de_del (de ∷ rest) =
      if not (ltb 0 (buf_size - tail))
      then (Errno.enoent, de ∷ rest)
      else (if ext4_check_dir_entry buf_size 0 de
          then (efscorrupted, de ∷ rest)
          else (if 0 == de_del
              then (pos 0, wiped de ∷ rest)
              else delete_loop buf_size tail de_del de rest de.rec_len))

  -- `ext4_delete_entry`
  unfoldable pub ext4_delete_entry : ℕ → ℕ → List DirEntry → ℤ × List DirEntry
  ext4_delete_entry blocksize de_del es =
      if is_nonzero ext4_journal_get_write_access
      then (ext4_journal_get_write_access, es)
      else (let (err, es') = ext4_generic_delete_entry blocksize csum_size de_del es in
          if is_nonzero err then (err, es') else (ext4_handle_dirty_dirblock, es'))

  -- `ext4_search_dir` from an entry on.
  unfoldable pub ext4_search_dir : ℕ → List ℕ → List DirEntry → ℕ → SearchResult
  ext4_search_dir buf_size fname [] offset = not_found
  ext4_search_dir buf_size fname (de ∷ rest) offset =
      let next = ext4_search_dir buf_size fname rest (offset + de.rec_len) in
      if not (ltb (offset + 8) buf_size)
      then not_found
      else (if leb (offset + 8 + de.name_len) buf_size && ext4_match fname de
          then if ext4_check_dir_entry buf_size offset de
            then search_failed
            else search_found offset de
          else (if de.rec_len == 0 then search_failed else next))
