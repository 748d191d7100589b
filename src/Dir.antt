-- ===== src/Dir.antt =====
-- A directory of several blocks in linux-6.8/fs/ext4/namei.c, and the search for a name. As in
-- DirBlock the directory is neither encrypted nor casefolded and has no inline data; the file
-- system is without the feature dir_index, so no directory has a hash tree. The caller holds the
-- lock of the directory, so it does not grow during a search.
pub mod Find
pub mod Add
pub mod Put
pub mod Names
pub mod Success
pub mod Lookup
pub mod Roundtrip
pub mod Twice
pub mod Link
pub mod Calls
use linux_evfs.Base.{
  ℕ, zero, suc, ◌+◌, ◌-◌, ◌*◌, ◌/◌, min, Bool, true, false, not, ◌&&◌, ◌||◌, Option, none, some,
  List, [], ◌∷◌, ◌++◌, length, get_or, ltb, leb, ◌==◌, if◌then◌else◌,
}
use linux_evfs.Base.Int.{ℤ, pos, negsuc, is_neg, is_nonzero}
use linux_evfs.Base.Errno
use linux_evfs.Dentry.{DirEntry, ext4_name_len}
use linux_evfs.DirBlock.{
  DirKernel, SearchResult, not_found, search_failed, search_found, dest, enospc, efscorrupted,
  csum_size, place_entry, add_dirent_to_buf, ext4_search_dir,
}

-- `EFSBADCRC`, which is `EBADMSG`.
abbrev pub efsbadcrc : ℤ
efsbadcrc = negsuc 73

-- `NAMEI_RA_SIZE`
abbrev pub namei_ra_size : ℕ
namei_ra_size = 8

-- The entries of a logical block, or nothing where the directory has a hole.
abbrev pub Block : Type 0
Block = Option (List DirEntry)

-- The size of a directory is that of its blocks. `i_dir_start_lookup` is where the last name was
-- found.
pub record Dir : Type 0 where
  pub blocks : List Block
  pub i_dir_start_lookup : ℕ

-- The answers to the calls. `ext4_bread_batch` reads buffers from a block on, `ext4_read_dirblock`
-- reads one, and `ext4_bread` makes one, each with an error or without; `block_verified` is what
-- `buffer_verified` or `ext4_dirblock_csum_verify` says. The last two are the calls of
-- `ext4_append`.
pub record WalkKernel : Type 0 where
  pub s_blocksize : ℕ
  pub s_max_dir_size_kb : ℕ
  pub setup_filename : ℤ
  pub ext4_bread_batch : ℕ → ℕ → ℤ
  pub buffer_uptodate : ℕ → Bool
  pub block_verified : ℕ → Bool
  pub ext4_read_dirblock : ℕ → Option ℕ
  pub ext4_bread : ℕ → Option ℕ
  pub ext4_map_blocks : ℕ → ℤ
  pub append_mark_dirty : ℤ
  pub append_write_access : ℤ

-- `NULL`, an error pointer, or the buffer of a block with an entry at an offset in it.
pub data FindResult : Type 0 where
  find_none : FindResult
  find_error : ℤ → FindResult
  find_found : ℕ → ℕ → DirEntry → FindResult

-- `.` and `..`, and the two bytes of `.` with its end.
unfoldable pub is_dot_name : List ℕ → Bool
is_dot_name [] = false
is_dot_name (c ∷ []) = c == 46
is_dot_name (c ∷ d ∷ []) = c == 46 && (d == 46 || d == 0)
is_dot_name (c ∷ d ∷ e ∷ s) = false

-- What the loop, or a second loop if the flag is set, ends the function with.
unfoldable pub restart :
    Bool → Option (Option FindResult) → Option (Option FindResult) → Option FindResult
restart grown none rest = none
restart grown (some (some r)) rest = some r
restart false (some none) rest = some find_none
restart true (some none) none = none
restart true (some none) (some none) = some find_none
restart true (some none) (some (some r)) = some r

-- `EXT4_I(dir)->i_dir_start_lookup = block`
unfoldable pub note_found : FindResult → Dir → Dir
note_found find_none d = d
note_found (find_error err) d = d
note_found (find_found block offset e) d = record d { i_dir_start_lookup = block }

-- `i` from the search of a block.
unfoldable pub after_search : ℕ → SearchResult → Option FindResult
after_search block not_found = none
after_search block search_failed = some find_none
after_search block (search_found offset e) = some (find_found block offset e)

-- `ext4_find_entry` without a file name to look for: `NULL` for `-ENOENT`, else the error.
unfoldable pub setup_failed : ℤ → FindResult
setup_failed (pos n) = find_error (pos n)
setup_failed (negsuc n) = if n == 1 then find_none else find_error (negsuc n)

module _ (k : DirKernel) (w : WalkKernel) where
  open w use {s_blocksize, setup_filename, ext4_bread_batch, buffer_uptodate, block_verified}

  -- The offset in the directory that the source passes is only printed.
  unfoldable pub search_dirblock : List ℕ → List DirEntry → SearchResult
  search_dirblock fname es = ext4_search_dir k s_blocksize fname es 0

  -- One round of the search, with the buffer of a block: what it returns, or nothing if it goes on.
  unfoldable pub visit_block : List ℕ → ℕ → Block → Option FindResult
  visit_block fname block none = none
  visit_block fname block (some es) =
      if not (buffer_uptodate block)
      then some (find_error Errno.eio)
      else if not (block_verified block)
      then some (find_error efsbadcrc)
      else after_search block (search_dirblock fname es)

  unfoldable pub visit : List Block → List ℕ → ℕ → Option FindResult
  visit blocks fname block = visit_block fname block (get_or blocks block none)

  -- The number of buffers that are read at once.
  unfoldable pub ra_max : ℕ → ℕ → ℕ → ℕ
  ra_max start nblocks block =
      min (if ltb block start then start - block else nblocks - block) namei_ra_size

  -- The `do` loop on fuel, with `left` buffers read ahead; `none` means that the fuel ran out, and
  -- `some none` that the loop came back to its start.
  unfoldable pub find_loop : List Block → List ℕ → ℕ → ℕ → ℕ → ℕ → ℕ → Option (Option FindResult)
  find_loop blocks fname start nblocks zero block left = none
  find_loop blocks fname start nblocks (suc n) block left =
      let refill = left == 0 in
      let count = if refill then ra_max start nblocks block else left in
      let next = if leb nblocks (block + 1) then 0 else block + 1 in
      let more = find_loop blocks fname start nblocks n next (count - 1) in
      if refill && is_nonzero (ext4_bread_batch block count)
      then some (some (find_error (ext4_bread_batch block count)))
      else elim (visit blocks fname block) [
        | some r ↦ some (some r)
        | none ↦ if next == start then some none else more
      ]

  -- The search of the blocks up to `nblocks`, and `restart:` with those behind them. No buffer is
  -- left over then, as a batch ends where the loop does.
  unfoldable pub search_blocks : ℕ → List Block → List ℕ → ℕ → ℕ → Option FindResult
  search_blocks fuel blocks fname start nblocks =
      restart (ltb nblocks (length blocks)) (find_loop blocks fname start nblocks fuel start 0)
        (find_loop blocks fname 0 (length blocks) fuel nblocks 0)

  -- `__ext4_find_entry`
  unfoldable pub find_entry : ℕ → List ℕ → Dir → Option (FindResult × Dir)
  find_entry fuel fname d =
      let nblocks = length d.blocks in
      let start = if leb nblocks d.i_dir_start_lookup then 0 else d.i_dir_start_lookup in
      if ltb ext4_name_len (length fname)
      then some (find_none, d)
      else if not (is_dot_name fname) && nblocks == 0
      then some (find_none, d)
      else elim (if is_dot_name fname
          then search_blocks fuel d.blocks fname 0 1
          else search_blocks fuel d.blocks fname start nblocks) [
            | none ↦ none
            | some r ↦ some (r, note_found r d)
          ]

  unfoldable pub ext4_find_entry : ℕ → List ℕ → Dir → Option (FindResult × Dir)
  ext4_find_entry fuel fname d =
      if is_nonzero setup_filename
      then some (setup_failed setup_filename, d)
      else find_entry fuel fname d
