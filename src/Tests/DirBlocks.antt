-- ===== src/Tests/DirBlocks.antt =====
-- Witnesses of the theorems on the entries of a block of a directory.
use linux_evfs.Base.{ℕ, ◌≡◌, ◌⊎◌, refl, true, false, List, [], ◌∷◌, arith, length, ◌==◌}
use linux_evfs.Base.Int.{pos, is_nonzero}
use linux_evfs.Dentry.{DirEntry}
use linux_evfs.DirBlock.{DirKernel, ext4_dir_rec_len, add_dirent_to_buf}
use linux_evfs.DirBlock.Lookup.{Checks, IsFound, add_dirent_to_buf-ext4_search_dir}

abbrev pub kernel : DirKernel
kernel = record {
  ext4_check_dir_entry = λ s o e. e.rec_len == 0;
  fscrypt_match_name = λ fname name name_len. name_len == length fname;
  ext4_hash_in_dirent = false;
  de_type = λ mode. 1;
  ext4_has_metadata_csum = false;
  ext4_journal_get_write_access = pos 0;
  ext4_mark_inode_dirty = pos 0;
  ext4_handle_dirty_dirblock = pos 0;
}

-- Two entries with names of one and of two letters, in a block of 1024 bytes.
abbrev pub first : DirEntry
first = record { inode = 12; rec_len = 12; name_len = 1; file_type = 1; name = 97 ∷ [] }

abbrev pub second : DirEntry
second = record { inode = 13; rec_len = 1012; name_len = 2; file_type = 1; name = 97 ∷ 98 ∷ [] }

abbrev pub entries : List DirEntry
entries = first ∷ second ∷ []

abbrev pub name : List ℕ
name = 97 ∷ 98 ∷ 99 ∷ []

pub checks : Checks kernel 1024 100 name
unfolding ext4_dir_rec_len
checks = record {
  positive = λ o e h. ground (arith, h);
  accepts = λ o o' e e' h le same aligned long named exists. ground (arith, long);
  matches = refl;
}

add_dirent_to_buf-ext4_search_dir_example :
    let r = add_dirent_to_buf kernel 1024 name 14 0 entries in
    ((is_nonzero r.0 ≡ true) × (r.1 ≡ entries))
    ⊎ IsFound kernel 1024 100 14 0 name checks (omega arith) (omega arith) (omega arith) r.1
add_dirent_to_buf-ext4_search_dir_example =
    add_dirent_to_buf-ext4_search_dir kernel 1024 100 14 0 name checks (omega arith) (omega arith)
      (omega arith) entries (omega arith)
