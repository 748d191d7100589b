-- ===== src/Tests/Links.antt =====
-- Witnesses of the theorems on `__ext4_link` and `__ext4_unlink`, and on the calls of them.
use linux_evfs.Base.{
  List, inl, inr, Bool, ◌&&◌, ◌==◌, Bool-cases, ℕ, ◌≡◌, refl, inr, true, false, Option, none, some,
  [], ◌∷◌, arith, ltb, le→ltb,
}
use linux_evfs.Base.Int.{ℤ, pos}
use linux_evfs.Samples.{tracker}
use linux_evfs.Ioctl.{DeAddIn, DeDeleteIn}
use linux_evfs.Dentry.{Held, AddKernel}
use linux_evfs.Dentry.Delete.{DeleteKernel, DeleteState}
use linux_evfs.Dir.Add.{is_enospc}
use linux_evfs.Dir.Link.{LinkState, LinkKernel, ext4_link, ext4_unlink}
use linux_evfs.Dir.Link.Outcome.{IsSound}
use linux_evfs.Dir.Calls.{c_string}
use mathlib.Core.List.{Perm}
use linux_evfs.Dir.Link.Back.{ext4_unlink-ext4_link}
use linux_evfs.Dir.Put.{names}
use linux_evfs.Dentry.{DirEntry}
use linux_evfs.DirBlock.{
  add_dirent_to_buf, place_entry, ext4_find_dest_de, find_dest_loop, ext4_dir_rec_len, ext4_match,
  free_len, ext4_insert_dentry, csum_size, ext4_search_dir, ext4_delete_entry,
  ext4_generic_delete_entry, delete_loop,
}
use linux_evfs.Dir.{
  ext4_find_entry, find_entry, is_dot_name, search_blocks, restart, find_loop, ra_max, visit,
  visit_block, after_search, search_dirblock, note_found,
}
use linux_evfs.Dir.Add.{ext4_add_entry, finish_add, add_loop, try_block}
use linux_evfs.Dir.Link.{
  retry_link, no_handle, link_attempt, ext4_inc_count, inc_nlink, after_add, unlink_result,
  unlink_found, remove_entry, drop_link, out_handle, orphan_add, drop_nlink, entries_of,
}
use linux_evfs.Tests.DirBlocks.{kernel, name, first, second, entries}
use linux_evfs.Tests.Dirs.{walk, dir}

-- Three attempts are granted after the first.
abbrev calls : ℕ → LinkKernel
calls a = record {
  block = kernel;
  walk = walk;
  ext4_journal_start = none;
  dir_dirty = pos 0;
  inode_dirty = pos 0;
  fc_replay = false;
  ext4_should_retry_alloc = ltb a 3;
  ext4_orphan_add = true;
}

abbrev state : LinkState
state = record { dir = dir; i_nlink = 1; i_count = 1; is_orphan = false; handles = 0 }

-- A file system with one directory and one inode.
abbrev or_same : LinkState → Option (ℤ × LinkState) → ℤ × LinkState
or_same s none = (pos 0, s)
or_same s (some r) = r

abbrev add_kernel : AddKernel LinkState
add_kernel = record {
  iget_error = λ n. none;
  i_mode = λ n. 0o40755;
  d_find_any_alias = λ n. true;
  d_alloc = λ s. true;
  dquot_initialize = pos 0;
  ext4_link = λ p c s x. or_same x (ext4_link calls 0 4 (c_string s) c 0o40755 x);
}

abbrev add_args : DeAddIn
add_args = record { parent_ino_num = 2; child_ino_num = 14; name = 97 ∷ 98 ∷ 99 ∷ 0 ∷ [] }

abbrev nothing_held : Held
nothing_held = record {
  dir_refs = 0;
  dir_locks = 0;
  child_refs = 0;
  child_locks = 0;
  parent_dentries = 0;
  child_dentries = 0;
  shared_locks = 0;
  buffers = 0;
}

abbrev delete_kernel : DeleteKernel LinkState
delete_kernel = record {
  iget_error = λ n. none;
  i_mode = λ n. 0o40755;
  d_find_any_alias = λ n. true;
  ext4_find_entry = λ p s. inr 13;
  d_alloc = λ s. true;
  quota_dir = pos 0;
  quota_child = pos 0;
  ext4_unlink = λ p s c x. or_same x (ext4_unlink (calls 0) 3 (c_string s) c x);
}

abbrev delete_args : DeDeleteIn
delete_args = record { dir_ino_num = 2; name = 97 ∷ 98 ∷ 0 ∷ [] }

abbrev delete_state : DeleteState ℕ LinkState
delete_state = record { fs = state; tracker = some tracker; held = nothing_held }

-- Names that match only if they are equal.
abbrev same_name : List ℕ → List ℕ → Bool
same_name [] [] = true
same_name [] (d ∷ t) = false
same_name (c ∷ s) [] = false
same_name (c ∷ s) (d ∷ t) = c == d && same_name s t

same_name-eq : (s t : List ℕ) → same_name s t ≡ true → t ≡ s
same_name-eq [] [] h = refl
same_name-eq [] (d ∷ t) h = absurd (ground (arith, h))
same_name-eq (c ∷ s) [] h = absurd (ground (arith, h))
same_name-eq (c ∷ s) (d ∷ t) h =
    let head : d ≡ c = ground (arith, h) in
    let rest : same_name s t ≡ true = ground (arith, h) in rw (head, same_name-eq s t rest) refl

abbrev exact_calls : ℕ → LinkKernel
exact_calls a = record (calls a) {
  block = record kernel { fscrypt_match_name = λ fname n len. same_name fname n };
}

exact_calls-IsSound : (a : ℕ) → IsSound (exact_calls a)
unfolding is_enospc
exact_calls-IsSound a = record { large = omega arith; dirblock = refl; dir = refl; inode = refl }

exact : (e : DirEntry) → ext4_match (exact_calls 0).block name e ≡ true → e.name ≡ name
unfolding ext4_match
exact e h = elim (Bool-cases (e.inode == 0)) [
  | inl unused ↦ absurd (ground (arith, h, unused))
  | inr used ↦ same_name-eq name e.name (rw used at h)
]

-- The name is put behind the second entry of the first block.
abbrev linked_state : LinkState
linked_state = record {
  dir = record {
    blocks =
        some (
          first
          ∷ record second { rec_len = 12 }
          ∷ record { inode = 14; rec_len = 1000; name_len = 3; file_type = 1; name = name }
          ∷ [])
        ∷ none
        ∷ some entries
        ∷ [];
    i_dir_start_lookup = 2;
  };
  i_nlink = 2;
  i_count = 2;
  is_orphan = false;
  handles = 0;
}

abbrev unlinked_state : LinkState
unlinked_state = record state { dir = record dir { i_dir_start_lookup = 0 }; i_count = 2 }

link_name : ext4_link exact_calls 0 4 name 14 0 state ≡ some (pos 0, linked_state)
unfolding ext4_link retry_link no_handle link_attempt ext4_inc_count inc_nlink after_add
    ext4_add_entry finish_add add_loop try_block is_enospc add_dirent_to_buf place_entry
    ext4_find_dest_de find_dest_loop ext4_dir_rec_len ext4_match free_len ext4_insert_dentry
    csum_size
link_name = refl

unlink_name : ext4_unlink (exact_calls 0) 3 name 14 linked_state ≡ some (pos 0, unlinked_state)
unfolding ext4_unlink unlink_result unlink_found no_handle remove_entry drop_link out_handle
    orphan_add drop_nlink entries_of ext4_find_entry find_entry is_dot_name search_blocks restart
    find_loop ra_max visit visit_block after_search search_dirblock note_found ext4_search_dir
    ext4_match ext4_delete_entry ext4_generic_delete_entry delete_loop csum_size
unlink_name = refl

ext4_unlink-ext4_link_example :
    Perm (names unlinked_state.dir.blocks) (names state.dir.blocks)
    × (unlinked_state.i_nlink ≡ state.i_nlink)
ext4_unlink-ext4_link_example =
    ext4_unlink-ext4_link exact_calls (exact_calls 0) name 14 0 state linked_state unlinked_state 3
      3 exact_calls-IsSound (λ a le. le→ltb a 3 le) (omega arith) (omega arith) (omega arith)
      (omega arith) (λ b m. refl) refl exact (omega arith) (omega arith)
      (
        (omega arith, (omega arith, (omega arith, refl))),
        ((omega arith, (omega arith, refl)), refl),
      )
      link_name unlink_name
