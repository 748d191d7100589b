-- ===== src/Tests/Dirs.antt =====
-- Witnesses of the theorems on directories of several blocks.
use linux_evfs.Base.{ℕ, zero, suc, ◌≡◌, ◌⊎◌, refl, true, false, none, some, [], ◌∷◌, arith}
use linux_evfs.Base.Int.{pos, is_nonzero}
use linux_evfs.Dentry.{DirEntry}
use linux_evfs.DirBlock.{csum_size, ext4_dir_rec_len, ext4_match, free_len, ext4_search_dir}
use linux_evfs.Dir.{
  Dir, WalkKernel, FindResult, is_dot_name, visit, visit_block, after_search, search_dirblock,
  find_entry, note_found,
}
use linux_evfs.Dir.Add.{is_enospc, empty_entry, ext4_add_entry}
use linux_evfs.Dir.Find.{scan, found, lookup_order, find_entry-scan}
use linux_evfs.Dir.Put.{names}
use linux_evfs.Dir.Names.{Gains, ext4_add_entry-names}
use linux_evfs.Dir.Success.{IsHealthy, ext4_add_entry-succeeds}
use linux_evfs.Dir.Roundtrip.{IsFoundIn, ext4_add_entry-find_entry}
use linux_evfs.Dir.Twice.{HasRoom, ext4_add_entry-twice}
use linux_evfs.Tests.DirBlocks.{kernel, second, entries, name, checks}

abbrev pub walk : WalkKernel
walk = record {
  s_blocksize = 1024;
  s_max_dir_size_kb = 0;
  setup_filename = pos 0;
  ext4_bread_batch = λ b n. pos 0;
  buffer_uptodate = λ b. true;
  block_verified = λ b. true;
  ext4_read_dirblock = λ b. none;
  ext4_bread = λ b. none;
  ext4_map_blocks = λ b. pos 0;
  append_mark_dirty = pos 0;
  append_write_access = pos 0;
}

-- Two entries, a hole and the two entries again. The last name was found in the last block.
abbrev pub dir : Dir
dir = record { blocks = some entries ∷ none ∷ some entries ∷ []; i_dir_start_lookup = 2 }

find_entry-scan_example :
    let r = found (scan kernel walk dir.blocks name (lookup_order kernel walk name dir)) in
    find_entry kernel walk 3 name dir ≡ some (r, note_found r dir)
find_entry-scan_example =
    find_entry-scan kernel walk 3 name dir (λ b n. refl) (omega arith) (omega arith) (omega arith)

-- The search for a name of the second entry begins in the last block.
find_second :
    found (scan kernel walk dir.blocks (second.name) (lookup_order kernel walk (second.name) dir))
    ≡ FindResult.find_found 2 12 second
unfolding scan visit visit_block after_search search_dirblock ext4_search_dir ext4_match is_dot_name
find_second = refl

ext4_add_entry-names_example :
    let r = ext4_add_entry kernel walk name 14 0 dir in
    ((is_nonzero r.0 ≡ true) × (names r.1.blocks ≡ names dir.blocks))
    ⊎ ((is_enospc r.0 ≡ false) × Gains name 14 (names dir.blocks) (names r.1.blocks))
unfolding is_enospc
ext4_add_entry-names_example =
    ext4_add_entry-names kernel walk name 14 0 (omega arith) (omega arith) (omega arith) refl refl
      dir

healthy : IsHealthy kernel walk
healthy = record {
  names = refl;
  reads = λ b. refl;
  makes = λ b. refl;
  unmapped = λ b. refl;
  unlimited = refl;
  grows = refl;
  appends = refl;
  grants = refl;
  marks = refl;
  dirties = refl;
}

ext4_add_entry-succeeds_example :
    let r = ext4_add_entry kernel walk name 14 0 dir in
    (r.0 ≡ pos 0) × Gains name 14 (names dir.blocks) (names r.1.blocks)
unfolding ext4_match
ext4_add_entry-succeeds_example =
    ext4_add_entry-succeeds kernel walk name 14 0 healthy (omega arith) (omega arith) (omega arith)
      dir ((refl, refl, (refl, refl, refl)), ((refl, refl, (refl, refl, refl)), refl))

absent : (b : ℕ) → visit kernel walk dir.blocks name b ≡ none
unfolding visit visit_block after_search search_dirblock ext4_search_dir ext4_match
absent zero = refl
absent (suc zero) = refl
absent (suc (suc zero)) = refl
absent (suc (suc (suc b))) = refl

ext4_add_entry-find_entry_example :
    let r = ext4_add_entry kernel walk name 14 0 dir in
    ((is_nonzero r.0 ≡ true) × (names r.1.blocks ≡ names dir.blocks))
    ⊎ IsFoundIn kernel walk 100 14 0 name checks
        (omega arith)
        (omega arith)
        (omega arith)
        (omega arith)
        (omega arith)
        r.1
unfolding is_enospc empty_entry csum_size
ext4_add_entry-find_entry_example =
    ext4_add_entry-find_entry kernel walk 100 14 0 name checks (omega arith) (omega arith)
      (omega arith) (omega arith) (omega arith)
      (record { reads = λ b n. refl; uptodate = λ b. refl; verified = λ b. refl }) refl refl refl
      dir (omega arith, (omega arith, refl)) absent

-- An entry with room, before one that has the name already.
abbrev roomy : DirEntry
roomy = record { inode = 12; rec_len = 512; name_len = 1; file_type = 1; name = 97 ∷ [] }

abbrev same_name : DirEntry
same_name = record { inode = 13; rec_len = 512; name_len = 3; file_type = 1; name = name }

abbrev twice : Dir
twice = record { blocks = some (roomy ∷ same_name ∷ []) ∷ []; i_dir_start_lookup = 0 }

roomy-HasRoom : HasRoom kernel walk name roomy
unfolding ext4_match free_len ext4_dir_rec_len csum_size
roomy-HasRoom = record { good = refl; other = refl; room = omega arith; inside = omega arith }

ext4_add_entry-twice_example :
    let r = ext4_add_entry kernel walk name 14 0 twice in
    (r.0 ≡ pos 0) × Gains name 14 (names twice.blocks) (names r.1.blocks)
ext4_add_entry-twice_example =
    ext4_add_entry-twice kernel walk name 14 0 healthy roomy (same_name ∷ []) roomy-HasRoom
      (omega arith) (omega arith) (omega arith) [] 0
