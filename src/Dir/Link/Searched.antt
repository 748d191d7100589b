-- ===== src/Dir/Link/Searched.antt =====
-- What `ext4_find_entry` (namei.c) returns: an error, nothing, or an entry of a block.
use linux_evfs.Base.{
  ℕ, zero, suc, ◌≤◌, ◌≡◌, refl, ap, inl, inr, true, Option, none, some, List, [], ◌∷◌, arith,
  length, get_or, ltb, ◌==◌, Bool-cases, ltb→le, Option-cases,
}
use linux_evfs.Base.Int.{ℤ, pos, negsuc, is_nonzero}
use linux_evfs.Dentry.{DirEntry}
use linux_evfs.DirBlock.{DirKernel, SearchResult, not_found, search_failed, search_found}
use linux_evfs.Dir.{
  Dir, WalkKernel, Block, FindResult, find_none, find_error, find_found, after_search,
  search_dirblock, visit_block, visit, note_found, setup_failed, find_entry, ext4_find_entry,
}
use linux_evfs.Dir.Find.{scan, scan-go, scan-stop, found, lookup_order, find_entry-scan}
use linux_evfs.Dir.Link.{entries_of}
use linux_evfs.Dir.Link.Removed.{AllLong, StandsAt, IsSearched, ext4_search_dir-IsSearched}

-- The entries of all blocks have bytes.
abbrev pub BlocksLong : List Block → Type 0
BlocksLong [] = ◌≡◌ {A = ℕ} 0 0
BlocksLong (none ∷ bs) = BlocksLong bs
BlocksLong (some es ∷ bs) = AllLong es × BlocksLong bs

pub BlocksLong-get_or :
    (bs : List Block) (b : ℕ) (es : List DirEntry)
    → BlocksLong bs
    → get_or bs b none ≡ some es
    → AllLong es
unfolding entries_of
BlocksLong-get_or [] b es long here = absurd (ground (arith, here))
BlocksLong-get_or (none ∷ bs) zero es long here = absurd (ground (arith, here))
BlocksLong-get_or (none ∷ bs) (suc b) es long here = BlocksLong-get_or bs b es long here
BlocksLong-get_or (some x ∷ bs) zero es long here =
    let same : x ≡ es = ap entries_of here in rw same at (long.0)
BlocksLong-get_or (some x ∷ bs) (suc b) es long here = BlocksLong-get_or bs b es long.1 here

module _ (k : DirKernel) (w : WalkKernel) (blocks : List Block) (fname : List ℕ) where
  -- What a search returns: an error number, or an entry of a block.
  abbrev pub IsResult : FindResult → Type 0
  IsResult find_none = fname ≡ fname
  IsResult (find_error err) = is_nonzero err ≡ true
  IsResult (find_found b offset e) =
      (es : List DirEntry) × (get_or blocks b none ≡ some es)
      × StandsAt k w.s_blocksize fname es 0 offset e

  abbrev IsVisit : Option FindResult → Type 0
  IsVisit none = fname ≡ fname
  IsVisit (some r) = IsResult r

  after_search-IsVisit :
      (b : ℕ) (es : List DirEntry) (r : SearchResult)
      → get_or blocks b none ≡ some es
      → IsSearched k w.s_blocksize fname es 0 r
      → IsVisit (after_search b r)
  unfolding after_search
  after_search-IsVisit b es not_found here h = refl
  after_search-IsVisit b es search_failed here h = refl
  after_search-IsVisit b es (search_found at e) here h = (es, here, h)

  visit_block-IsVisit :
      (b : ℕ) (o : Block) → get_or blocks b none ≡ o → IsVisit (visit_block k w fname b o)
  unfolding visit_block search_dirblock
  visit_block-IsVisit b none here = refl
  visit_block-IsVisit b (some es) here = elim (Bool-cases (w.buffer_uptodate b)) [
    | inr stale ↦ rw stale refl
    | inl uptodate ↦ elim (Bool-cases (w.block_verified b)) [
      | inr wrong ↦ rw (uptodate, wrong) refl
      | inl verified ↦
          rw (uptodate, verified)
            (after_search-IsVisit b es _ here
              (ext4_search_dir-IsSearched k w.s_blocksize fname es 0))
    ]
  ]

  visit-IsVisit : (b : ℕ) → IsVisit (visit k w blocks fname b)
  unfolding visit
  visit-IsVisit b = visit_block-IsVisit b (get_or blocks b none) refl

  scan-IsVisit : (bs : List ℕ) → IsVisit (scan k w blocks fname bs)
  unfolding scan
  scan-IsVisit [] = refl
  scan-IsVisit (b ∷ bs) = elim (Option-cases (visit k w blocks fname b)) [
    | inl on ↦ rw (scan-go k w blocks fname b bs on) (scan-IsVisit bs)
    | inr (r, here) ↦ rw (scan-stop k w blocks fname b bs r here) (rw here at (visit-IsVisit b))
  ]

  found-IsResult : (o : Option FindResult) → IsVisit o → IsResult (found o)
  found-IsResult none h = refl
  found-IsResult (some r) h = h

module _ (k : DirKernel) (w : WalkKernel) (fname : List ℕ) where
  -- `ext4_find_entry` ends.
  pub record IsSearchedFor (o : Option (FindResult × Dir)) (d : Dir) : Type 0 where
    pub result : FindResult
    pub runs : o ≡ some (result, note_found result d)
    pub good : IsResult k w d.blocks fname result

  setup_failed-IsSearchedFor :
      (err : ℤ) (d : Dir) → is_nonzero err ≡ true → IsSearchedFor (some (setup_failed err, d)) d
  unfolding setup_failed note_found
  setup_failed-IsSearchedFor (pos n) d fails = record {
    result = find_error (pos n);
    runs = refl;
    good = fails;
  }
  setup_failed-IsSearchedFor (negsuc n) d fails = elim (Bool-cases (n == 1)) [
    | inl absent ↦ rw absent record { result = find_none; runs = refl; good = refl }
    | inr other ↦ rw other record { result = find_error (negsuc n); runs = refl; good = refl }
  ]

  find_entry-IsSearchedFor :
      (fuel : ℕ) (d : Dir)
      → ((b n : ℕ) → w.ext4_bread_batch b n ≡ pos 0)
      → 1 ≤ fuel
      → length d.blocks ≤ fuel
      → IsSearchedFor (find_entry k w fuel fname d) d
  unfolding find_entry note_found
  find_entry-IsSearchedFor fuel d reads one enough =
      let order = lookup_order k w fname d in
      elim (Bool-cases (ltb 255 (length fname))) [
        | inl long ↦ rw long record { result = find_none; runs = refl; good = refl }
        | inr short ↦ record {
          result = found (scan k w d.blocks fname order);
          runs =
              find_entry-scan k w fuel fname d reads (ltb→le 255 (length fname) short) one enough;
          good = found-IsResult k w d.blocks fname _ (scan-IsVisit k w d.blocks fname order);
        }
      ]

  pub ext4_find_entry-IsSearchedFor :
      (fuel : ℕ) (d : Dir)
      → ((b n : ℕ) → w.ext4_bread_batch b n ≡ pos 0)
      → 1 ≤ fuel
      → length d.blocks ≤ fuel
      → IsSearchedFor (ext4_find_entry k w fuel fname d) d
  unfolding ext4_find_entry
  ext4_find_entry-IsSearchedFor fuel d reads one enough =
      elim (Bool-cases (is_nonzero w.setup_filename)) [
        | inl fails ↦ rw fails (setup_failed-IsSearchedFor w.setup_filename d fails)
        | inr named ↦ rw named (find_entry-IsSearchedFor fuel d reads one enough)
      ]
