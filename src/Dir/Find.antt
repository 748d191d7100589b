-- ===== src/Dir/Find.antt =====
-- The order in which `__ext4_find_entry` (namei.c) goes through the blocks of a directory.
use linux_evfs.Base.{
  append-nil, ℕ, zero, suc, ◌+◌, ◌-◌, ◌≤◌, ◌<◌, ◌≡◌, refl, inl, inr, true, false, Option, none,
  some, List, [], ◌∷◌, ◌++◌, arith, length, ltb, leb, ◌==◌, if◌then◌else◌, le→ltb, Bool-cases,
  Option-cases,
}
use linux_evfs.Base.Int.{pos}
use linux_evfs.DirBlock.{DirKernel}
use linux_evfs.Dir.{
  Dir, WalkKernel, Block, FindResult, find_none, is_dot_name, visit, find_loop, restart,
  search_blocks, note_found, find_entry,
}

-- The numbers from `b` on.
abbrev pub from : ℕ → ℕ → List ℕ
from b zero = []
from b (suc n) = b ∷ from (suc b) n

-- `NULL` if nothing ends the search.
abbrev pub found : Option FindResult → FindResult
found none = find_none
found (some r) = r

module _ (k : DirKernel) (w : WalkKernel) (blocks : List Block) (fname : List ℕ) where
  -- The blocks of a list one after the other, up to the first that ends the search.
  unfoldable pub scan : List ℕ → Option FindResult
  scan [] = none
  scan (b ∷ bs) = elim (visit k w blocks fname b) [ some r ↦ some r | none ↦ scan bs ]

  pub scan-stop :
      (b : ℕ) (bs : List ℕ) (r : FindResult)
      → visit k w blocks fname b ≡ some r
      → scan (b ∷ bs) ≡ some r
  unfolding scan
  scan-stop b bs r here = ground (arith, here)

  pub scan-go : (b : ℕ) (bs : List ℕ) → visit k w blocks fname b ≡ none → scan (b ∷ bs) ≡ scan bs
  unfolding scan
  scan-go b bs on = ground (arith, on)

  -- The order of the loop: from the start to the end, and around to the start.
  abbrev pub circle : ℕ → ℕ → List ℕ
  circle start nblocks = from start (nblocks - start) ++ from 0 start

  module _ (reads : (b n : ℕ) → w.ext4_bread_batch b n ≡ pos 0) where
    -- One round, with the rest of the loop given.
    find_loop-step :
        (start nblocks n block left next : ℕ) (bs : List ℕ)
        → (if leb nblocks (block + 1) then 0 else block + 1) ≡ next
        → ((next == start) ≡ true → bs ≡ [])
        → ((next == start) ≡ false
            → (m : ℕ) → find_loop k w blocks fname start nblocks n next m ≡ some (scan bs))
        → find_loop k w blocks fname start nblocks (suc n) block left ≡ some (scan (block ∷ bs))
    unfolding find_loop scan
    find_loop-step start nblocks n block left next bs at end more =
        elim (Option-cases (visit k w blocks fname block)) [
          | inr (r, found) ↦ rw (reads, found) (ground arith)
          | inl on ↦ elim (Bool-cases (next == start)) [
            | inl stop ↦ rw (reads, on, at, stop, end stop) (ground arith)
            | inr go ↦ rw (reads, on, at, go, more go) (ground arith)
          ]
        ]

    -- The blocks up to the start, behind the end of the directory.
    find_loop-wrapped :
        (start nblocks d fuel block left : ℕ)
        → start < nblocks
        → block + suc d ≡ start
        → d < fuel
        → find_loop k w blocks fname start nblocks fuel block left
          ≡ some (scan (from block (suc d)))
    find_loop-wrapped start nblocks d zero block left s at f = elim f [ ]
    find_loop-wrapped start nblocks zero (suc fuel) block left s at f =
        find_loop-step start nblocks fuel block left (block + 1) [] (ground arith) (λ e. refl)
          (λ e. ground arith)
    find_loop-wrapped start nblocks (suc d) (suc fuel) block left s at f =
        find_loop-step start nblocks fuel block left (suc block) (from (suc block) (suc d))
          (ground arith) (λ e. ground arith)
          (λ e m.
            find_loop-wrapped start nblocks d fuel (suc block) m s (omega arith) (omega arith))

    -- From a block behind the start on.
    pub find_loop-circle :
        (start nblocks d fuel block left : ℕ)
        → start ≤ block
        → block + suc d ≡ nblocks
        → d + start < fuel
        → find_loop k w blocks fname start nblocks fuel block left
          ≡ some (scan (from block (suc d) ++ from 0 start))
    find_loop-circle start nblocks d zero block left s at f = elim f [ ]
    find_loop-circle zero nblocks zero (suc fuel) block left s at f =
        find_loop-step zero nblocks fuel block left 0 [] (ground arith) (λ e. refl)
          (λ e. ground arith)
    find_loop-circle (suc start) nblocks zero (suc fuel) block left s at f =
        find_loop-step (suc start) nblocks fuel block left 0 (from 0 (suc start)) (ground arith)
          (λ e. ground arith)
          (λ e m.
            find_loop-wrapped (suc start) nblocks start fuel 0 m (omega arith) (omega arith)
              (omega arith))
    find_loop-circle start nblocks (suc d) (suc fuel) block left s at f =
        find_loop-step start nblocks fuel block left (suc block)
          (from (suc block) (suc d) ++ from 0 start) (ground arith) (λ e. ground arith)
          (λ e m.
            find_loop-circle start nblocks d fuel (suc block) m (omega arith) (omega arith)
              (omega arith))

    search_blocks-circle :
        (fuel start : ℕ)
        → start < length blocks
        → length blocks ≤ fuel
        → search_blocks k w fuel blocks fname start (length blocks)
          ≡ some (found (scan (circle start (length blocks))))
    unfolding search_blocks restart
    search_blocks-circle fuel start s f =
        let n = length blocks in
        let d = n - suc start in
        let size : n - start ≡ suc d = omega arith in
        let all : find_loop k w blocks fname start n fuel start 0 ≡ some (scan (circle start n)) =
          rw size
            (find_loop-circle start n d fuel start 0 (omega arith) (omega arith) (omega arith)) in
        elim (Option-cases (scan (circle start n))) [
          | inl absent ↦ rw (all, absent, le→ltb n n (omega arith)) refl
          | inr (r, here) ↦ rw (all, here) refl
        ]

    search_blocks-rest :
        (fuel : ℕ)
        → length blocks ≤ fuel
        → ltb 1 (length blocks) ≡ true
        → restart true (some none) (find_loop k w blocks fname 0 (length blocks) fuel 1 0)
          ≡ some (found (scan (from 1 (length blocks - 1))))
    unfolding restart
    search_blocks-rest fuel f long =
        let d = length blocks - 2 in
        let rest : find_loop k w blocks fname 0 (length blocks) fuel 1 0
            ≡ some (scan (from 1 (suc d))) =
          rw (append-nil (from 1 (suc d))) at (
            find_loop-circle 0 (length blocks) d fuel 1 0 (omega arith) (ground arith)
              (ground arith)) in
        let size : length blocks - 1 ≡ suc d = ground arith in
        elim (Option-cases (scan (from 1 (suc d)))) [
          | inl absent ↦ rw (rest, size, absent) refl
          | inr (r, here) ↦ rw (rest, size, here) refl
        ]

    -- The two names that are looked for in the first block at first.
    search_blocks-first :
        (fuel : ℕ)
        → 1 ≤ fuel
        → length blocks ≤ fuel
        → search_blocks k w fuel blocks fname 0 1
          ≡ some (found (scan (0 ∷ from 1 (length blocks - 1))))
    unfolding search_blocks restart scan
    search_blocks-first fuel one f =
        let first : find_loop k w blocks fname 0 1 fuel 0 0 ≡ some (scan (0 ∷ [])) =
          find_loop-circle 0 1 0 fuel 0 0 (omega arith) (omega arith) (omega arith) in
        elim (Option-cases (visit k w blocks fname 0)) [
          | inr (r, here) ↦
              rw (first, scan-stop 0 [] r here, scan-stop 0 (from 1 (length blocks - 1)) r here)
                refl
          | inl on ↦ elim (Bool-cases (ltb 1 (length blocks))) [
            | inr short ↦
                let none_left : length blocks - 1 ≡ 0 = ground arith in
                rw (first, short, none_left, scan-go 0 [] on) refl
            | inl long ↦
                rw (first, long, scan-go 0 [] on, scan-go 0 (from 1 (length blocks - 1)) on)
                  (search_blocks-rest fuel f long)
          ]
        ]

module _ (k : DirKernel) (w : WalkKernel) where
  -- The blocks in the order in which a name is looked for.
  abbrev pub lookup_order : List ℕ → Dir → List ℕ
  lookup_order fname d =
      let n = length d.blocks in
      if is_dot_name fname
      then 0 ∷ from 1 (n - 1)
      else if n == 0
      then []
      else (let start = if leb n d.i_dir_start_lookup then 0 else d.i_dir_start_lookup in
          from start (n - start) ++ from 0 start)

  -- The search for a name of at most 255 bytes, as long as the blocks can be read ahead, and with
  -- fuel for one round and for a round in each block, ends. Its result is that of looking into each
  -- block of the directory once, from the block where the last name was found to the end and then
  -- from the first block on, up to a block that has the name or is bad; `.` and `..` are looked for
  -- from the first block on.
  pub find_entry-scan :
      (fuel : ℕ) (fname : List ℕ) (d : Dir)
      → ((b n : ℕ) → w.ext4_bread_batch b n ≡ pos 0)
      → length fname ≤ 255
      → 1 ≤ fuel
      → length d.blocks ≤ fuel
      → let r = found (scan k w d.blocks fname (lookup_order fname d)) in
        find_entry k w fuel fname d ≡ some (r, note_found r d)
  unfolding find_entry scan note_found
  find_entry-scan fuel fname d reads short one f =
      let n = length d.blocks in
      let long : ltb 255 (length fname) ≡ false = ground arith in
      elim (Bool-cases (is_dot_name fname)) [
        | inl dot ↦ rw (long, dot, search_blocks-first k w d.blocks fname reads fuel one f) refl
        | inr name ↦ elim (Bool-cases (n == 0)) [
          | inl empty ↦ rw (long, name, empty) refl
          | inr full ↦
              let start = if leb n d.i_dir_start_lookup then 0 else d.i_dir_start_lookup in
              rw
                (
                  long,
                  name,
                  full,
                  search_blocks-circle k w d.blocks fname reads fuel start (ground (arith, full)) f,
                )
                refl
        ]
      ]
