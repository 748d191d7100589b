-- ===== src/Dir/Lookup.antt =====
-- The block that `ext4_add_entry` (namei.c) changes, and how `__ext4_find_entry` gets to it.
use linux_evfs.Base.{
  ℕ, zero, suc, ◌+◌, ◌-◌, ◌≤◌, ◌<◌, ◌≡◌, ◌≢◌, refl, ap, ◌∙◌, inl, inr, true, none, some, List, [],
  ◌∷◌, ◌++◌, arith, append-nil, length, get_or, leb, ◌==◌, if◌then◌else◌, Bool-cases, leb→le,
}
use linux_evfs.Base.Int.{pos}
use linux_evfs.Dentry.{DirEntry}
use linux_evfs.DirBlock.{DirKernel}
use linux_evfs.DirBlock.Insert.{size}
use linux_evfs.Dir.{Dir, WalkKernel, Block, FindResult, is_dot_name, visit}
use linux_evfs.Dir.Find.{from, scan, scan-stop, scan-go, lookup_order}
use linux_evfs.Dir.Put.{IsPut, put_here, put_hole, put_behind, put_next}

-- No block takes more bytes than it has.
abbrev pub AllWhole : ℕ → List Block → Type 0
AllWhole n [] = n ≡ n
AllWhole n (none ∷ bs) = AllWhole n bs
AllWhole n (some es ∷ bs) = (size es ≤ n) × AllWhole n bs

-- Every buffer can be read and is verified.
pub record IsReadable (w : WalkKernel) : Type 0 where
  pub reads : (b n : ℕ) → w.ext4_bread_batch b n ≡ pos 0
  pub uptodate : (b : ℕ) → w.buffer_uptodate b ≡ true
  pub verified : (b : ℕ) → w.block_verified b ≡ true

-- The one block that changed.
pub record Changed (Q : List DirEntry → Type 0) (bs bs' : List Block) : Type 0 where
  pub at : ℕ
  pub entries : List DirEntry
  pub inside : at < length bs'
  pub here : get_or bs' at none ≡ some entries
  pub good : Q entries
  pub elsewhere : (b : ℕ) → b ≢ at → get_or bs' b none ≡ get_or bs b none

AllWhole-tail : (n : ℕ) (b : Block) (bs : List Block) → AllWhole n (b ∷ bs) → AllWhole n bs
AllWhole-tail n none bs h = h
AllWhole-tail n (some es) bs h = h.1

elsewhere_first :
    (b b' : Block) (bs : List Block) (j : ℕ)
    → j ≢ 0
    → get_or (b' ∷ bs) j none ≡ get_or (b ∷ bs) j none
elsewhere_first b b' bs zero h = absurd (h refl)
elsewhere_first b b' bs (suc j) h = refl

elsewhere_behind : (b : Block) (j : ℕ) → j ≢ 0 → get_or (b ∷ []) j none ≡ none
elsewhere_behind b zero h = absurd (h refl)
elsewhere_behind b (suc j) h = refl

elsewhere_next :
    (b : Block) (bs bs' : List Block) (i : ℕ)
    → ((j : ℕ) → j ≢ i → get_or bs' j none ≡ get_or bs j none)
    → (j : ℕ) → j ≢ suc i
    → get_or (b ∷ bs') j none ≡ get_or (b ∷ bs) j none
elsewhere_next b bs bs' i h zero ne = refl
elsewhere_next b bs bs' i h (suc j) ne = h j (λ e. ne (ap suc e))

pub IsPut-Changed :
    (n : ℕ) (Q : List DirEntry → Type 0) (fresh : List DirEntry) {bs bs' : List Block}
    → size fresh ≤ n
    → AllWhole n bs
    → IsPut (λ es es'. size es ≤ n → Q es') fresh bs bs'
    → Changed Q bs bs'
IsPut-Changed n Q fresh small whole (put_here {es' = es'} p) = record {
  at = 0;
  entries = es';
  inside = omega arith;
  here = refl;
  good = p whole.0;
  elsewhere = elsewhere_first _ _ _;
}
IsPut-Changed n Q fresh small whole (put_hole {es' = es'} p) = record {
  at = 0;
  entries = es';
  inside = omega arith;
  here = refl;
  good = p small;
  elsewhere = elsewhere_first _ _ _;
}
IsPut-Changed n Q fresh small whole (put_behind {es' = es'} p) = record {
  at = 0;
  entries = es';
  inside = omega arith;
  here = refl;
  good = p small;
  elsewhere = elsewhere_behind _;
}
IsPut-Changed n Q fresh small whole (put_next {b = b} {bs = bs} p) =
    let c = IsPut-Changed n Q fresh small (AllWhole-tail n b bs whole) p in
    record {
      at = suc c.at;
      entries = c.entries;
      inside = omega (arith, c.inside);
      here = c.here;
      good = c.good;
      elsewhere = elsewhere_next b bs _ c.at c.elsewhere;
    }

module _ (k : DirKernel) (w : WalkKernel) (blocks : List Block) (fname : List ℕ) where
  -- Blocks that do not end the search are passed over.
  scan-pass :
      (lo n : ℕ) (rest : List ℕ)
      → ((j : ℕ) → lo ≤ j → j < lo + n → visit k w blocks fname j ≡ none)
      → scan k w blocks fname (from lo n ++ rest) ≡ scan k w blocks fname rest
  scan-pass lo zero rest h = refl
  scan-pass lo (suc n) rest h =
      scan-go k w blocks fname lo (from (suc lo) n ++ rest) (h lo (omega arith) (omega arith))
      ∙ scan-pass (suc lo) n rest (λ j a b. h j (omega arith) (omega arith))

  module _ (at : ℕ) (r : FindResult) (here : visit k w blocks fname at ≡ some r)
      (others : (j : ℕ) → j ≢ at → visit k w blocks fname j ≡ none) where
    scan-hit :
        (lo n : ℕ) (rest : List ℕ)
        → lo ≤ at
        → at < lo + n
        → scan k w blocks fname (from lo n ++ rest) ≡ some r
    scan-hit lo zero rest a b = absurd (omega arith)
    scan-hit lo (suc n) rest a b = elim (Bool-cases (lo == at)) [
      | inl eq ↦
          let same : lo ≡ at = ground (arith, eq) in
          scan-stop k w blocks fname lo (from (suc lo) n ++ rest) r (rw same here)
      | inr ne ↦
          scan-go k w blocks fname lo (from (suc lo) n ++ rest) (others lo (ground (arith, ne)))
          ∙ scan-hit (suc lo) n rest (ground (arith, ne)) (omega arith)
    ]

    -- The one block that ends the search is reached from any start.
    scan-circle :
        (start n : ℕ)
        → start ≤ n
        → at < n
        → scan k w blocks fname (from start (n - start) ++ from 0 start) ≡ some r
    scan-circle start n s inside = elim (Bool-cases (leb start at)) [
      | inl behind ↦
          scan-hit start (n - start) (from 0 start) (leb→le start at behind)
            (ground (arith, behind))
      | inr before ↦
          scan-pass start (n - start) (from 0 start) (λ j a b. others j (ground (arith, before)))
          ∙ rw (append-nil (from 0 start)) at
              (scan-hit 0 start [] (omega arith) (ground (arith, before)))
    ]

    pub scan-lookup_order :
        (d : Dir) → at < length d.blocks → scan k w blocks fname (lookup_order k w fname d) ≡ some r
    scan-lookup_order d inside =
        let n = length d.blocks in
        elim (Bool-cases (is_dot_name fname)) [
          | inl dot ↦
              let size : suc (n - 1) ≡ n = omega arith in
              rw dot (
                rw (append-nil (from 1 (n - 1))) at
                  (scan-hit 0 (suc (n - 1)) [] (omega arith) (omega arith)))
          | inr other ↦ elim (Bool-cases (n == 0)) [
            | inl empty ↦ absurd (ground (arith, empty, inside))
            | inr full ↦
                rw (other, full)
                  (scan-circle (if leb n d.i_dir_start_lookup then 0 else d.i_dir_start_lookup) n
                    (ground arith) inside)
          ]
        ]
