-- ===== src/Dir/Link/Removed.antt =====
-- The entry that a search of a block (namei.c) found is the one that is deleted at its offset.
use linux_evfs.Base.{
  ℕ, zero, suc, ◌+◌, ◌<◌, ◌≡◌, refl, sym, ap, ◌∙◌, inl, inr, true, false, ◌&&◌, none, some, List,
  [], ◌∷◌, ◌++◌, arith, get_or, set, set-get_or, ltb, leb, ◌==◌, Bool-cases,
}
use linux_evfs.Dentry.{DirEntry}
use linux_evfs.DirBlock.{
  DirKernel, SearchResult, not_found, search_failed, search_found, ext4_match, ext4_search_dir,
}
use linux_evfs.DirBlock.Insert.{live, size, live-append, append-three}
use linux_evfs.DirBlock.Delete.{IsRemoved}
use linux_evfs.Dir.{Block}
use linux_evfs.Dir.Put.{names}
use linux_evfs.Dir.Link.{entries_of}
use linux_evfs.Dir.Names.{Gains, Gains-append}

-- Every entry has bytes.
abbrev pub AllLong : List DirEntry → Type 0
AllLong [] = ◌≡◌ {A = ℕ} 0 0
AllLong (e ∷ es) = (0 < e.rec_len) × AllLong es

module _ (k : DirKernel) (n : ℕ) (fname : List ℕ) where
  -- An entry in use that matches, where it stands.
  pub record StandsAt (es : List DirEntry) (offset at : ℕ) (e : DirEntry) : Type 0 where
    pub before : List DirEntry
    pub after : List DirEntry
    pub shape : es ≡ before ++ e ∷ after
    pub place : offset + size before ≡ at
    pub matches : ext4_match k fname e ≡ true

  abbrev pub IsSearched : List DirEntry → ℕ → SearchResult → Type 0
  IsSearched es offset not_found = es ≡ es
  IsSearched es offset search_failed = es ≡ es
  IsSearched es offset (search_found at e) = StandsAt es offset at e

  IsSearched-next :
      (de : DirEntry) (es : List DirEntry) (offset : ℕ) (r : SearchResult)
      → IsSearched es (offset + de.rec_len) r
      → IsSearched (de ∷ es) offset r
  IsSearched-next de es offset not_found h = refl
  IsSearched-next de es offset search_failed h = refl
  IsSearched-next de es offset (search_found at e) h = record {
    before = de ∷ h.before;
    after = h.after;
    shape = ap (λ ys. de ∷ ys) h.shape;
    place = omega (arith, h.place);
    matches = h.matches;
  }

  pub ext4_search_dir-IsSearched :
      (es : List DirEntry) (offset : ℕ) → IsSearched es offset (ext4_search_dir k n fname es offset)
  unfolding ext4_search_dir
  ext4_search_dir-IsSearched [] offset = refl
  ext4_search_dir-IsSearched (de ∷ rest) offset = elim (Bool-cases (ltb (offset + 8) n)) [
    | inr far ↦ rw far refl
    | inl inside ↦ elim (Bool-cases (leb (offset + 8 + de.name_len) n && ext4_match k fname de)) [
      | inl same ↦ elim (Bool-cases (k.ext4_check_dir_entry n offset de)) [
        | inl bad ↦ rw (inside, same, bad) refl
        | inr good ↦
            rw (inside, same, good)
              record {
                before = [];
                after = rest;
                shape = refl;
                place = omega arith;
                matches = ground (arith, same);
              }
      ]
      | inr other ↦ elim (Bool-cases (de.rec_len == 0)) [
        | inl stuck ↦ rw (inside, other, stuck) refl
        | inr long ↦
            rw (inside, other, long)
              (IsSearched-next de rest offset _
                (ext4_search_dir-IsSearched rest (offset + de.rec_len)))
      ]
    ]
  ]

head_or : DirEntry → List DirEntry → DirEntry
head_or d [] = d
head_or d (e ∷ es) = e

tail_of : List DirEntry → List DirEntry
tail_of [] = []
tail_of (e ∷ es) = es

-- A place in the bytes of a block is a place in its entries.
split_unique :
    (xs xs' ys ys' : List DirEntry) (e e' : DirEntry)
    → AllLong (xs ++ e ∷ ys)
    → xs ++ e ∷ ys ≡ xs' ++ e' ∷ ys'
    → size xs ≡ size xs'
    → (e ≡ e') × (live xs ≡ live xs') × (live ys ≡ live ys')
unfolding head_or tail_of
split_unique [] [] ys ys' e e' long eq at =
    (ap (head_or e) eq, refl, ap (λ zs. live (tail_of zs)) eq)
split_unique [] (x' ∷ xs') ys ys' e e' long eq at =
    let same : e ≡ x' = ap (head_or e) eq in
    absurd (omega (arith, at, long.0, ap (λ d. d.rec_len) same))
split_unique (x ∷ xs) [] ys ys' e e' long eq at = absurd (omega (arith, at, long.0))
split_unique (x ∷ xs) (x' ∷ xs') ys ys' e e' long eq at =
    let same : x ≡ x' = ap (head_or x) eq in
    let rest =
      split_unique xs xs' ys ys' e e' long.1 (ap tail_of eq)
        (omega (arith, at, ap (λ d. d.rec_len) same)) in
    (rest.0, rw (same, rest.1) refl, rest.2)

live-in_use : (e : DirEntry) → (e.inode == 0) ≡ false → live (e ∷ []) ≡ (e.name, e.inode) ∷ []
live-in_use e h = rw h refl

-- The names in use without the one of the entry.
pub IsRemoved-Gains :
    (k : DirKernel) (n : ℕ) (fname : List ℕ) (es es' : List DirEntry) (at : ℕ) (e : DirEntry)
    → AllLong es
    → (e.inode == 0) ≡ false
    → StandsAt k n fname es 0 at e
    → IsRemoved at es es'
    → Gains e.name e.inode (live es') (live es)
IsRemoved-Gains k n fname es es' at e long used s r =
    let eq : s.before ++ e ∷ s.after ≡ r.before ++ r.entry ∷ r.after = sym s.shape ∙ r.shape in
    let u =
      split_unique s.before r.before s.after r.after e r.entry (rw s.shape at long) eq
        (omega (arith, s.place, r.place)) in
    record {
      left = live s.before;
      right = live s.after;
      old =
          r.rest
          ∙ ap (λ ns. ns ++ live r.after) (sym u.1)
          ∙ ap (λ ns. live s.before ++ ns) (sym u.2);
      new =
          ap live s.shape
          ∙ live-append s.before (e ∷ s.after)
          ∙ ap (λ ns. live s.before ++ ns)
              (live-append (e ∷ []) s.after ∙ ap (λ ns. ns ++ live s.after) (live-in_use e used));
    }

Gains-suffix :
    {name : List ℕ} {ino : ℕ} {ns ns' : List (List ℕ × ℕ)} (ms : List (List ℕ × ℕ))
    → Gains name ino ns ns'
    → Gains name ino (ns ++ ms) (ns' ++ ms)
Gains-suffix {name = name} {ino = ino} ms g = record {
  left = g.left;
  right = g.right ++ ms;
  old = ap (λ ns. ns ++ ms) g.old ∙ sym (append-three g.left g.right ms);
  new = ap (λ ns. ns ++ ms) g.new ∙ sym (append-three g.left ((name, ino) ∷ g.right) ms);
}

-- A block that is changed, in the directory.
pub set-Gains :
    (name : List ℕ) (ino : ℕ) (bs : List Block) (b : ℕ) (es es' : List DirEntry)
    → get_or bs b none ≡ some es
    → Gains name ino (live es') (live es)
    → Gains name ino (names (set bs b (some es'))) (names bs)
unfolding entries_of
set-Gains name ino [] b es es' here g = absurd (ground (arith, here))
set-Gains name ino (none ∷ bs) zero es es' here g = absurd (ground (arith, here))
set-Gains name ino (some x ∷ bs) zero es es' here g =
    let same : x ≡ es = ap entries_of here in rw same (Gains-suffix (names bs) g)
set-Gains name ino (none ∷ bs) (suc b) es es' here g = set-Gains name ino bs b es es' here g
set-Gains name ino (some x ∷ bs) (suc b) es es' here g =
    Gains-append name ino (live x) (set-Gains name ino bs b es es' here g)

pub set-names :
    (bs : List Block) (b : ℕ) (es es' : List DirEntry)
    → get_or bs b none ≡ some es
    → es' ≡ es
    → names (set bs b (some es')) ≡ names bs
set-names bs b es es' here same =
    ap (λ ys. names (set bs b (some ys))) same
    ∙ ap (λ o. names (set bs b o)) (sym here)
    ∙ ap names (set-get_or bs b none)
