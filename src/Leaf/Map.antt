-- ===== src/Leaf/Map.antt =====
-- The entries of a leaf (extents.c) as a map from logical to physical blocks.
use linux_evfs.Base.{
  ℕ, ◌+◌, ◌-◌, ◌^◌, ◌≤◌, ◌<◌, ◌≡◌, refl, ap, inl, inr, Bool, true, false, Option, none, some, List,
  [], ◌∷◌, ◌++◌, arith, ◌==◌, if◌then◌else◌, Bool-cases,
}
use linux_evfs.Extent.Laws.{within}
use linux_evfs.Leaf.{LeafExtent, LeafPath, path_entries}

abbrev pub view : List LeafExtent → ℕ → Option ℕ
view [] c = none
view (e ∷ es) c =
    if within e.ee_block e.actual_len c then some (e.pblock + (c - e.ee_block)) else view es c

-- Whether the blocks are marked as not written yet.
abbrev pub unwritten_at : List LeafExtent → ℕ → Bool
unwritten_at [] c = false
unwritten_at (e ∷ es) c =
    if within e.ee_block e.actual_len c then e.unwritten else unwritten_at es c

abbrev pub begins : List LeafExtent → ℕ → Bool
begins [] c = false
begins (e ∷ es) c = if c == e.ee_block then true else begins es c

-- The entry lies behind `from`, is not empty, and its blocks have numbers that fit.
pub record Fits (from : ℕ) (e : LeafExtent) : Type 0 where
  pub behind : from ≤ e.ee_block
  pub nonempty : 0 < e.actual_len
  pub logical : e.ee_block + e.actual_len < 2 ^ 32
  pub physical : e.pblock + e.actual_len ≤ 2 ^ 48

-- Entries in order, from `from` on and without overlap.
abbrev pub IsSorted : ℕ → List LeafExtent → Type 0
IsSorted from [] = from ≤ 2 ^ 32
IsSorted from (e ∷ es) = Fits from e × IsSorted (e.ee_block + e.actual_len) es

pub IsSorted-from :
    (from from' : ℕ) (es : List LeafExtent) → from' ≤ from → IsSorted from es → IsSorted from' es
IsSorted-from from from' [] h s = omega arith
IsSorted-from from from' (e ∷ es) h s = (
  record {
    behind = omega (arith, s.0.behind);
    nonempty = s.0.nonempty;
    logical = s.0.logical;
    physical = s.0.physical;
  },
  s.1,
)

pub IsSorted-tail :
    (from : ℕ) (before tail : List LeafExtent)
    → IsSorted from (before ++ tail)
    → (from' : ℕ) × (from ≤ from') × IsSorted from' tail
IsSorted-tail from [] tail s = (from, omega arith, s)
IsSorted-tail from (e ∷ es) tail s =
    let (from', h, s') = IsSorted-tail (e.ee_block + e.actual_len) es tail s.1 in
    (from', omega (arith, h, s.0.behind), s')

-- A tail that fits wherever the old one does.
pub IsSorted-change :
    (from : ℕ) (before tail tail' : List LeafExtent)
    → ((from' : ℕ) → IsSorted from' tail → IsSorted from' tail')
    → IsSorted from (before ++ tail)
    → IsSorted from (before ++ tail')
IsSorted-change from [] tail tail' f s = f from s
IsSorted-change from (e ∷ es) tail tail' f s =
    (s.0, IsSorted-change (e.ee_block + e.actual_len) es tail tail' f s.1)

pub view-change :
    (before tail tail' : List LeafExtent) (c : ℕ)
    → view tail' c ≡ view tail c
    → view (before ++ tail') c ≡ view (before ++ tail) c
view-change [] tail tail' c h = h
view-change (e ∷ es) tail tail' c h = rw (view-change es tail tail' c h)

pub begins-change :
    (before tail tail' : List LeafExtent) (c : ℕ) (b : Bool)
    → begins tail' c ≡ (if b then true else begins tail c)
    → begins (before ++ tail') c ≡ (if b then true else begins (before ++ tail) c)
begins-change [] tail tail' c b h = h
begins-change (e ∷ es) tail tail' c b h = ground (arith, begins-change es tail tail' c b h)

-- Blocks before the entries are not mapped, and no entry begins there.
pub view-before :
    (from : ℕ) (es : List LeafExtent) (c : ℕ) → IsSorted from es → c < from → view es c ≡ none
view-before from [] c s h = refl
view-before from (e ∷ es) c s h =
    let rest = view-before (e.ee_block + e.actual_len) es c s.1 (omega (arith, s.0.behind)) in
    ground (arith, rest, s.0.behind)

pub begins-before :
    (from : ℕ) (es : List LeafExtent) (c : ℕ) → IsSorted from es → c < from → begins es c ≡ false
begins-before from [] c s h = refl
begins-before from (e ∷ es) c s h =
    let rest = begins-before (e.ee_block + e.actual_len) es c s.1 (omega (arith, s.0.behind)) in
    ground (arith, rest, s.0.behind)

-- The block `c` lies behind the entries before `ex`.
pub record IsIn (ex : LeafExtent) (c : ℕ) : Type 0 where
  pub from : ex.ee_block ≤ c
  pub to : c < ex.ee_block + ex.actual_len

pub view-skip :
    (from : ℕ) (before : List LeafExtent) (ex : LeafExtent) (after : List LeafExtent) (c : ℕ)
    → IsSorted from (before ++ ex ∷ after)
    → ex.ee_block ≤ c
    → view (before ++ ex ∷ after) c ≡ view (ex ∷ after) c
view-skip from [] ex after c s h = refl
view-skip from (e ∷ es) ex after c s h =
    let (from', m, s') = IsSorted-tail (e.ee_block + e.actual_len) es (ex ∷ after) s.1 in
    let rest = view-skip (e.ee_block + e.actual_len) es ex after c s.1 h in
    let far : within e.ee_block e.actual_len c ≡ false = ground (arith, m, s'.0.behind) in
    rw far rest

pub begins-skip :
    (from : ℕ) (before : List LeafExtent) (ex : LeafExtent) (after : List LeafExtent) (c : ℕ)
    → IsSorted from (before ++ ex ∷ after)
    → ex.ee_block ≤ c
    → begins (before ++ ex ∷ after) c ≡ begins (ex ∷ after) c
begins-skip from [] ex after c s h = refl
begins-skip from (e ∷ es) ex after c s h =
    let (from', m, s') = IsSorted-tail (e.ee_block + e.actual_len) es (ex ∷ after) s.1 in
    let rest = begins-skip (e.ee_block + e.actual_len) es ex after c s.1 h in
    let far : (c == e.ee_block) ≡ false = ground (arith, m, s'.0.behind, s.0.nonempty) in
    rw far rest

-- A mapped block lies in an entry.
pub view-split :
    (from : ℕ) (es : List LeafExtent) (c p : ℕ)
    → IsSorted from es
    → view es c ≡ some p
    → (path : LeafPath) × (es ≡ path_entries path) × IsIn path.ex c
view-split from [] c p s e = absurd (cc e)
view-split from (x ∷ xs) c p s e = elim (Bool-cases (within x.ee_block x.actual_len c)) [
  | inl here ↦ (
    record { before = []; ex = x; after = xs },
    refl,
    record { from = ground (arith, here); to = ground (arith, here) },
  )
  | inr far ↦
      let (path, eq, is_in) = view-split (x.ee_block + x.actual_len) xs c p s.1 (rw far at e) in
      (
        record { before = x ∷ path.before; ex = path.ex; after = path.after },
        ap (λ ys. x ∷ ys) eq,
        is_in,
      )
]

pub begins-view :
    (from : ℕ) (es : List LeafExtent) (c : ℕ)
    → IsSorted from es
    → begins es c ≡ true
    → (p : ℕ) × (view es c ≡ some p)
begins-view from [] c s e = absurd (cc e)
begins-view from (x ∷ xs) c s e = elim (Bool-cases (within x.ee_block x.actual_len c)) [
  | inl here ↦ (x.pblock + (c - x.ee_block), rw here)
  | inr far ↦
      let rest : begins xs c ≡ true = ground (arith, e, far, s.0.nonempty) in
      let (p, eq) = begins-view (x.ee_block + x.actual_len) xs c s.1 rest in (p, rw far eq)
]
