-- ===== src/Leaf/Store.antt =====
-- An entry of a leaf (extents.c) that is written with another physical block.
use linux_evfs.Base.{
  ℕ, suc, ◌+◌, ◌-◌, ◌^◌, ◌<◌, ◌≡◌, refl, ap, some, List, [], ◌∷◌, ◌++◌, arith, length,
  if◌then◌else◌,
}
use linux_evfs.Extent.Laws.{within}
use linux_evfs.Leaf.{LeafExtent}
use linux_evfs.Leaf.Map.{view, begins, IsSorted, IsSorted-tail}

pub store-IsSorted :
    (from : ℕ) (e : LeafExtent) (after : List LeafExtent) (p : ℕ)
    → p + e.actual_len < 2 ^ 48
    → IsSorted from (e ∷ after)
    → IsSorted from (record e { pblock = p } ∷ after)
store-IsSorted from e after p room s = (
  record {
    behind = s.0.behind;
    nonempty = s.0.nonempty;
    logical = s.0.logical;
    physical = omega (arith, room);
  },
  s.1,
)

pub view_stored :
    (from : ℕ) (before : List LeafExtent) (e : LeafExtent) (after : List LeafExtent) (p c : ℕ)
    → IsSorted from (before ++ e ∷ after)
    → view (before ++ record e { pblock = p } ∷ after) c ≡ (
        if within e.ee_block e.actual_len c
        then some (p + (c - e.ee_block))
        else view (before ++ e ∷ after) c)
view_stored from [] e after p c s = ground arith
view_stored from (x ∷ xs) e after p c s =
    let (from', m, s') = IsSorted-tail (x.ee_block + x.actual_len) xs (e ∷ after) s.1 in
    ground (arith, view_stored (x.ee_block + x.actual_len) xs e after p c s.1, m, s'.0.behind)

pub begins_stored :
    (before : List LeafExtent) (e : LeafExtent) (after : List LeafExtent) (p c : ℕ)
    → begins (before ++ record e { pblock = p } ∷ after) c ≡ begins (before ++ e ∷ after) c
begins_stored [] e after p c = refl
begins_stored (x ∷ xs) e after p c = rw (begins_stored xs e after p c)

pub length_stored :
    (before : List LeafExtent) (e e' : LeafExtent) (after : List LeafExtent)
    → length (before ++ e' ∷ after) ≡ length (before ++ e ∷ after)
length_stored [] e e' after = refl
length_stored (x ∷ xs) e e' after = ap suc (length_stored xs e e' after)
