-- ===== src/Leaf/Path.antt =====
-- The path to a block of a leaf: `ext4_find_extent` of extents.c.
use linux_evfs.Base.{
  ℕ, suc, ◌+◌, ◌<◌, ◌≡◌, refl, inl, inr, some, List, [], ◌∷◌, ◌++◌, arith, length, length-append,
  ltb, Bool-cases, ltb→lt, ltb→le,
}
use linux_evfs.Leaf.{
  LeafExtent, LeafPath, entry_at, path_entries, path_at, binsearch_loop, ext4_ext_binsearch,
  ext4_find_extent,
}
use linux_evfs.Leaf.Map.{IsSorted, IsIn}
use linux_evfs.Leaf.Search.{IsLast, IsLast-unique, entry_at-apart, binsearch_loop-IsLast_start}

entry_at-middle :
    (before : List LeafExtent) (ex : LeafExtent) (after : List LeafExtent)
    → entry_at (before ++ ex ∷ after) (length before) ≡ ex
entry_at-middle [] ex after = refl
entry_at-middle (e ∷ es) ex after = entry_at-middle es ex after

path_at-middle :
    (before : List LeafExtent) (ex : LeafExtent) (after : List LeafExtent)
    → path_at (before ++ ex ∷ after) (length before)
      ≡ some (record { before = before; ex = ex; after = after })
unfolding path_at
path_at-middle [] ex after = refl
path_at-middle (e ∷ es) ex after = rw (path_at-middle es ex after)

-- The entry that holds a block is the last one for it.
IsLast-middle :
    (from : ℕ) (p : LeafPath) (block : ℕ)
    → IsSorted from (path_entries p)
    → IsIn p.ex block
    → IsLast (path_entries p) block (length p.before)
IsLast-middle from p block s is_in =
    let mid = entry_at-middle p.before p.ex p.after in
    let size : length (path_entries p) ≡ length p.before + suc (length p.after) =
      length-append p.before (p.ex ∷ p.after) in
    let inside : length p.before < length (path_entries p) = omega (arith, size) in
    record {
      inside = inside;
      low = λ j q r. elim (Bool-cases (ltb j (length p.before))) [
        | inl less ↦ omega (
          arith,
          rw mid at
              (entry_at-apart from (path_entries p) j (length p.before) s
                (ltb→lt j (length p.before) less) inside).1,
          is_in.from,
        )
        | inr same ↦
            let eq : j ≡ length p.before = omega (arith, r, ltb→le j (length p.before) same) in
            rw (eq, mid) (is_in.from)
      ];
      high = λ j q r. omega (
        arith,
        rw mid at (entry_at-apart from (path_entries p) (length p.before) j s q r).0,
        is_in.to,
      );
    }

find_in :
    (from : ℕ) (before : List LeafExtent) (ex : LeafExtent) (after : List LeafExtent) (block : ℕ)
    → IsSorted from (before ++ ex ∷ after)
    → IsIn ex block
    → ext4_find_extent (before ++ ex ∷ after) block
      ≡ some (record { before = before; ex = ex; after = after })
unfolding ext4_find_extent ext4_ext_binsearch
find_in from [] ex after block s is_in =
    let p : LeafPath = record { before = []; ex = ex; after = after } in
    rw
      (IsLast-unique (ex ∷ after) block
        (binsearch_loop (length (ex ∷ after)) (ex ∷ after) block 1 (length after)) 0
        (binsearch_loop-IsLast_start from ex after block s) (IsLast-middle from p block s is_in))
      (path_at-middle [] ex after)
find_in from (e ∷ es) ex after block s is_in =
    let p : LeafPath = record { before = e ∷ es; ex = ex; after = after } in
    let tail = es ++ ex ∷ after in
    rw
      (IsLast-unique (e ∷ tail) block
        (binsearch_loop (length (e ∷ tail)) (e ∷ tail) block 1 (length tail)) (length (e ∷ es))
        (binsearch_loop-IsLast_start from e tail block s) (IsLast-middle from p block s is_in))
      (path_at-middle (e ∷ es) ex after)

-- A block of an entry is found there.
pub ext4_find_extent-IsIn :
    (from : ℕ) (p : LeafPath) (block : ℕ)
    → IsSorted from (path_entries p)
    → IsIn p.ex block
    → ext4_find_extent (path_entries p) block ≡ some p
ext4_find_extent-IsIn from p block s is_in = find_in from p.before p.ex p.after block s is_in
