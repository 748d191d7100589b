-- ===== src/Leaf/Search.antt =====
-- The binary search of extents.c (`ext4_ext_binsearch`) and the path that it finds.
use linux_evfs.Base.{
  ℕ, zero, suc, ◌+◌, ◌-◌, ◌/◌, ◌≤◌, ◌<◌, ◌≡◌, refl, sym, ap, inl, inr, some, List, [], ◌∷◌, arith,
  length, ltb, leb, Bool-cases, ltb→lt, ltb→le,
}
use linux_evfs.Leaf.{LeafExtent, entry_at, binsearch_loop, ext4_ext_binsearch, check_loop}
use linux_evfs.Leaf.Map.{IsSorted}

-- An entry ends before every later one begins.
entry_at-ordered :
    (from : ℕ) (es : List LeafExtent) (j : ℕ)
    → IsSorted from es
    → j < length es
    → from ≤ (entry_at es j).ee_block
entry_at-ordered from [] j s h = absurd (omega (arith, h))
entry_at-ordered from (e ∷ es) zero s h = s.0.behind
entry_at-ordered from (e ∷ es) (suc j) s h =
    omega
      (arith, s.0.behind, entry_at-ordered (e.ee_block + e.actual_len) es j s.1 (omega (arith, h)))

pub entry_at-apart :
    (from : ℕ) (es : List LeafExtent) (j i : ℕ)
    → IsSorted from es
    → j < i
    → i < length es
    → (entry_at es j).ee_block + (entry_at es j).actual_len ≤ (entry_at es i).ee_block
      × (entry_at es j).ee_block < (entry_at es i).ee_block
entry_at-apart from [] j i s h k = absurd (omega (arith, k))
entry_at-apart from (e ∷ es) j zero s h k = absurd (omega (arith, h))
entry_at-apart from (e ∷ es) zero (suc i) s h k =
    let o = entry_at-ordered (e.ee_block + e.actual_len) es i s.1 (omega (arith, k)) in
    (o, omega (arith, o, s.0.nonempty))
entry_at-apart from (e ∷ es) (suc j) (suc i) s h k =
    entry_at-apart (e.ee_block + e.actual_len) es j i s.1 (omega (arith, h)) (omega (arith, k))

-- `i` is the last entry that begins at `block` or before, or the first of all.
pub record IsLast (es : List LeafExtent) (block i : ℕ) : Type 0 where
  pub inside : i < length es
  pub low : (j : ℕ) → 0 < j → j ≤ i → (entry_at es j).ee_block ≤ block
  pub high : (j : ℕ) → i < j → j < length es → block < (entry_at es j).ee_block

pub IsLast-unique :
    (es : List LeafExtent) (block i j : ℕ) → IsLast es block i → IsLast es block j → i ≡ j
IsLast-unique es block i j a b = elim (Bool-cases (ltb i j)) [
  | inl less ↦
      let h = ltb→lt i j less in
      absurd (omega (arith, a.high j h b.inside, b.low j (omega (arith, h)) (omega arith)))
  | inr not_less ↦ elim (Bool-cases (ltb j i)) [
    | inl more ↦
        let h = ltb→lt j i more in
        absurd (omega (arith, b.high i h a.inside, a.low i (omega (arith, h)) (omega arith)))
    | inr not_more ↦ omega (arith, ltb→le i j not_less, ltb→le j i not_more)
  ]
]

binsearch_loop-IsLast :
    (from : ℕ) (es : List LeafExtent) (block : ℕ)
    → IsSorted from es
    → (fuel l r : ℕ) → 0 < l
    → l ≤ suc r
    → r < length es
    → r < fuel + l
    → ((j : ℕ) → 0 < j → j < l → (entry_at es j).ee_block ≤ block)
    → ((j : ℕ) → r < j → j < length es → block < (entry_at es j).ee_block)
    → IsLast es block (binsearch_loop fuel es block l r)
unfolding binsearch_loop
binsearch_loop-IsLast from es block s zero l r h0 h1 h2 h3 low high = record {
  inside = omega (arith, h0, h1, h2);
  low = λ j p q. low j p (omega (arith, q, h0));
  high = λ j p q. high j (omega (arith, p, h1, h3)) q;
}
binsearch_loop-IsLast from es block s (suc fuel) l r h0 h1 h2 h3 low high =
    let m = l + (r - l) / 2 in
    elim (Bool-cases (leb l r)) [
      | inr done ↦ rw done (record {
        inside = omega (arith, h0, h1, h2);
        low = λ j p q. low j p (omega (arith, q, h0));
        high = λ j p q. high j (ground (arith, done, p, h1)) q;
      })
      | inl more ↦
          let le : l ≤ r = ground (arith, more) in
          elim (Bool-cases (ltb block (entry_at es m).ee_block)) [
            | inl left ↦
                rw (more, left)
                  (binsearch_loop-IsLast from es block s fuel l (m - 1) h0 (omega (arith, le))
                    (omega (arith, le, h0, h2)) (omega (arith, le, h0, h3)) low
                    (λ j p q. elim (Bool-cases (ltb m j)) [
                      | inl far ↦ omega (
                        arith,
                        ltb→lt block (entry_at es m).ee_block left,
                        (entry_at-apart from es m j s (ltb→lt m j far) q).1,
                      )
                      | inr near ↦
                          let same : j ≡ m = omega (arith, p, ltb→le m j near) in
                          rw same (ltb→lt block (entry_at es m).ee_block left)
                    ]))
            | inr right ↦
                rw (more, right)
                  (binsearch_loop-IsLast from es block s fuel (m + 1) r (omega arith)
                    (omega (arith, le)) h2 (omega (arith, le, h3))
                    (λ j p q. elim (Bool-cases (ltb j m)) [
                      | inl near ↦ omega (
                        arith,
                        ltb→le block (entry_at es m).ee_block right,
                        (entry_at-apart from es j m s (ltb→lt j m near) (omega (arith, le, h2))).1,
                      )
                      | inr far ↦
                          let same : j ≡ m = omega (arith, q, ltb→le j m far) in
                          rw same (ltb→le block (entry_at es m).ee_block right)
                    ])
                    high)
          ]
    ]

-- The scan stops in front of the first entry behind the block.
check_loop-IsLast :
    (from : ℕ) (all es : List LeafExtent) (block k chex : ℕ)
    → IsSorted from all
    → k ≡ chex + 1
    → k + length es ≡ length all
    → ((j : ℕ) → entry_at es j ≡ entry_at all (k + j))
    → ((j : ℕ) → 0 < j → j ≤ chex → (entry_at all j).ee_block ≤ block)
    → IsLast all block (check_loop es block k chex)
unfolding check_loop
check_loop-IsLast from all [] block k chex s h len suffix low = record {
  inside = omega (arith, h, len);
  low = low;
  high = λ j p q. absurd (omega (arith, h, len, p, q));
}
check_loop-IsLast from all (e ∷ es) block k chex s h len suffix low =
    let k0 : k + 0 ≡ k = omega arith in
    let first : e ≡ entry_at all k = rw k0 at (suffix 0) in
    elim (Bool-cases (ltb block e.ee_block)) [
      | inl stop ↦
          let behind : block < (entry_at all k).ee_block =
            rw first at (ltb→lt block e.ee_block stop) in
          rw stop (record {
            inside = omega (arith, h, len);
            low = low;
            high = λ j p q. elim (Bool-cases (ltb k j)) [
              | inl far ↦
                  omega (arith, behind, (entry_at-apart from all k j s (ltb→lt k j far) q).1)
              | inr near ↦ let same : j ≡ k = omega (arith, h, p, ltb→le k j near) in rw same behind
            ];
          })
      | inr more ↦ rw more (
          check_loop-IsLast from all es block (k + 1) k s refl (omega (arith, len))
            (λ j. let at : k + suc j ≡ k + 1 + j = omega arith in rw at at (suffix (suc j)))
            (λ j p q. elim (Bool-cases (ltb chex j)) [
              | inl new ↦
                  let same : j ≡ k = omega (arith, h, q, ltb→lt chex j new) in
                  rw (same, sym first) (ltb→le block e.ee_block more)
              | inr old ↦ low j p (ltb→le chex j old)
            ]))
    ]

check_loop-IsLast_start :
    (from : ℕ) (e : LeafExtent) (es : List LeafExtent) (block : ℕ)
    → IsSorted from (e ∷ es)
    → IsLast (e ∷ es) block (check_loop (e ∷ es) block 0 0)
unfolding check_loop
check_loop-IsLast_start from e es block s = elim (Bool-cases (ltb block e.ee_block)) [
  | inl stop ↦ rw stop (record {
    inside = omega arith;
    low = λ j p q. absurd (omega (arith, p, q));
    high = λ j p q.
        omega (arith, ltb→lt block e.ee_block stop, (entry_at-apart from (e ∷ es) 0 j s p q).1);
  })
  | inr more ↦ rw more (
      check_loop-IsLast from (e ∷ es) es block 1 0 s refl (omega arith)
        (λ j. let at : 1 + j ≡ suc j = omega arith in rw at refl)
        (λ j p q. absurd (omega (arith, p, q))))
]

-- The first and the last index that the search starts with.
pub binsearch_loop-IsLast_start :
    (from : ℕ) (e : LeafExtent) (es : List LeafExtent) (block : ℕ)
    → IsSorted from (e ∷ es)
    → IsLast (e ∷ es) block (binsearch_loop (length (e ∷ es)) (e ∷ es) block 1 (length es))
binsearch_loop-IsLast_start from e es block s =
    binsearch_loop-IsLast from (e ∷ es) block s (length (e ∷ es)) 1 (length es) (omega arith)
      (omega arith) (omega arith) (omega arith) (λ j p q. absurd (omega (arith, p, q)))
      (λ j p q. absurd (omega (arith, p, q)))

-- On entries in order and without overlap, as many rounds as there are entries are enough for the
-- binary search, and it finds the entry that the scan of `CHECK_BINSEARCH` from the first entry on finds.
pub ext4_ext_binsearch-check_loop :
    (from : ℕ) (e : LeafExtent) (es : List LeafExtent) (block : ℕ)
    → IsSorted from (e ∷ es)
    → ext4_ext_binsearch (e ∷ es) block ≡ some (check_loop (e ∷ es) block 0 0)
unfolding ext4_ext_binsearch
ext4_ext_binsearch-check_loop from e es block s = ap some (
    IsLast-unique (e ∷ es) block (binsearch_loop (length (e ∷ es)) (e ∷ es) block 1 (length es))
      (check_loop (e ∷ es) block 0 0) (binsearch_loop-IsLast_start from e es block s)
      (check_loop-IsLast_start from e es block s))
