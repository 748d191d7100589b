-- ===== src/Extent/Replace.antt =====
-- One call of `__evfs_extent_map` (evfs.c) on a range that is mapped, over the laws of the tree.
use linux_evfs.Base.{
  ℕ, suc, ◌+◌, ◌-◌, ◌^◌, ◌≤◌, ◌<◌, ◌≡◌, refl, sym, ap, ◌∙◌, inl, inr, true, Option, some, arith,
  ltb, if◌then◌else◌, Bool-cases, ltb→lt, ltb→le, ==_refl,
}
use linux_evfs.Base.Int.{pos}
use linux_evfs.Extent.{EvfsExt, Extent, TreeOps, Mapped, no_ext, again, map_round, map_loop}
use linux_evfs.Extent.Map.{
  Fits, remapped, map_round-prefix, map_round-split_left, map_round-split_right,
}
use linux_evfs.Extent.Laws.{within, Covers, TreeLaws, NoErrors}

module _ {T : Type 0} (ops : TreeOps T) (laws : TreeLaws ops) (ok : NoErrors ops laws)
    (curr : EvfsExt) (fits : Fits curr) (room : curr.phy_start + curr.len < 2 ^ 48) where
  open laws use {view, begins, IsTree}

  abbrev lo : ℕ
  lo = curr.log_start

  -- A successful round on `t`: the first `n` blocks of the range are at their new place, the old
  -- place is returned, and the rest is left to do.
  pub record IsSwapped (t : T) (m : Mapped T) : Type 0 where
    pub n : ℕ
    pub nonempty : 0 < n
    pub short : n ≤ curr.len
    pub ret : m.ret ≡ pos 0
    pub log_start : m.curr.log_start ≡ lo
    pub len : m.curr.len ≡ n
    pub old : (i : ℕ) → i < n → view t (lo + i) ≡ some (m.curr.phy_start + i)
    pub next : m.next ≡ (
        if ltb n curr.len
        then record { log_start = lo + n; phy_start = curr.phy_start + n; len = curr.len - n }
        else no_ext)
    pub valid : IsTree m.tree
    pub new :
        (c : ℕ)
        → view m.tree c ≡ (if within lo n c then some (curr.phy_start + (c - lo)) else view t c)

  -- An extent that begins with the range and is not longer.
  module _ (t : T) (ex : Extent) (nb : ℕ) (v : IsTree t) (c : Covers ops view begins t lo ex nb)
      (start : ex.ee_block ≡ lo) (short : ex.actual_len ≤ curr.len) where
    abbrev t1 : T
    t1 = ops.ext4_ext_store_pblock t lo curr.phy_start

    abbrev t2 : T
    t2 = ops.ext4_ext_try_to_merge t1 lo

    abbrev t3 : T
    t3 = (ops.ext4_ext_dirty t2 lo).1

    stored :
        IsTree t1
        × ((b : ℕ)
            → view t1 b
              ≡ (if within lo ex.actual_len b then some (curr.phy_start + (b - lo)) else view t b))
        × (begins t1 lo ≡ true)
    stored = rw start at (laws.store_lem t lo curr.phy_start ex nb v c (omega (arith, room)))

    merged : IsTree t2 × ((b : ℕ) → view t2 b ≡ view t1 b)
    merged = laws.merge_lem t1 lo stored.0 stored.2

    marked : ops.ext4_ext_dirty t2 lo ≡ (pos 0, t3)
    marked = λ i. (ok.dirty_ok t2 lo merged.0 i, t3)

    dirtied : IsTree t3 × ((b : ℕ) → view t3 b ≡ view t2 b)
    dirtied = laws.dirty_lem t2 t3 lo merged.0 marked

    swap_all :
        (f : ℕ)
        → (m : Mapped T) × (map_loop ops (suc f) curr lo curr.len t ≡ some m) × IsSwapped t m
    unfolding map_loop remapped
    swap_all f = (
      _,
      rw (
        map_loop,
        map_round-prefix ops curr fits ex nb t t3 c.here start (omega (arith, c.from, c.to)) short
            marked,
      ),
      record {
        n = ex.actual_len;
        nonempty = omega (arith, c.from, c.to);
        short = short;
        ret = refl;
        log_start = refl;
        len = refl;
        old = λ i h. rw start at (c.mapped i h);
        next = refl;
        valid = dirtied.0;
        new = λ b. dirtied.1 b ∙ merged.1 b ∙ stored.1 b;
      },
    )

  abbrev Done : ℕ → T → Type 0
  Done f t = (m : Mapped T) × (map_loop ops f curr lo curr.len t ≡ some m) × IsSwapped t m

  -- What a round on an equal map does holds on the first map too.
  IsSwapped-view :
      (t t' : T) (m : Mapped T) → ((b : ℕ) → view t' b ≡ view t b) → IsSwapped t' m → IsSwapped t m
  IsSwapped-view t t' m same s = record {
    n = s.n;
    nonempty = s.nonempty;
    short = s.short;
    ret = s.ret;
    log_start = s.log_start;
    len = s.len;
    old = λ i h. sym (same (lo + i)) ∙ s.old i h;
    next = s.next;
    valid = s.valid;
    new = λ b.
        s.new b
        ∙ ap (λ (o : Option ℕ). if within lo s.n b then some (curr.phy_start + (b - lo)) else o)
            (same b);
  }

  Done-again :
      (f : ℕ) (t t' : T)
      → map_round ops curr lo curr.len t ≡ again lo curr.len t'
      → ((b : ℕ) → view t' b ≡ view t b)
      → Done f t'
      → Done (suc f) t
  unfolding map_loop
  Done-again f t t' round same d = (d.0, rw (map_loop, round) d.1, IsSwapped-view t t' d.0 same d.2)

  module _ (t : T) (v : IsTree t) (p : ℕ) (here : view t lo ≡ some p) where
    -- The extent of an aligned tree begins with the range.
    covering_start :
        (ex : Extent) (nb : ℕ)
        → Covers ops view begins t lo ex nb
        → begins t lo ≡ true
        → ex.ee_block ≡ lo
    covering_start ex nb c b = ground (arith, c.from, c.to, c.whole lo)

    swap_exact : (f : ℕ) → begins t lo ≡ true → begins t (lo + curr.len) ≡ true → Done (suc f) t
    swap_exact f b e =
        let (ex, nb, c) = laws.find_lem t lo p v here in
        let start = covering_start ex nb c b in
        swap_all t ex nb v c start (ground (arith, start, c.whole (lo + curr.len), fits.nonempty)) f

  split_at_ok :
      (t : T) (b at : ℕ) (ex : Extent) (nb : ℕ)
      → IsTree t
      → Covers ops view begins t b ex nb
      → ex.ee_block < at
      → at < ex.ee_block + ex.actual_len
      → ops.ext4_force_split_extent_at t at ≡ (pos 0, (ops.ext4_force_split_extent_at t at).1)
  split_at_ok t b at ex nb v c h to =
      λ i. (ok.split_ok t b at ex nb v c h to i, (ops.ext4_force_split_extent_at t at).1)

  -- The range begins where an extent does.
  swap_aligned :
      (f : ℕ) (t : T) (p : ℕ)
      → IsTree t
      → view t lo ≡ some p
      → begins t lo ≡ true
      → Done (suc (suc f)) t
  swap_aligned f t p v here b =
      let (ex, nb, c) = laws.find_lem t lo p v here in
      let start = covering_start t v p here ex nb c b in
      elim (Bool-cases (ltb curr.len ex.actual_len)) [
        | inr short ↦ swap_all t ex nb v c start (ltb→le curr.len ex.actual_len short) (suc f)
        | inl long ↦
            let longer = ltb→lt curr.len ex.actual_len long in
            let t' = (ops.ext4_force_split_extent_at t (lo + curr.len)).1 in
            let h : ex.ee_block < lo + curr.len = omega (arith, start, fits.nonempty) in
            let to : lo + curr.len < ex.ee_block + ex.actual_len = omega (arith, start, longer) in
            let splits = split_at_ok t lo (lo + curr.len) ex nb v c h to in
            let s = laws.split_lem t t' lo (lo + curr.len) ex nb v c h to splits in
            Done-again (suc f) t t'
              (map_round-split_right ops curr fits ex nb t t' c.here start longer c.small splits)
              s.1
              (swap_exact t' s.0 p (s.1 lo ∙ here) f (s.2 lo ∙ ground (arith, b))
                (s.2 (lo + curr.len) ∙ rw (==_refl (lo + curr.len))))
      ]

  -- On a tree that maps the first block of the range, three rounds are enough, and the range or
  -- its first part is swapped.
  pub map_loop-IsSwapped :
      (f : ℕ) (t : T) (p : ℕ)
      → IsTree t
      → view t lo ≡ some p
      → (m : Mapped T) × (map_loop ops (suc (suc (suc f))) curr lo curr.len t ≡ some m)
        × IsSwapped t m
  map_loop-IsSwapped f t p v here =
      let (ex, nb, c) = laws.find_lem t lo p v here in
      elim (Bool-cases (ltb ex.ee_block lo)) [
        | inr aligned ↦
            let start : ex.ee_block ≡ lo = omega (arith, ltb→le ex.ee_block lo aligned, c.from) in
            swap_aligned (suc f) t p v here (rw start at c.starts)
        | inl inside ↦
            let before = ltb→lt ex.ee_block lo inside in
            let t' = (ops.ext4_force_split_extent_at t lo).1 in
            let splits = split_at_ok t lo lo ex nb v c before c.to in
            let s = laws.split_lem t t' lo lo ex nb v c before c.to splits in
            Done-again (suc (suc f)) t t'
              (map_round-split_left ops curr fits ex nb t t' c.here before c.to c.small splits) s.1
              (swap_aligned f t' p s.0 (s.1 lo ∙ here) (s.2 lo ∙ rw (==_refl lo)))
      ]
