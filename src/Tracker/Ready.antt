-- ===== src/Tracker/Ready.antt =====
-- The first half of `evfs_bit_wrapper` (evfs-bmt.c), with what other threads do in between.
use linux_evfs.Base.{
  ℕ, ◌/◌, ◌%◌, ◌<◌, ◌≡◌, refl, ap, ◌∙◌, inl, inr, Bool, true, false, Option, none, some, List,
  arith, length, get_or, set, ◌==◌, if◌then◌else◌, Bool-cases, Option-cases, length-set,
  length-replicate, get_or-set, get_or-set_self, get_or-replicate, set-undo, set-compose, ==_iff,
}
use linux_evfs.Base.Int.{ℤ}
use linux_evfs.Tracker.Kernel.{Rwsem}
use linux_evfs.Tracker.{
  EvfsBitmap, EvfsBitop, EvfsBmTracker, done, bits_per_bm, is_some, zeroed, on_rwsem, evfs_bm_test,
  evfs_bm_alloc, ensure_bitmap, run_bitop,
}
use linux_evfs.Tracker.Valid.{IsValid, bit_of, tracked}

-- `op` returns `result old` for the old value of the bit, and makes the bit `v`.
abbrev pub Writes : EvfsBitop → Bool → (Bool → ℤ) → Type 0
Writes op v result =
    (n : ℕ) (b : EvfsBitmap)
    → n < length b.words
    → run_bitop op n (some b)
      ≡ done (result (get_or b.words n false), record { words = set b.words n v })

pub absent : (b : Option EvfsBitmap) → is_some b ≡ false → b ≡ none
absent none e = refl
absent (some b) e = cc

module _ {S : Type 0} (k : Rwsem S) where
  -- What the other threads may do while this one holds no lock: they keep the tracker valid,
  -- and the semaphores and the size stay as they were.
  pub record Keeps (others : EvfsBmTracker S → EvfsBmTracker S) : Type 0 where
    pub valid : (t : EvfsBmTracker S) → IsValid t → IsValid (others t)
    pub rwsems : (t : EvfsBmTracker S) → (others t).rwsems ≡ t.rwsems
    pub size : (t : EvfsBmTracker S) → (others t).num_bitmaps ≡ t.num_bitmaps

  -- The tracker on which the operation takes effect: the other threads have run before it if the
  -- bitmap had to be allocated.
  unfoldable pub settled :
      (EvfsBmTracker S → EvfsBmTracker S) → EvfsBmTracker S → ℕ → EvfsBmTracker S
  settled others t n = if evfs_bm_test k t n then t else others t

  -- What the first half of the function leaves for the second: bitmap `n` is there, semaphore `n`
  -- is held by a reader, and the set is that of `u`.
  pub record IsReady (u r : EvfsBmTracker S) (n : ℕ) : Type 0 where
    pub bitmap : EvfsBitmap
    pub here : get_or r.bitmaps n none ≡ some bitmap
    pub bitmaps_len : length r.bitmaps ≡ u.num_bitmaps
    pub size : r.num_bitmaps ≡ u.num_bitmaps
    pub sems : (on_rwsem k k.up_read n r).rwsems ≡ u.rwsems
    pub whole :
        (j : ℕ) (b : EvfsBitmap) → get_or r.bitmaps j none ≡ some b → length b.words ≡ bits_per_bm
    pub same : (j : ℕ) → tracked r j ≡ tracked u j

  on_rwsem_undo :
      (f g : S → S)
      → ((s : S) → g (f s) ≡ s)
      → (t : EvfsBmTracker S) (n : ℕ) → on_rwsem k g n (on_rwsem k f n t) ≡ t
  on_rwsem_undo f g undo t n =
      ap (λ sems. record t { rwsems = sems }) (set-undo f g k.init_rwsem undo t.rwsems n)

  pub IsReady-allocated :
      (t : EvfsBmTracker S) (n : ℕ)
      → IsValid t
      → is_some (get_or t.bitmaps n none) ≡ true
      → IsReady t (on_rwsem k k.down_read n t) n
  IsReady-allocated t n v e = elim (Option-cases (get_or t.bitmaps n none)) [
    | inl e' ↦ ground arith
    | inr (b, e') ↦ record {
      bitmap = b;
      here = e';
      bitmaps_len = v.bitmaps_len;
      size = refl;
      sems = set-undo k.down_read k.up_read k.init_rwsem k.up-down_read t.rwsems n;
      whole = v.whole;
      same = λ j. refl;
    }
  ]

  -- The write lock, its downgrade and the release of the read lock leave the semaphore as it was.
  sems_after_downgrade :
      (sems : List S) (n : ℕ)
      → let f = λ (sems : List S). set sems n (k.downgrade_write (get_or sems n k.init_rwsem)) in
        let held = f (set sems n (k.down_write (get_or sems n k.init_rwsem))) in
        set held n (k.up_read (get_or held n k.init_rwsem)) ≡ sems
  sems_after_downgrade sems n =
      rw (set-compose k.down_write k.downgrade_write k.init_rwsem sems n) (
        set-undo (λ s. k.downgrade_write (k.down_write s)) k.up_read k.init_rwsem k.up-downgrade
          sems n)

  -- The bitmaps of a tracker behind the write lock and its downgrade.
  downgraded : EvfsBmTracker S → ℕ → List (Option EvfsBitmap) → EvfsBmTracker S
  downgraded u n bitmaps =
      on_rwsem k k.downgrade_write n (record (on_rwsem k k.down_write n u) { bitmaps = bitmaps })

  IsReady-found :
      (u : EvfsBmTracker S) (n : ℕ) (b : EvfsBitmap)
      → IsValid u
      → get_or u.bitmaps n none ≡ some b
      → IsReady u (downgraded u n u.bitmaps) n
  unfolding downgraded
  IsReady-found u n b v e = record {
    bitmap = b;
    here = e;
    bitmaps_len = v.bitmaps_len;
    size = refl;
    sems = sems_after_downgrade u.rwsems n;
    whole = v.whole;
    same = λ j. refl;
  }

  pub whole-set :
      (bs : List (Option EvfsBitmap)) (n j : ℕ) (c b : EvfsBitmap)
      → ((i : ℕ) (d : EvfsBitmap) → get_or bs i none ≡ some d → length d.words ≡ bits_per_bm)
      → n < length bs
      → length c.words ≡ bits_per_bm
      → get_or (set bs n (some c)) j none ≡ some b
      → length b.words ≡ bits_per_bm
  whole-set bs n j c b whole h full e = elim (Bool-cases (j == n)) [
    | inl same ↦ ground (arith, get_or-set bs n j (some c) none)
    | inr other ↦ whole j b (ground (arith, get_or-set bs n j (some c) none))
  ]

  pub tracked-set :
      (u : EvfsBmTracker S) (n j : ℕ) (c : EvfsBitmap)
      → n < length u.bitmaps
      → bit_of (get_or (set u.bitmaps n (some c)) (j / bits_per_bm) none) (j % bits_per_bm)
        ≡ (if j / bits_per_bm == n then get_or c.words (j % bits_per_bm) false else tracked u j)
  tracked-set u n j c h =
      rw (get_or-set u.bitmaps n (j / bits_per_bm) (some c) none h)
        (elim (Bool-cases (j / bits_per_bm == n)) [ inl same ↦ rw same | inr other ↦ rw other ])

  tracked-fresh :
      (u : EvfsBmTracker S) (n j : ℕ)
      → n < length u.bitmaps
      → get_or u.bitmaps n none ≡ none
      → bit_of (get_or (set u.bitmaps n (some zeroed)) (j / bits_per_bm) none) (j % bits_per_bm)
        ≡ tracked u j
  tracked-fresh u n j h e = tracked-set u n j zeroed h ∙ (elim (Bool-cases (j / bits_per_bm == n)) [
    | inl same ↦
        let e' : j / bits_per_bm ≡ n = (==_iff _ _).0 same in
        rw (same, e', e) (get_or-replicate bits_per_bm (j % bits_per_bm) false)
    | inr other ↦ rw other
  ])

  IsReady-new :
      (u : EvfsBmTracker S) (n : ℕ)
      → IsValid u
      → n < u.num_bitmaps
      → get_or u.bitmaps n none ≡ none
      → IsReady u (downgraded u n (set u.bitmaps n (some zeroed))) n
  unfolding downgraded
  IsReady-new u n v h e =
      let h' : n < length u.bitmaps = rw v.bitmaps_len h in
      record {
        bitmap = zeroed;
        here = get_or-set_self u.bitmaps n (some zeroed) none h';
        bitmaps_len = length-set u.bitmaps n (some zeroed) ∙ v.bitmaps_len;
        size = refl;
        sems = sems_after_downgrade u.rwsems n;
        whole = λ j b e'.
            whole-set u.bitmaps n j zeroed b v.whole h' (length-replicate bits_per_bm false) e';
        same = λ j. tracked-fresh u n j h' e;
      }

  module _ (others : EvfsBmTracker S → EvfsBmTracker S) (o : Keeps others) (t : EvfsBmTracker S)
      (n : ℕ) (v : IsValid t) (h : n < t.num_bitmaps) where
    pub ensure_bitmap-IsReady :
        get_or t.bitmaps n none ≡ none
        → IsReady (others t) (ensure_bitmap k others true n (on_rwsem k k.down_read n t)) n
    unfolding ensure_bitmap evfs_bm_test evfs_bm_alloc downgraded
    ensure_bitmap-IsReady e =
        let v' = o.valid t v in
        let h' : n < (others t).num_bitmaps = rw (o.size t) h in
        rw (on_rwsem_undo k.down_read k.up_read k.up-down_read t n)
          (elim (Option-cases (get_or (others t).bitmaps n none)) [
            | inl e' ↦ rw e' (IsReady-new (others t) n v' h' e')
            | inr (b, e') ↦ rw e' (IsReady-found (others t) n b v' e')
          ])
