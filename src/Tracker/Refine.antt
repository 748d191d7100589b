-- ===== src/Tracker/Refine.antt =====
-- `evfs_bit_wrapper` (evfs-bmt.c) and operations on a set of numbers.
use linux_evfs.Base.{
  ℕ, ◌*◌, ◌/◌, ◌%◌, ◌≤◌, ◌<◌, ◌≡◌, refl, sym, ap, ◌∙◌, inl, inr, Bool, true, false, Option, none,
  some, arith, length, get_or, set, ◌==◌, if◌then◌else◌, Bool-cases, length-set, get_or-set, le→leb,
  lt→leb,
}
use linux_evfs.Base.Int.{ℤ}
use linux_evfs.Base.Errno
use linux_evfs.Tracker.Kernel.{Rwsem}
use linux_evfs.Tracker.{
  EvfsBitmap, EvfsBitop, EvfsBmTracker, done, oops, bits_per_bm, is_some, on_rwsem, evfs_bm_test,
  evfs_bm_alloc, ensure_bitmap, run_bitop, finish, evfs_bit_wrapper,
}
use linux_evfs.Tracker.Valid.{IsValid, bit_of, tracked}
use linux_evfs.Tracker.Ready.{
  Writes, Keeps, settled, IsReady, IsReady-allocated, ensure_bitmap-IsReady, tracked-set, whole-set,
  absent,
}

module _ {S : Type 0} (k : Rwsem S) where
  -- The second half of the function, from a tracker that is ready.
  record IsDone (op : EvfsBitop) (w : Bool) (result : Bool → ℤ) (nr : ℕ) (u r : EvfsBmTracker S)
      : Type 0 where
    after : EvfsBmTracker S
    returned :
        finish k
          (nr / bits_per_bm)
          r
          (run_bitop op (nr % bits_per_bm) (get_or r.bitmaps (nr / bits_per_bm) none))
        ≡ done (result (tracked u nr), some after)
    valid : IsValid u → IsValid after
    sems : after.rwsems ≡ u.rwsems
    bits : (j : ℕ) → tracked after j ≡ (if j == nr then w else tracked u j)

  -- Two numbers are one if their bitmaps and their offsets agree.
  bits-split :
      (j nr : ℕ) (w a b c : Bool)
      → (j / bits_per_bm ≡ nr / bits_per_bm → b ≡ c)
      → a ≡ (
          if j / bits_per_bm == nr / bits_per_bm
          then (if j % bits_per_bm == nr % bits_per_bm then w else b)
          else c)
      → a ≡ (if j == nr then w else c)
  bits-split j nr w a b c same e = ground (arith)

  finish-IsDone :
      (op : EvfsBitop) (w : Bool) (result : Bool → ℤ) (nr : ℕ) (u r : EvfsBmTracker S)
      → Writes op w result
      → nr / bits_per_bm < u.num_bitmaps
      → IsReady k u r (nr / bits_per_bm)
      → IsDone op w result nr u r
  unfolding finish
  finish-IsDone op w result nr u r writes h ready =
      let n = nr / bits_per_bm in
      let i = nr % bits_per_bm in
      let b = ready.bitmap in
      let len : length b.words ≡ bits_per_bm = ready.whole n b ready.here in
      let inside : i < length b.words = omega arith in
      let c : EvfsBitmap = record { words = set b.words i w } in
      let h' : n < length r.bitmaps = rw ready.bitmaps_len h in
      let old : tracked u nr ≡ get_or b.words i false =
        sym (ready.same nr) ∙ ap (λ (o : Option EvfsBitmap). bit_of o i) ready.here in
      record {
        after = on_rwsem k k.up_read n (record r { bitmaps = set r.bitmaps n (some c) });
        returned = rw (ready.here, writes i b inside, old);
        valid = λ v. record {
          bitmaps_len = length-set r.bitmaps n (some c) ∙ ready.bitmaps_len ∙ sym ready.size;
          rwsems_len = ap length ready.sems ∙ v.rwsems_len ∙ sym ready.size;
          whole = λ j d e.
              whole-set k r.bitmaps n j c d ready.whole h' (length-set b.words i w ∙ len) e;
        };
        sems = ready.sems;
        bits = λ j.
            bits-split j nr w _ (get_or b.words (j % bits_per_bm) false) (tracked u j)
              (λ e.
                sym (
                  ap (λ (m : ℕ). bit_of (get_or r.bitmaps m none) (j % bits_per_bm)) e
                  ∙ ap (λ (o : Option EvfsBitmap). bit_of o (j % bits_per_bm)) ready.here)
                ∙ ready.same j)
              (tracked-set k r n j c h'
                ∙ rw (get_or-set b.words i (j % bits_per_bm) w false inside, ready.same j));
      }

  module _ (others : EvfsBmTracker S → EvfsBmTracker S) (o : Keeps k others) (t : EvfsBmTracker S)
      (nr : ℕ) (v : IsValid t) (h : nr / bits_per_bm < t.num_bitmaps) (op : EvfsBitop) (w : Bool)
      (result : Bool → ℤ) (writes : Writes op w result) where
    -- On a valid tracker, for a number in range and with memory at hand, the function returns what
    -- the operation says of the old bit of `nr`, makes that bit `w`, changes no other number,
    -- keeps the tracker valid and gives every lock back. If the bitmap had to be allocated, what
    -- other threads did while no lock was held is kept as well.
    pub evfs_bit_wrapper_lem :
        let u = settled k others t (nr / bits_per_bm) in
        (t' : EvfsBmTracker S) × (evfs_bit_wrapper k others true (some t) op nr
          ≡ done (result (tracked u nr), some t'))
        × IsValid t'
        × (t'.rwsems ≡ t.rwsems)
        × ((j : ℕ) → tracked t' j ≡ (if j == nr then w else tracked u j))
    unfolding evfs_bit_wrapper settled evfs_bm_test
    evfs_bit_wrapper_lem = elim (Bool-cases (is_some (get_or t.bitmaps (nr / bits_per_bm) none))) [
      | inl e ↦
          let d =
            finish-IsDone op w result nr t _ writes h
              (IsReady-allocated k t (nr / bits_per_bm) v e) in
          rw e (d.after, rw (lt→leb _ _ h) d.returned, d.valid v, d.sems, d.bits)
      | inr e ↦
          let u = others t in
          let d =
            finish-IsDone op w result nr u _ writes (rw (o.size t) h)
              (ensure_bitmap-IsReady k others o t (nr / bits_per_bm) v h (absent _ e)) in
          rw e (
            d.after,
            rw (lt→leb _ _ h) d.returned,
            d.valid (o.valid t v),
            d.sems ∙ o.rwsems t,
            d.bits,
          )
    ]

  -- A null tracker is refused with `-EFAULT`.
  pub evfs_bit_wrapper-null :
      (others : EvfsBmTracker S → EvfsBmTracker S) (ok : Bool) (op : EvfsBitop) (nr : ℕ)
      → evfs_bit_wrapper k others ok none op nr ≡ done (Errno.efault, none)
  unfolding evfs_bit_wrapper
  evfs_bit_wrapper-null others ok op nr = refl

  -- A number that no bitmap covers is refused with `-EINVAL`, and the tracker is as it was.
  pub evfs_bit_wrapper-refused :
      (others : EvfsBmTracker S → EvfsBmTracker S) (ok : Bool) (t : EvfsBmTracker S)
      (op : EvfsBitop) (nr : ℕ)
      → t.num_bitmaps * bits_per_bm ≤ nr
      → evfs_bit_wrapper k others ok (some t) op nr ≡ done (Errno.einval, some t)
  unfolding evfs_bit_wrapper
  evfs_bit_wrapper-refused others ok t op nr h =
      rw (le→leb t.num_bitmaps (nr / bits_per_bm) (omega arith))

  -- When the bitmap of a number in range is not allocated, no other thread allocates it and the
  -- allocation fails, the function goes on and reads through the null pointer.
  pub evfs_bit_wrapper_oops :
      (t : EvfsBmTracker S) (op : EvfsBitop) (nr : ℕ)
      → nr / bits_per_bm < t.num_bitmaps
      → get_or t.bitmaps (nr / bits_per_bm) none ≡ none
      → evfs_bit_wrapper k (λ u. u) false (some t) op nr ≡ oops
  unfolding evfs_bit_wrapper ensure_bitmap evfs_bm_test evfs_bm_alloc run_bitop finish
  evfs_bit_wrapper_oops t op nr h e = rw (lt→leb _ _ h, e, e)
