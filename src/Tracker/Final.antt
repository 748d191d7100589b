-- ===== src/Tracker/Final.antt =====
-- The loop of `evfs_bm_tracker_final` (evfs-bmt.c).
use linux_evfs.Base.{
  ℕ, zero, suc, ◌+◌, ◌≤◌, ◌≡◌, refl, ◌∙◌, inl, inr, ◌&&◌, none, some, List, [], ◌∷◌, arith, length,
  get_or, ltb, leb, ◌==◌, if◌then◌else◌, Bool-cases, get_or-set_default, set-undo,
}
use linux_evfs.Base.Errno
use linux_evfs.Base.Int.{pos}
use linux_evfs.Tracker.Kernel.{Rwsem}
use linux_evfs.Tracker.{EvfsBmTracker, is_some, final_round, final_loop, evfs_bm_tracker_final}
use linux_evfs.Tracker.Valid.{IsValid}

module _ {S : Type 0} (k : Rwsem S) where
  final_round-rwsems : (i : ℕ) (t : EvfsBmTracker S) → (final_round k i t).rwsems ≡ t.rwsems
  unfolding final_round
  final_round-rwsems i t = elim (Bool-cases (is_some (get_or t.bitmaps i none))) [
    | inl e ↦ rw e (set-undo k.down_write k.up_write k.init_rwsem k.up-down_write t.rwsems i)
    | inr e ↦ rw e (set-undo k.down_write k.up_write k.init_rwsem k.up-down_write t.rwsems i)
  ]

  final_round-bitmaps :
      (i j : ℕ) (t : EvfsBmTracker S)
      → get_or (final_round k i t).bitmaps j none
        ≡ (if j == i then none else get_or t.bitmaps j none)
  unfolding final_round
  final_round-bitmaps i j t = ground (arith, get_or-set_default t.bitmaps i j none)

  final_loop-rwsems : (n i : ℕ) (t : EvfsBmTracker S) → (final_loop k n i t).rwsems ≡ t.rwsems
  unfolding final_loop
  final_loop-rwsems zero i t = refl
  final_loop-rwsems (suc n) i t =
      final_loop-rwsems n (i + 1) (final_round k i t) ∙ final_round-rwsems i t

  final_loop-bitmaps :
      (n i j : ℕ) (t : EvfsBmTracker S)
      → get_or (final_loop k n i t).bitmaps j none
        ≡ (if leb i j && ltb j (i + n) then none else get_or t.bitmaps j none)
  unfolding final_loop
  final_loop-bitmaps zero i j t = ground arith
  final_loop-bitmaps (suc n) i j t =
      ground (arith, final_loop-bitmaps n (i + 1) j (final_round k i t), final_round-bitmaps i j t)

get_or-past {ℓ} : {A : Type ℓ} (xs : List A) (i : ℕ) (d : A) → length xs ≤ i → get_or xs i d ≡ d
get_or-past [] i d h = refl
get_or-past (x ∷ xs) zero d h = absurd (omega arith)
get_or-past (x ∷ xs) (suc i) d h = get_or-past xs i d (omega arith)

-- Given a valid tracker, the function returns 0. When it releases the tracker's own memory no
-- bitmap is left allocated, and every semaphore is as it was found. A null pointer is refused with
-- `-EFAULT`.
pub evfs_bm_tracker_final_lem :
    {S : Type 0} (k : Rwsem S) (t : EvfsBmTracker S)
    → IsValid t
    → ((t' : EvfsBmTracker S) × (evfs_bm_tracker_final k (some t) ≡ (pos 0, some t'))
        × ((n : ℕ) → get_or t'.bitmaps n none ≡ none)
        × (t'.rwsems ≡ t.rwsems))
      × (evfs_bm_tracker_final k none ≡ (Errno.efault, none))
unfolding evfs_bm_tracker_final
evfs_bm_tracker_final_lem k t v = (
  (
    final_loop k t.num_bitmaps 0 t,
    refl,
    λ n. ground (
      arith,
      final_loop-bitmaps k t.num_bitmaps 0 n t,
      get_or-past t.bitmaps n none,
      v.bitmaps_len,
    ),
    final_loop-rwsems k t.num_bitmaps 0 t,
  ),
  refl,
)
