-- ===== src/Dentry/Update/Found.antt =====
-- The loop of `evfs_dentry_update` (evfs.c), and the places of the entries in use.
use linux_evfs.Base.{
  ℕ, zero, suc, ◌+◌, ◌-◌, ◌≤◌, ◌<◌, ◌≡◌, not, Option, none, some, List, [], ◌∷◌, arith, get_elem?,
  ltb, le→ltb, ◌==◌, if◌then◌else◌,
}
use linux_evfs.Track.{TrackEnv}
use linux_evfs.Dentry.{DirEntry}
use linux_evfs.Dentry.Update.{UpdateKernel, end_offset, update_loop}

nth-skip :
    (o : ℕ) (xs : List ℕ) (target count : ℕ)
    → count < target
    → get_elem? (o ∷ xs) (target - count) ≡ get_elem? xs (target - (count + 1))
nth-skip o xs target count h =
    let next : target - count ≡ suc (target - (count + 1)) = omega arith in rw next

nth-here :
    (o : ℕ) (xs : List ℕ) (target count : ℕ)
    → count ≡ target
    → get_elem? (o ∷ xs) (target - count) ≡ some o
nth-here o xs target count h = let here : target - count ≡ 0 = omega arith in rw here

module _ {S : Type 0} (k : UpdateKernel) (v : TrackEnv S) (entry_at : ℕ → DirEntry) where
  -- The offsets of the entries in use from an offset on.
  unfoldable pub slots : ℕ → ℕ → List ℕ
  slots zero offset = []
  slots (suc n) offset =
      let e = entry_at offset in
      let rest = slots n (offset + e.rec_len) in
      if not (ltb offset (end_offset k v))
      then []
      else if e.rec_len == 0
      then []
      else if e.inode == 0
      then rest
      else offset ∷ rest

  -- The offset at which a walk over all entries ends.
  pub last_offset : ℕ → ℕ → ℕ
  last_offset zero offset = offset
  last_offset (suc n) offset =
      let e = entry_at offset in
      let rest = last_offset n (offset + e.rec_len) in
      if not (ltb offset (end_offset k v)) then offset else if e.rec_len == 0 then offset else rest

  abbrev pub place : Option ℕ → ℕ → ℕ × Option ℕ
  place none last = (last, none)
  place (some o) last = (o, some (entry_at o).inode)

  pub update_loop-place :
      (target n offset count : ℕ)
      → end_offset k v ≤ offset + n
      → count ≤ target
      → update_loop k v entry_at target (suc n) offset count
        ≡ some
            (place (get_elem? (slots (suc n) offset) (target - count)) (last_offset (suc n) offset))
  unfolding update_loop slots last_offset
  update_loop-place target zero offset count h c = rw (le→ltb offset (end_offset k v) (omega arith))
  update_loop-place target (suc n) offset count h c =
      let e = entry_at offset in
      ground (
        arith,
        update_loop-place target n (offset + e.rec_len) count,
        update_loop-place target n (offset + e.rec_len) (count + 1),
        nth-here offset (slots (suc n) (offset + e.rec_len)) target count,
        nth-skip offset (slots (suc n) (offset + e.rec_len)) target count,
      )
