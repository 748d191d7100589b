-- ===== src/Dir/Link/Back.antt =====
-- `__ext4_link` and then `__ext4_unlink` (namei.c) of one name.
use linux_evfs.Base.{
  ℕ, suc, ◌+◌, ◌%◌, ◌^◌, ◌≤◌, ◌<◌, ◌≡◌, sym, ap, ◌∙◌, true, false, Option, none, some, List, ◌∷◌,
  arith, length,
}
use mathlib.Core.List.{Perm, perm_middle}
use mathlib.Core.List.Perm
use linux_evfs.Base.Int.{ℤ, pos}
use linux_evfs.Dentry.{DirEntry}
use linux_evfs.DirBlock.{DirKernel, ext4_match}
use linux_evfs.Dir.Put.{names}
use linux_evfs.Dir.Names.{Gains}
use linux_evfs.Dir.Link.{LinkState, LinkKernel, inc_nlink, ext4_link, ext4_unlink}
use linux_evfs.Dir.Link.Outcome.{
  IsSound, IsLinked, Linking, refused, undone, linked, ext4_link-Ends,
}
use linux_evfs.Dir.Link.Searched.{BlocksLong}
use linux_evfs.Dir.Link.Unlink.{IsUnlinked, Loses, Unlinking, broken, unlinked, ext4_unlink-EndsAs}

Gains-Perm :
    {name : List ℕ} {ino : ℕ} {ns ns' : List (List ℕ × ℕ)}
    → Gains name ino ns ns'
    → Perm ns' ((name, ino) ∷ ns)
Gains-Perm g = rw (g.old, g.new) (perm_middle g.left g.right)

-- A call that returns 0 did what it is for.
Linking-zero :
    {k : ℕ → LinkKernel} {fname : List ℕ} {n : ℕ} {s t : LinkState} {err : ℤ}
    → err ≡ pos 0
    → Linking k fname n s t err
    → Gains fname n (names s.dir.blocks) (names t.dir.blocks) × IsLinked s t
Linking-zero zero_ret (refused fails same p) = absurd (ground (arith, fails, zero_ret))
Linking-zero zero_ret (undone fails ended gains p) = absurd (ground (arith, fails, zero_ret))
Linking-zero zero_ret (linked attempt marked ended gains p) = (gains, p)

Unlinking-zero :
    {k : LinkKernel} {fname : List ℕ} {n : ℕ} {s t : LinkState} {err : ℤ}
    → err ≡ pos 0
    → Unlinking k fname n s t err
    → Loses k.block fname n s t × IsUnlinked k.ext4_orphan_add s t
Unlinking-zero zero_ret (Unlinking.refused fails same p) = absurd (ground (arith, fails, zero_ret))
Unlinking-zero zero_ret (broken fails loses p) = absurd (ground (arith, fails, zero_ret))
Unlinking-zero zero_ret (unlinked loses p) = (loses, p)

-- The same entry goes that came: by the name and the inode's number.
Gains-Loses :
    (k : DirKernel) (fname : List ℕ) (ino : ℕ) (s t u : LinkState)
    → ((e : DirEntry) → ext4_match k fname e ≡ true → e.name ≡ fname)
    → Gains fname ino (names s.dir.blocks) (names t.dir.blocks)
    → Loses k fname ino t u
    → Perm (names u.dir.blocks) (names s.dir.blocks)
Gains-Loses k fname ino s t u exact g l =
    let name : l.entry.name ≡ fname = exact l.entry l.matches in
    let gone : Gains fname ino (names u.dir.blocks) (names t.dir.blocks) =
      rw (name, l.inode) at l.lost in
    Perm.cons_inv (Perm.trans (Perm.symm (Gains-Perm gone)) (Gains-Perm g))

abbrev ret_of : Option (ℤ × LinkState) → ℤ
ret_of none = pos 0
ret_of (some r) = r.0

abbrev after_of : LinkState → Option (ℤ × LinkState) → LinkState
after_of s none = s
after_of s (some r) = r.1

inc_nlink_lem : (n : ℕ) → n + 1 < 2 ^ 32 → inc_nlink n ≡ n + 1
unfolding inc_nlink
inc_nlink_lem n h = omega (arith, h)

module _ (k : ℕ → LinkKernel) (calls : LinkKernel) (fname : List ℕ) (ino mode : ℕ)
    (s t u : LinkState) where
  link_zero :
      (n : ℕ)
      → ((a : ℕ) → IsSound (k a))
      → ((a : ℕ) → n ≤ a → (k a).ext4_should_retry_alloc ≡ false)
      → length fname ≤ 255
      → 0 < ino % 2 ^ 32
      → s.i_nlink < 2 ^ 32
      → ext4_link k 0 (suc n) fname ino mode s ≡ some (pos 0, t)
      → Gains fname (ino % 2 ^ 32) (names s.dir.blocks) (names t.dir.blocks) × IsLinked s t
  link_zero n sound stops short used small link =
      let e =
        ext4_link-Ends fname ino mode short used k sound n 0 s (λ a le. stops a (omega (arith, le)))
          small in
      let same : some (e.ret, e.after) ≡ some (pos 0, t) = sym e.runs ∙ link in
      Linking-zero (ap ret_of same) (rw (ap (after_of s) same) at e.outcome)

  unlink_zero :
      (fuel : ℕ)
      → ((b m : ℕ) → calls.walk.ext4_bread_batch b m ≡ pos 0)
      → calls.fc_replay ≡ false
      → 1 ≤ fuel
      → length t.dir.blocks ≤ fuel
      → BlocksLong t.dir.blocks
      → t.i_nlink < 2 ^ 32
      → ext4_unlink calls fuel fname ino t ≡ some (pos 0, u)
      → Loses calls.block fname ino t u × IsUnlinked calls.ext4_orphan_add t u
  unlink_zero fuel reads live_mount one enough long small unlink =
      let e = ext4_unlink-EndsAs calls fname ino fuel t reads one enough long live_mount small in
      let same : some (e.ret, e.after) ≡ some (pos 0, u) = sym e.runs ∙ unlink in
      Unlinking-zero (ap ret_of same) (rw (ap (after_of t) same) at e.outcome)

  -- When `__ext4_link` returns 0 for a name of an inode, and then `__ext4_unlink` returns 0 for the
  -- same name of the inode, the directory has the names in use that it had before, up to their
  -- order, and the inode has as many links as before. Names match only if they are equal, the
  -- inode's number and its links fit 32 bits, and what the two calls rely on holds.
  pub ext4_unlink-ext4_link :
      (n fuel : ℕ)
      → ((a : ℕ) → IsSound (k a))
      → ((a : ℕ) → n ≤ a → (k a).ext4_should_retry_alloc ≡ false)
      → length fname ≤ 255
      → 0 < ino
      → ino < 2 ^ 32
      → s.i_nlink + 1 < 2 ^ 32
      → ((b m : ℕ) → calls.walk.ext4_bread_batch b m ≡ pos 0)
      → calls.fc_replay ≡ false
      → ((e : DirEntry) → ext4_match calls.block fname e ≡ true → e.name ≡ fname)
      → 1 ≤ fuel
      → length t.dir.blocks ≤ fuel
      → BlocksLong t.dir.blocks
      → ext4_link k 0 (suc n) fname ino mode s ≡ some (pos 0, t)
      → ext4_unlink calls fuel fname ino t ≡ some (pos 0, u)
      → Perm (names u.dir.blocks) (names s.dir.blocks) × (u.i_nlink ≡ s.i_nlink)
  ext4_unlink-ext4_link n fuel sound stops short used fits small reads live_mount exact one enough
        long link unlink =
      let whole : ino % 2 ^ 32 ≡ ino = omega (arith, fits) in
      let added =
        link_zero n sound stops short (omega (arith, used, fits)) (omega (arith, small)) link in
      let up : t.i_nlink ≡ s.i_nlink + 1 = added.1.i_nlink ∙ inc_nlink_lem s.i_nlink small in
      let removed =
        unlink_zero fuel reads live_mount one enough long (omega (arith, up, small)) unlink in
      (
        Gains-Loses calls.block fname ino s t u exact (rw whole at added.0) removed.0,
        omega (arith, removed.1.i_nlink, up),
      )
