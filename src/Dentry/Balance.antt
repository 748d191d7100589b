-- ===== src/Dentry/Balance.antt =====
-- What `evfs_dentry_add` (evfs.c) holds and gives back.
use linux_evfs.Base.{◌-◌, ◌≡◌, refl, sym, ap, ◌∙◌, arith}
use linux_evfs.Base.Int.{ℤ}
use linux_evfs.Tracker.{Run, done, oops}
use linux_evfs.Ioctl.{DeAddIn}
use linux_evfs.Dentry.{
  Held, AddKernel, release_pino, release_pde, release_cino, release_cde, add_child, evfs_dentry_add,
}

module _ {X : Type 0} (k : AddKernel X) where
  abbrev rest : Held → Run (ℤ × Held × X) → Held
  rest d oops = d
  rest d (done (ret, h, x)) = h

  add_child-held :
      (d : Held) (a : DeAddIn) (h : Held) (x : X)
      → d ≡ record h {
        dir_refs = h.dir_refs - 1;
        dir_locks = h.dir_locks - 1;
        parent_dentries = h.parent_dentries - 1;
      }
      → rest d (add_child k a h x) ≡ d
  unfolding add_child release_cde release_cino release_pde release_pino
  add_child-held d a h x eq = grind arith

  evfs_dentry_add-rest :
      (d : Held) (a : DeAddIn) (h : Held) (x : X) → d ≡ h → rest d (evfs_dentry_add k a h x) ≡ d
  unfolding evfs_dentry_add release_pino
  evfs_dentry_add-rest d a h x eq = grind (arith, add_child-held)

  -- However the calls end, `evfs_dentry_add` leaves the counts of references, locks and dentries that are
  -- held as they were, if it returns.
  pub evfs_dentry_add-held :
      (a : DeAddIn) (h h' : Held) (x x' : X) (ret : ℤ)
      → evfs_dentry_add k a h x ≡ done (ret, h', x')
      → h' ≡ h
  evfs_dentry_add-held a h h' x x' ret eq = ap (rest h) (sym eq) ∙ evfs_dentry_add-rest h a h x refl
