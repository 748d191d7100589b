-- ===== src/DirBlock/Delete.antt =====
-- An entry that is deleted from a block of a directory: `ext4_generic_delete_entry` of namei.c.
use linux_evfs.Base.{
  ℕ, ◌+◌, ◌-◌, ◌≡◌, ◌⊎◌, refl, ap, ◌∙◌, inl, inr, true, List, [], ◌∷◌, ◌++◌, arith, ltb, ◌==◌,
  Bool-cases,
}
use linux_evfs.Base.Int.{pos, is_nonzero}
use linux_evfs.Dentry.{DirEntry}
use linux_evfs.DirBlock.{DirKernel, delete_loop, ext4_generic_delete_entry}
use linux_evfs.DirBlock.Insert.{live, size, live-append}

-- The entries without the one that begins at a byte offset, in as many bytes. `head` stands before them.
record IsDeleted (i de_del : ℕ) (head : DirEntry) (es es' : List DirEntry) : Type 0 where
  before : List DirEntry
  entry : DirEntry
  after : List DirEntry
  shape : es ≡ before ++ entry ∷ after
  place : i + size before ≡ de_del
  rest : live es' ≡ live (head ∷ (before ++ after))
  same_size : size es' ≡ head.rec_len + size es

-- The names in use without those of one entry, which begins at the offset.
pub record IsRemoved (de_del : ℕ) (es es' : List DirEntry) : Type 0 where
  pub before : List DirEntry
  pub entry : DirEntry
  pub after : List DirEntry
  pub shape : es ≡ before ++ entry ∷ after
  pub place : size before ≡ de_del
  pub rest : live es' ≡ live before ++ live after
  pub same_size : size es' ≡ size es

module _ (k : DirKernel) (buf_size tail de_del : ℕ) where
  delete_loop-IsDeleted :
      (pde : DirEntry) (es : List DirEntry) (i : ℕ)
      → let r = delete_loop k buf_size tail de_del pde es i in
        ((is_nonzero r.0 ≡ true) × (r.1 ≡ pde ∷ es))
        ⊎ ((r.0 ≡ pos 0) × IsDeleted i de_del pde es r.1)
  unfolding delete_loop
  delete_loop-IsDeleted pde [] i = inl (refl, refl)
  delete_loop-IsDeleted pde (de ∷ rest) i =
      let next = delete_loop k buf_size tail de_del de rest (i + de.rec_len) in
      elim (Bool-cases (ltb i (buf_size - tail))) [
        | inr done ↦ rw done (inl (refl, refl))
        | inl more ↦ elim (Bool-cases (k.ext4_check_dir_entry buf_size i de)) [
          | inl bad ↦ rw (more, bad) (inl (refl, refl))
          | inr good ↦ elim (Bool-cases (i == de_del)) [
            | inl here ↦
                rw (more, good, here)
                  (inr (
                    refl,
                    record {
                      before = [];
                      entry = de;
                      after = rest;
                      shape = refl;
                      place = ground (arith, here);
                      rest = refl;
                      same_size = omega arith;
                    },
                  ))
            | inr other ↦
                rw (more, good, other)
                  (elim (delete_loop-IsDeleted de rest (i + de.rec_len)) [
                    | inl failed ↦ inl (failed.0, ap (λ ys. pde ∷ ys) failed.1)
                    | inr (zero_ret, d) ↦ inr (
                      zero_ret,
                      record {
                        before = de ∷ d.before;
                        entry = d.entry;
                        after = d.after;
                        shape = ap (λ ys. de ∷ ys) d.shape;
                        place = omega (arith, d.place);
                        rest = rw (d.rest);
                        same_size = omega (arith, d.same_size);
                      },
                    )
                  ])
          ]
        ]
      ]

  -- Deleting the entry at an offset of a block either reports an error and changes nothing, or takes exactly
  -- the name of the entry that begins there, if it is in use, from the names in use. The
  -- entries take as many bytes as before.
  pub ext4_generic_delete_entry-IsRemoved :
      (es : List DirEntry)
      → let r = ext4_generic_delete_entry k buf_size tail de_del es in
        ((is_nonzero r.0 ≡ true) × (r.1 ≡ es)) ⊎ ((r.0 ≡ pos 0) × IsRemoved de_del es r.1)
  unfolding ext4_generic_delete_entry
  ext4_generic_delete_entry-IsRemoved [] = inl (refl, refl)
  ext4_generic_delete_entry-IsRemoved (de ∷ rest) = elim (Bool-cases (ltb 0 (buf_size - tail))) [
    | inr done ↦ rw done (inl (refl, refl))
    | inl more ↦ elim (Bool-cases (k.ext4_check_dir_entry buf_size 0 de)) [
      | inl bad ↦ rw (more, bad) (inl (refl, refl))
      | inr good ↦ elim (Bool-cases (0 == de_del)) [
        | inl here ↦
            rw (more, good, here)
              (inr (
                refl,
                record {
                  before = [];
                  entry = de;
                  after = rest;
                  shape = refl;
                  place = ground (arith, here);
                  rest = refl;
                  same_size = refl;
                },
              ))
        | inr other ↦
            rw (more, good, other)
              (elim (delete_loop-IsDeleted de rest de.rec_len) [
                | inl failed ↦ inl failed
                | inr (zero_ret, d) ↦ inr (
                  zero_ret,
                  record {
                    before = de ∷ d.before;
                    entry = d.entry;
                    after = d.after;
                    shape = ap (λ ys. de ∷ ys) d.shape;
                    place = d.place;
                    rest = d.rest ∙ live-append (de ∷ d.before) d.after;
                    same_size = d.same_size;
                  },
                )
              ])
      ]
    ]
  ]
