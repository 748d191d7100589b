-- ===== src/Dir/Link/Outcome.antt =====
-- What `__ext4_link` (namei.c) does to the names of the directory and to the links of the inode.
use linux_evfs.Base.{
  ℕ, zero, suc, ◌+◌, ◌%◌, ◌^◌, ◌≤◌, ◌<◌, ◌≡◌, refl, ap, ◌∙◌, inl, inr, Bool, true, false, ◌&&◌,
  Option, some, List, arith, length, ◌==◌, if◌then◌else◌, Bool-cases, Option-cases,
}
use linux_evfs.Base.Int.{ℤ, negsuc, is_nonzero}
use linux_evfs.Dir.Add.{is_enospc, ext4_add_entry}
use linux_evfs.Dir.Put.{names}
use linux_evfs.Dir.Names.{Gains, ext4_add_entry-names}
use linux_evfs.Dir.Link.{
  LinkState, LinkKernel, inc_nlink, drop_nlink, ext4_inc_count, after_add, no_handle, link_attempt,
  retry_link, ext4_link,
}

-- The links and the references of the inode, and the open handles, are as before.
pub record IsRestored (s s' : LinkState) : Type 0 where
  pub i_nlink : s'.i_nlink ≡ s.i_nlink
  pub i_count : s'.i_count ≡ s.i_count
  pub is_orphan : s'.is_orphan ≡ s.is_orphan
  pub handles : s'.handles ≡ s.handles

-- One more link and one more reference, and the inode is no orphan if this is the first link.
pub record IsLinked (s s' : LinkState) : Type 0 where
  pub i_nlink : s'.i_nlink ≡ inc_nlink s.i_nlink
  pub i_count : s'.i_count ≡ s.i_count + 1
  pub is_orphan : s'.is_orphan ≡ (if inc_nlink s.i_nlink == 1 then false else s.is_orphan)
  pub handles : s'.handles ≡ s.handles

-- A name more with the links that go with it and what marking the inode as changed returns, or an
-- error. The journal can fail behind the change of the block.
pub data Linking (k : ℕ → LinkKernel) (fname : List ℕ) (n : ℕ) (s s' : LinkState) : ℤ → Type 0 where
  refused :
      {err : ℤ}
      → is_nonzero err ≡ true
      → names (s'.dir.blocks) ≡ names (s.dir.blocks)
      → IsRestored s s'
      → Linking k fname n s s' err
  undone :
      {err : ℤ}
      → is_nonzero err ≡ true
      → is_enospc err ≡ false
      → Gains fname n (names (s.dir.blocks)) (names (s'.dir.blocks))
      → IsRestored s s'
      → Linking k fname n s s' err
  linked :
      {err : ℤ} (attempt : ℕ)
      → err ≡ (k attempt).inode_dirty
      → is_enospc err ≡ false
      → Gains fname n (names (s.dir.blocks)) (names (s'.dir.blocks))
      → IsLinked s s'
      → Linking k fname n s s' err

-- What is relied on in an attempt: blocks of 1024 bytes or more, and calls that mark something as
-- changed do not fail with `-ENOSPC`.
pub record IsSound (k : LinkKernel) : Type 0 where
  pub large : 1024 ≤ k.walk.s_blocksize
  pub dirblock : is_enospc (k.block.ext4_handle_dirty_dirblock) ≡ false
  pub dir : is_enospc (k.block.ext4_mark_inode_dirty) ≡ false
  pub inode : is_enospc k.inode_dirty ≡ false

IsRestored-trans : {s t u : LinkState} → IsRestored s t → IsRestored t u → IsRestored s u
IsRestored-trans p q = record {
  i_nlink = q.i_nlink ∙ p.i_nlink;
  i_count = q.i_count ∙ p.i_count;
  is_orphan = q.is_orphan ∙ p.is_orphan;
  handles = q.handles ∙ p.handles;
}

IsLinked-after : {s t u : LinkState} → IsRestored s t → IsLinked t u → IsLinked s u
IsLinked-after p q = record {
  i_nlink = q.i_nlink ∙ ap inc_nlink p.i_nlink;
  i_count = q.i_count ∙ ap (λ n. n + 1) p.i_count;
  is_orphan = q.is_orphan ∙ rw (p.i_nlink, p.is_orphan) refl;
  handles = q.handles ∙ p.handles;
}

-- An attempt that left everything as it was goes unnoticed.
Linking-after :
    {k : ℕ → LinkKernel} {fname : List ℕ} {n : ℕ} {s t u : LinkState} {err : ℤ}
    → names (t.dir.blocks) ≡ names (s.dir.blocks)
    → IsRestored s t
    → Linking k fname n t u err
    → Linking k fname n s u err
Linking-after same p (refused fails same' q) = refused fails (same' ∙ same) (IsRestored-trans p q)
Linking-after same p (undone fails ended gains q) =
    undone fails ended (rw same at gains) (IsRestored-trans p q)
Linking-after same p (linked attempt marked ended gains q) =
    linked attempt marked ended (rw same at gains) (IsLinked-after p q)

drop_nlink-inc_nlink : (n : ℕ) → n < 2 ^ 32 → drop_nlink (inc_nlink n) ≡ n
unfolding drop_nlink inc_nlink
drop_nlink-inc_nlink n h = ground (arith, h)

module _ (fname : List ℕ) (ino mode : ℕ) (short : length fname ≤ 255)
    (used : 0 < ino % 2 ^ 32) where
  link_attempt-Linking :
      (k : ℕ → LinkKernel) (attempt : ℕ) (s : LinkState)
      → IsSound (k attempt)
      → s.i_nlink < 2 ^ 32
      → let r = link_attempt (k attempt) fname ino mode s in
        Linking k fname (ino % 2 ^ 32) s r.1 r.0
  unfolding link_attempt after_add ext4_inc_count
  link_attempt-Linking k attempt s sound small =
      let r = ext4_add_entry (k attempt).block (k attempt).walk fname ino mode s.dir in
      let restored : drop_nlink (inc_nlink s.i_nlink) ≡ s.i_nlink =
        drop_nlink-inc_nlink s.i_nlink small in
      elim (Bool-cases (is_nonzero r.0)) [
        | inl fails ↦
            elim (ext4_add_entry-names (k attempt).block (k attempt).walk fname ino mode short
              sound.large used sound.dirblock sound.dir s.dir) [
                | inl (nonzero, same) ↦ rw fails (
                    refused fails same record {
                      i_nlink = restored;
                      i_count = omega arith;
                      is_orphan = refl;
                      handles = omega arith;
                    })
                | inr (ended, gains) ↦ rw fails (
                    undone fails ended gains record {
                      i_nlink = restored;
                      i_count = omega arith;
                      is_orphan = refl;
                      handles = omega arith;
                    })
              ]
        | inr added ↦
            elim (ext4_add_entry-names (k attempt).block (k attempt).walk fname ino mode short
              sound.large used sound.dirblock sound.dir s.dir) [
                | inl (nonzero, same) ↦ absurd (ground (arith, nonzero, added))
                | inr (ended, gains) ↦ rw added (
                    linked attempt refl sound.inode gains record {
                      i_nlink = refl;
                      i_count = refl;
                      is_orphan = refl;
                      handles = omega arith;
                    })
              ]
      ]

  -- The call ends, in one of these ways.
  pub record Ends (k : ℕ → LinkKernel) (attempt fuel : ℕ) (s : LinkState) : Type 0 where
    pub ret : ℤ
    pub after : LinkState
    pub runs : ext4_link k attempt fuel fname ino mode s ≡ some (ret, after)
    pub outcome : Linking k fname (ino % 2 ^ 32) s after ret

  -- Attempts from a later state on end, in one of these ways as seen from an earlier state.
  record Later (k : ℕ → LinkKernel) (attempt fuel : ℕ) (s t : LinkState) : Type 0 where
    ret : ℤ
    after : LinkState
    runs : ext4_link k attempt fuel fname ino mode t ≡ some (ret, after)
    outcome : Linking k fname (ino % 2 ^ 32) s after ret

  module _ (k : ℕ → LinkKernel) (sound : (a : ℕ) → IsSound (k a)) where
    -- An attempt that failed with `-ENOSPC` changed nothing, and the next one ends.
    Linking-again :
        (attempt n : ℕ) (s t : LinkState) (err : ℤ)
        → is_enospc err ≡ true
        → Linking k fname (ino % 2 ^ 32) s t err
        → (t.i_nlink ≡ s.i_nlink → Ends k attempt n t)
        → Later k attempt n s t
    Linking-again attempt n s t err full (refused fails same p) next =
        let e = next p.i_nlink in
        record {
          ret = e.ret;
          after = e.after;
          runs = e.runs;
          outcome = Linking-after same p e.outcome;
        }
    Linking-again attempt n s t err full (undone fails ended gains p) next =
        absurd (ground (arith, full, ended))
    Linking-again attempt n s t err full (linked at_try marked ended gains p) next =
        absurd (ground (arith, full, ended))

    attempt-Ends :
        (n attempt : ℕ) (s : LinkState)
        → s.i_nlink < 2 ^ 32
        → ((k attempt).ext4_should_retry_alloc ≡ true
            → (t : LinkState) → t.i_nlink ≡ s.i_nlink
            → Ends k (attempt + 1) n t)
        → Ends k attempt (suc n) s
    unfolding ext4_link retry_link no_handle
    attempt-Ends n attempt s small next =
        let r = link_attempt (k attempt) fname ino mode s in
        let here = link_attempt-Linking k attempt s (sound attempt) small in
        let full = is_enospc r.0 && (k attempt).ext4_should_retry_alloc in
        let choose : Bool → Option (ℤ × LinkState) =
          λ b. if b then ext4_link k (attempt + 1) n fname ino mode r.1 else some (r.0, r.1) in
        let start : Option ℕ → Option (ℤ × LinkState) = λ o. no_handle o s (choose full) in
        elim (Option-cases (k attempt).ext4_journal_start) [
          | inr (err, fails) ↦ record {
            ret = negsuc err;
            after = s;
            runs = ap start fails;
            outcome =
                refused refl refl
                  record { i_nlink = refl; i_count = refl; is_orphan = refl; handles = refl };
          }
          | inl granted ↦ elim (Bool-cases full) [
            | inr ends ↦ record {
              ret = r.0;
              after = r.1;
              runs = ap start granted ∙ ap choose ends;
              outcome = here;
            }
            | inl again ↦
                let later =
                  Linking-again (attempt + 1) n s r.1 r.0 (ground (arith, again)) here
                    (next (ground (arith, again)) r.1) in
                record {
                  ret = later.ret;
                  after = later.after;
                  runs = ap start granted ∙ ap choose again ∙ later.runs;
                  outcome = later.outcome;
                }
          ]
        ]

    pub ext4_link-Ends :
        (n attempt : ℕ) (s : LinkState)
        → ((a : ℕ) → attempt + n ≤ a → (k a).ext4_should_retry_alloc ≡ false)
        → s.i_nlink < 2 ^ 32
        → Ends k attempt (suc n) s
    ext4_link-Ends zero attempt s stops small =
        attempt-Ends zero attempt s small
          (λ again t same. absurd (ground (arith, again, stops attempt (omega arith))))
    ext4_link-Ends (suc n) attempt s stops small =
        attempt-Ends (suc n) attempt s small (λ again t same.
          ext4_link-Ends n (attempt + 1) t (λ a le. stops a (omega (arith, le))) (rw same small))
