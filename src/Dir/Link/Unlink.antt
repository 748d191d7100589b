-- ===== src/Dir/Link/Unlink.antt =====
-- What `__ext4_unlink` (namei.c) does to the names of the directory and to the links of the inode.
use linux_evfs.Base.{
  ℕ, ◌+◌, ◌-◌, ◌^◌, ◌≤◌, ◌<◌, ◌≡◌, ◌⊎◌, refl, sym, ap, ◌∙◌, inl, inr, Bool, true, false, not, ◌&&◌,
  Option, none, some, List, arith, length, get_or, ◌==◌, if◌then◌else◌, Bool-cases,
}
use linux_evfs.Base.Int.{ℤ, pos, negsuc, is_nonzero}
use linux_evfs.Base.Errno
use linux_evfs.Dentry.{DirEntry}
use linux_evfs.DirBlock.{DirKernel, ext4_match, csum_size, ext4_delete_entry}
use linux_evfs.DirBlock.Delete.{IsRemoved, ext4_generic_delete_entry-IsRemoved}
use linux_evfs.Dir.{Block, FindResult, find_none, find_error, find_found, note_found}
use linux_evfs.Dir.Put.{names}
use linux_evfs.Dir.Names.{Gains}
use linux_evfs.Dir.Link.{
  LinkState, LinkKernel, entries_of, drop_nlink, no_handle, out_handle, orphan_add, drop_link,
  remove_entry, unlink_found, unlink_result, ext4_unlink,
}
use linux_evfs.Dir.Link.Outcome.{IsRestored}
use linux_evfs.Dir.Link.Searched.{
  BlocksLong, BlocksLong-get_or, IsResult, ext4_find_entry-IsSearchedFor,
}
use linux_evfs.Dir.Link.Removed.{AllLong, StandsAt, IsRemoved-Gains, set-Gains, set-names}

ext4_delete_entry-IsRemoved :
    (k : DirKernel) (n at : ℕ) (es : List DirEntry)
    → let r = ext4_delete_entry k n at es in
      ((is_nonzero r.0 ≡ true) × (r.1 ≡ es)) ⊎ IsRemoved at es r.1
unfolding ext4_delete_entry
ext4_delete_entry-IsRemoved k n at es =
    elim (Bool-cases (is_nonzero k.ext4_journal_get_write_access)) [
      | inl fails ↦ rw fails (inl (fails, refl))
      | inr granted ↦ elim (ext4_generic_delete_entry-IsRemoved k n (csum_size k) at es) [
        | inl (nonzero, same) ↦ rw (granted, nonzero) (inl (nonzero, same))
        | inr (zero_ret, removed) ↦ rw (granted, zero_ret) (inr removed)
      ]
    ]

-- One link less, and an orphan if it was the last and `ext4_orphan_add` puts it on the list.
pub record IsUnlinked (listed : Bool) (s s' : LinkState) : Type 0 where
  pub i_nlink : s'.i_nlink ≡ s.i_nlink - 1
  pub i_count : s'.i_count ≡ s.i_count
  pub is_orphan : s'.is_orphan ≡ (if s.i_nlink - 1 == 0 && listed then true else s.is_orphan)
  pub handles : s'.handles ≡ s.handles

-- The names without that of one entry in use, which matches the name and has the inode's number.
pub record Loses (k : DirKernel) (fname : List ℕ) (i_ino : ℕ) (s s' : LinkState) : Type 0 where
  pub entry : DirEntry
  pub matches : ext4_match k fname entry ≡ true
  pub inode : entry.inode ≡ i_ino
  pub lost : Gains entry.name entry.inode (names (s'.dir.blocks)) (names (s.dir.blocks))

-- A name less and a link less, or an error. The journal can fail behind the change of the block.
pub data Unlinking (k : LinkKernel) (fname : List ℕ) (i_ino : ℕ) (s s' : LinkState)
    : ℤ → Type 0 where
  refused :
      {err : ℤ}
      → is_nonzero err ≡ true
      → names (s'.dir.blocks) ≡ names (s.dir.blocks)
      → IsRestored s s'
      → Unlinking k fname i_ino s s' err
  broken :
      {err : ℤ}
      → is_nonzero err ≡ true
      → Loses k.block fname i_ino s s'
      → IsRestored s s'
      → Unlinking k fname i_ino s s' err
  unlinked :
      {err : ℤ}
      → Loses k.block fname i_ino s s'
      → IsUnlinked k.ext4_orphan_add s s'
      → Unlinking k fname i_ino s s' err

drop_nlink_lem : (n : ℕ) → n < 2 ^ 32 → (if n == 0 then n else drop_nlink n) ≡ n - 1
unfolding drop_nlink
drop_nlink_lem n h = ground (arith, h)

entries_of-some : {o : Block} {es : List DirEntry} → o ≡ some es → entries_of o ≡ es
unfolding entries_of
entries_of-some here = ap entries_of here

match-in_use :
    (k : DirKernel) (fname : List ℕ) (e : DirEntry)
    → ext4_match k fname e ≡ true
    → (e.inode == 0) ≡ false
unfolding ext4_match
match-in_use k fname e h = ground (arith, h)

module _ (k : LinkKernel) (fname : List ℕ) (i_ino : ℕ) where
  -- The state once the place of the name is noted, and with a handle.
  abbrev seen : ℕ → LinkState → LinkState
  seen b s = record s { dir = record (s.dir) { i_dir_start_lookup = b } }

  abbrev started : ℕ → LinkState → LinkState
  started b s = record (seen b s) { handles = s.handles + 1 }

  drop_link-IsUnlinked :
      (s t : LinkState)
      → t.i_nlink ≡ s.i_nlink
      → t.i_count ≡ s.i_count
      → t.is_orphan ≡ s.is_orphan
      → t.handles ≡ s.handles + 1
      → s.i_nlink < 2 ^ 32
      → IsUnlinked k.ext4_orphan_add s (drop_link k t).1
  unfolding out_handle drop_link orphan_add
  drop_link-IsUnlinked s t n c o h small =
      let lower : (if t.i_nlink == 0 then t.i_nlink else drop_nlink t.i_nlink) ≡ s.i_nlink - 1 =
        drop_nlink_lem t.i_nlink (rw n small) ∙ ap (λ m. m - 1) n in
      record {
        i_nlink = lower;
        i_count = c;
        is_orphan =
            ap (λ m. if m == 0 && k.ext4_orphan_add then true else t.is_orphan) lower
            ∙ ap (λ b. if s.i_nlink - 1 == 0 && k.ext4_orphan_add then true else b) o;
        handles = omega (arith, h);
      }

  remove_entry-Unlinking :
      (b at : ℕ) (e : DirEntry) (s : LinkState)
      → let es = entries_of (get_or s.dir.blocks b none) in
        get_or s.dir.blocks b none ≡ some es
        → AllLong es
        → StandsAt k.block k.walk.s_blocksize fname es 0 at e
        → (e.inode == i_ino) ≡ true
        → s.i_nlink < 2 ^ 32
        → let r = remove_entry k b at (started b s) in Unlinking k fname i_ino s r.1 r.0
  unfolding remove_entry out_handle drop_link orphan_add
  remove_entry-Unlinking b at e s here long found_at same small =
      let es = entries_of (get_or s.dir.blocks b none) in
      let r = ext4_delete_entry k.block k.walk.s_blocksize at es in
      let restored : (bs : List Block)
          → IsRestored s (record s {
            dir = record (s.dir) { blocks = bs; i_dir_start_lookup = b };
            handles = s.handles + 1 - 1;
          }) =
        λ bs. record { i_nlink = refl; i_count = refl; is_orphan = refl; handles = omega arith } in
      elim (ext4_delete_entry-IsRemoved k.block k.walk.s_blocksize at es) [
        | inl (fails, kept) ↦
            rw fails (refused fails (set-names s.dir.blocks b es r.1 here kept) (restored _))
        | inr removed ↦
            let used = match-in_use k.block fname e found_at.matches in
            let gains =
              IsRemoved-Gains k.block k.walk.s_blocksize fname es r.1 at e long used found_at
                removed in
            let lost = set-Gains e.name e.inode s.dir.blocks b es r.1 here gains in
            let inode : e.inode ≡ i_ino = ground (arith, same) in
            elim (Bool-cases (is_nonzero r.0)) [
              | inl fails ↦ rw fails (
                  broken fails
                    record { entry = e; matches = found_at.matches; inode = inode; lost = lost }
                    (restored _))
              | inr deleted ↦ elim (Bool-cases (is_nonzero k.dir_dirty)) [
                | inl fails ↦
                    rw (deleted, fails)
                      (broken fails
                        record { entry = e; matches = found_at.matches; inode = inode; lost = lost }
                        (restored _))
                | inr marked ↦
                    rw (deleted, marked)
                      (unlinked
                        record { entry = e; matches = found_at.matches; inode = inode; lost = lost }
                        (drop_link-IsUnlinked s _ refl refl refl refl small))
              ]
            ]
      ]

  -- The call ends, in one of these ways.
  pub record EndsAs (o : Option (ℤ × LinkState)) (s : LinkState) : Type 0 where
    pub ret : ℤ
    pub after : LinkState
    pub runs : o ≡ some (ret, after)
    pub outcome : Unlinking k fname i_ino s after ret

  refused-EndsAs :
      (err : ℤ) (b : ℕ) (s : LinkState) → is_nonzero err ≡ true → EndsAs (some (err, seen b s)) s
  refused-EndsAs err b s fails = record {
    ret = err;
    after = seen b s;
    runs = refl;
    outcome =
        refused fails refl
          record { i_nlink = refl; i_count = refl; is_orphan = refl; handles = refl };
  }

  no_handle-EndsAs :
      (start : Option ℕ) (b : ℕ) (s : LinkState) (r : ℤ × LinkState)
      → Unlinking k fname i_ino s r.1 r.0
      → EndsAs (no_handle start (seen b s) (some r)) s
  unfolding no_handle
  no_handle-EndsAs (some err) b s r h = refused-EndsAs (negsuc err) b s refl
  no_handle-EndsAs none b s r h = record { ret = r.0; after = r.1; runs = refl; outcome = h }

  unlink_found-EndsAs :
      (b at : ℕ) (e : DirEntry) (s : LinkState)
      → let es = entries_of (get_or s.dir.blocks b none) in
        get_or s.dir.blocks b none ≡ some es
        → AllLong es
        → StandsAt k.block k.walk.s_blocksize fname es 0 at e
        → k.fc_replay ≡ false
        → s.i_nlink < 2 ^ 32
        → EndsAs (unlink_found k b at e i_ino (seen b s)) s
  unfolding unlink_found
  unlink_found-EndsAs b at e s here long found_at live_mount small =
      elim (Bool-cases (e.inode == i_ino)) [
        | inr other ↦
            let stop : not (e.inode == i_ino) && not k.fc_replay ≡ true =
              ground (arith, other, live_mount) in
            rw stop (refused-EndsAs Errno.enoent b s refl)
        | inl same ↦ rw same (
            no_handle-EndsAs k.ext4_journal_start b s _
              (remove_entry-Unlinking b at e s here long found_at same small))
      ]

  unlink_result-EndsAs :
      (r : FindResult) (s : LinkState)
      → IsResult k.block k.walk s.dir.blocks fname r
      → BlocksLong s.dir.blocks
      → k.fc_replay ≡ false
      → s.i_nlink < 2 ^ 32
      → EndsAs (unlink_result k i_ino s (some (r, note_found r s.dir))) s
  unfolding unlink_result note_found
  unlink_result-EndsAs find_none s h long live_mount small =
      refused-EndsAs Errno.enoent s.dir.i_dir_start_lookup s refl
  unlink_result-EndsAs (find_error err) s h long live_mount small =
      refused-EndsAs err s.dir.i_dir_start_lookup s h
  unlink_result-EndsAs (find_found b at e) s (es, here, stands) long live_mount small =
      let same : entries_of (get_or s.dir.blocks b none) ≡ es = entries_of-some here in
      let all_long : AllLong (entries_of (get_or s.dir.blocks b none)) =
        rw same (BlocksLong-get_or s.dir.blocks b es long here) in
      let there : StandsAt k.block k.walk.s_blocksize fname
          (entries_of (get_or s.dir.blocks b none)) 0 at e =
        rw same stands in
      unlink_found-EndsAs b at e s (here ∙ ap some (sym same)) all_long there live_mount small

  pub ext4_unlink-EndsAs :
      (fuel : ℕ) (s : LinkState)
      → ((b n : ℕ) → k.walk.ext4_bread_batch b n ≡ pos 0)
      → 1 ≤ fuel
      → length s.dir.blocks ≤ fuel
      → BlocksLong s.dir.blocks
      → k.fc_replay ≡ false
      → s.i_nlink < 2 ^ 32
      → EndsAs (ext4_unlink k fuel fname i_ino s) s
  unfolding ext4_unlink
  ext4_unlink-EndsAs fuel s reads one enough long live_mount small =
      let r = ext4_find_entry-IsSearchedFor k.block k.walk fname fuel s.dir reads one enough in
      rw (r.runs) (unlink_result-EndsAs r.result s r.good long live_mount small)
