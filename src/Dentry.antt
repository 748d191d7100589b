-- ===== src/Dentry.antt =====
-- `evfs_dentry_add` and `evfs_dentry_read` of linux-6.8/fs/ext4/evfs.c.
pub mod Read
pub mod Balance
pub mod Delete
pub mod Calls
pub mod Update
use linux_evfs.Base.{
  ℕ, zero, suc, ◌+◌, ◌-◌, ◌/◌, ◌%◌, Bool, true, false, not, ◌||◌, Option, none, some, List, [], ◌∷◌,
  ◌++◌, length, set, ltb, ◌==◌, if◌then◌else◌,
}
use linux_evfs.Base.Int.{ℤ, pos, negsuc, is_nonzero}
use linux_evfs.Base.Errno
use linux_evfs.Tracker.{Run, done, oops}
use linux_evfs.Ioctl.{DeAddIn, DeReadIn, DeReadOut}

-- What the calls hold: references to and locks of the directory and of the child, references to
-- the two dentries, shared locks and buffers.
pub record Held : Type 0 where
  pub dir_refs : ℕ
  pub dir_locks : ℕ
  pub child_refs : ℕ
  pub child_locks : ℕ
  pub parent_dentries : ℕ
  pub child_dentries : ℕ
  pub shared_locks : ℕ
  pub buffers : ℕ

abbrev pub ext4_name_len : ℕ
ext4_name_len = 255

-- The length of a name up to its first zero byte.
unfoldable pub strlen : List ℕ → ℕ
strlen [] = 0
strlen (c ∷ s) = let n = strlen s in if c == 0 then 0 else n + 1

-- `S_ISDIR(mode)`
unfoldable pub is_dir : ℕ → Bool
is_dir mode = mode / 0o10000 % 16 == 4

-- The calls of `evfs_dentry_add` on a file system of type `X`. `ext4_iget` returns an error pointer or the
-- mode of the inode.
pub record AddKernel (X : Type 0) : Type 0 where
  pub iget_error : ℕ → Option ℕ
  pub i_mode : ℕ → ℕ
  pub d_find_any_alias : ℕ → Bool
  pub d_alloc : List ℕ → Bool
  pub dquot_initialize : ℤ
  pub ext4_link : ℕ → ℕ → List ℕ → X → ℤ × X

module _ {X : Type 0} (k : AddKernel X) where
  open k use {iget_error, i_mode, d_find_any_alias, d_alloc, dquot_initialize, ext4_link}

  -- `release_pino:`
  release_pino : ℤ → Held → X → Run (ℤ × Held × X)
  release_pino ret h x =
      done (ret, record h { dir_locks = h.dir_locks - 1; dir_refs = h.dir_refs - 1 }, x)

  -- `release_pde:`
  release_pde : ℤ → Held → X → Run (ℤ × Held × X)
  release_pde ret h x = release_pino ret (record h { parent_dentries = h.parent_dentries - 1 }) x

  -- `release_cino:`
  release_cino : ℤ → Held → X → Run (ℤ × Held × X)
  release_cino ret h x =
      release_pde ret (record h { child_locks = h.child_locks - 1; child_refs = h.child_refs - 1 })
        x

  -- `release_cde:`
  release_cde : ℤ → Held → X → Run (ℤ × Held × X)
  release_cde ret h x = release_cino ret (record h { child_dentries = h.child_dentries - 1 }) x

  -- From the child's `ext4_iget` on. Its `inode_lock` never returns if the child is the directory,
  -- which is locked.
  add_child : DeAddIn → Held → X → Run (ℤ × Held × X)
  add_child a h x = elim (iget_error a.child_ino_num) [
    | some e ↦ release_pde (negsuc e) h x
    | none ↦
        let h = record h { child_refs = h.child_refs + 1; child_locks = h.child_locks + 1 } in
        if a.parent_ino_num == a.child_ino_num
        then oops
        else if not (d_alloc a.name)
        then release_cino Errno.enomem h x
        else (let h = record h { child_dentries = h.child_dentries + 1 } in
            if is_nonzero dquot_initialize
            then release_cde dquot_initialize h x
            else (let (err, x') = ext4_link a.parent_ino_num a.child_ino_num a.name x in
                release_cde (if is_nonzero err then err else pos 0) h x'))
  ]

  pub evfs_dentry_add : DeAddIn → Held → X → Run (ℤ × Held × X)
  evfs_dentry_add a h x =
      let name_len = strlen a.name in
      if name_len == 0 || ltb ext4_name_len name_len
      then done (Errno.einval, h, x)
      else elim (iget_error a.parent_ino_num) [
        | some e ↦ done (negsuc e, h, x)
        | none ↦
            let h = record h { dir_refs = h.dir_refs + 1; dir_locks = h.dir_locks + 1 } in
            if not (is_dir (i_mode a.parent_ino_num))
            then release_pino Errno.enotdir h x
            else if not (d_find_any_alias a.parent_ino_num)
            then release_pino Errno.enoent h x
            else add_child a (record h { parent_dentries = h.parent_dentries + 1 }) x
      ]

-- `struct ext4_dir_entry_2`
pub record DirEntry : Type 0 where
  pub inode : ℕ
  pub rec_len : ℕ
  pub name_len : ℕ
  pub file_type : ℕ
  pub name : List ℕ

-- The bytes of the name over those of the array, and the last byte.
pub copy_name : List ℕ → List ℕ → List ℕ
copy_name [] out = out
copy_name (c ∷ name) [] = []
copy_name (c ∷ name) (o ∷ out) = c ∷ copy_name name out

-- The first block of the directory: how reading it ends (`some e` is an error), and the entry that stands
-- at a byte offset.
pub record ReadKernel : Type 0 where
  pub iget_error : ℕ → Option ℕ
  pub i_mode : ℕ → ℕ
  pub ext4_bread : ℕ → Option ℤ
  pub s_blocksize : ℕ
  pub has_metadata_csum : Bool
  pub entry_at : ℕ → DirEntry

module _ (k : ReadKernel) where
  open k use {iget_error, i_mode, ext4_bread, s_blocksize, has_metadata_csum, entry_at}

  -- `blocksize - trailing_checksum_size`; a `struct ext4_dir_entry_tail` has 12 bytes.
  unfoldable pub end_offset : ℕ
  end_offset = s_blocksize - (if has_metadata_csum then 12 else 0)

  -- The `while` loop on fuel; `none` means that the fuel ran out, `some none` that no entry is found.
  pub dentry_loop : ℕ → ℕ → ℕ → ℕ → Option (Option DirEntry)
  dentry_loop target zero offset count = none
  dentry_loop target (suc n) offset count =
      let e = entry_at offset in
      let skip = dentry_loop target n (offset + e.rec_len) count in
      let next = dentry_loop target n (offset + e.rec_len) (count + 1) in
      if not (ltb offset end_offset)
      then some none
      else if e.rec_len == 0
      then some none
      else if e.inode == 0
      then skip
      else if count == target
      then some (some e)
      else next

  -- What is written to `args->out`.
  pub read_out : DeReadOut → Option DirEntry → DeReadOut
  read_out out none = record { ino_num = 0; file_type = 0; name_len = 0; name = set out.name 0 0 }
  read_out out (some e) = record {
    ino_num = e.inode;
    file_type = e.file_type;
    name_len = e.name_len;
    name = set (copy_name e.name out.name) 254 0;
  }

  pub evfs_dentry_read : ℕ → DeReadIn → DeReadOut → Held → Option ((ℤ × DeReadOut) × Held)
  evfs_dentry_read fuel a out h =
      let locked = record h { dir_refs = h.dir_refs + 1; shared_locks = h.shared_locks + 1 } in
      let unlocked = record locked {
        shared_locks = locked.shared_locks - 1;
        dir_refs = locked.dir_refs - 1;
      } in
      elim (iget_error a.dir_ino_num) [
        | some e ↦ some ((negsuc e, out), h)
        | none ↦
            if not (is_dir (i_mode a.dir_ino_num))
            then some ((Errno.enotdir, out), unlocked)
            else elim (ext4_bread a.dir_ino_num) [
              | some err ↦ some ((err, out), unlocked)
              | none ↦ elim (dentry_loop a.target_dentry_index fuel 0 0) [
                | none ↦ none
                | some found ↦ some (
                  (pos 0, read_out out found),
                  record unlocked { buffers = unlocked.buffers + 1 - 1 },
                )
              ]
            ]
      ]
