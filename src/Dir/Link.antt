-- ===== src/Dir/Link.antt =====
-- `__ext4_link` and `__ext4_unlink` of linux-6.8/fs/ext4/namei.c, which evfs.c calls to add a name
-- of an inode to a directory and to take it away. The scope is that of Dir; `fast_commit` is not
-- modelled.
pub mod Outcome
pub mod Removed
pub mod Searched
pub mod Unlink
pub mod Back
use linux_evfs.Base.{
  ℕ, zero, suc, ◌+◌, ◌-◌, ◌%◌, ◌^◌, Bool, true, false, not, ◌&&◌, Option, none, some, List, [], set,
  get_or, ◌==◌, if◌then◌else◌,
}
use linux_evfs.Base.Int.{ℤ, negsuc, is_nonzero}
use linux_evfs.Base.Errno
use linux_evfs.Dentry.{DirEntry}
use linux_evfs.DirBlock.{DirKernel, ext4_delete_entry}
use linux_evfs.Dir.{
  Dir, WalkKernel, Block, FindResult, find_none, find_error, find_found, ext4_find_entry,
}
use linux_evfs.Dir.Add.{is_enospc, ext4_add_entry}

-- The directory and the inode, its links, its references, whether it is on the list of orphans, and
-- the handles of the journal that are open.
pub record LinkState : Type 0 where
  pub dir : Dir
  pub i_nlink : ℕ
  pub i_count : ℕ
  pub is_orphan : Bool
  pub handles : ℕ

-- The answers to the calls of one attempt. `dir_dirty` and `inode_dirty` are
-- `ext4_mark_inode_dirty` of the directory and of the inode, and `fc_replay` is the flag
-- `EXT4_FC_REPLAY` of the mount, and `ext4_orphan_add` whether that puts the inode on the list.
-- It can fail, and it does nothing without a journal; its result is not looked at.
pub record LinkKernel : Type 0 where
  pub block : DirKernel
  pub walk : WalkKernel
  pub ext4_journal_start : Option ℕ
  pub dir_dirty : ℤ
  pub inode_dirty : ℤ
  pub fc_replay : Bool
  pub ext4_orphan_add : Bool
  pub ext4_should_retry_alloc : Bool

-- The entries of the buffer of a block.
unfoldable pub entries_of : Block → List DirEntry
entries_of none = []
entries_of (some es) = es

-- `inc_nlink` and `drop_nlink` of the VFS on the 32 bits of `i_nlink`.
unfoldable pub inc_nlink : ℕ → ℕ
inc_nlink n = (n + 1) % 2 ^ 32

unfoldable pub drop_nlink : ℕ → ℕ
drop_nlink n = (n + (2 ^ 32 - 1)) % 2 ^ 32

-- `ext4_inc_count`, without a hash tree.
unfoldable pub ext4_inc_count : LinkState → LinkState
ext4_inc_count s = record s { i_nlink = inc_nlink s.i_nlink }

-- From `err = ext4_add_entry(...)` to `ext4_journal_stop(handle)`, with the results of the
-- addition.
unfoldable pub after_add : LinkKernel → ℤ → Dir → LinkState → ℤ × LinkState
after_add k err d s =
    if not (is_nonzero err)
    then (
      k.inode_dirty,
      record s {
        dir = d;
        is_orphan = if s.i_nlink == 1 then false else s.is_orphan;
        handles = s.handles - 1;
      },
    )
    else (
      err,
      record s {
        dir = d;
        i_nlink = drop_nlink s.i_nlink;
        i_count = s.i_count - 1;
        handles = s.handles - 1;
      },
    )

-- `if (IS_ERR(handle))`: the function ends at once, else it goes on.
unfoldable pub no_handle : Option ℕ → LinkState → Option (ℤ × LinkState) → Option (ℤ × LinkState)
no_handle (some err) s granted = some (negsuc err, s)
no_handle none s granted = granted

-- One attempt of `__ext4_link`, from the handle on to its end.
unfoldable pub link_attempt : LinkKernel → List ℕ → ℕ → ℕ → LinkState → ℤ × LinkState
link_attempt k fname ino mode s =
    let s = ext4_inc_count (record s { handles = s.handles + 1; i_count = s.i_count + 1 }) in
    let (err, d) = ext4_add_entry k.block k.walk fname ino mode s.dir in after_add k err d s

-- How an attempt ends: without a handle, with another attempt, or with its result.
unfoldable pub retry_link :
    LinkKernel → ℤ × LinkState → Option (ℤ × LinkState) → LinkState → Option (ℤ × LinkState)
retry_link k (err, s') again s =
    no_handle k.ext4_journal_start s
      (if is_enospc err && k.ext4_should_retry_alloc then again else some (err, s'))

-- `__ext4_link` on fuel; the kernel answers each attempt on its own, and `none` means that the fuel
-- ran out.
unfoldable pub ext4_link :
    (ℕ → LinkKernel) → ℕ → ℕ → List ℕ → ℕ → ℕ → LinkState → Option (ℤ × LinkState)
ext4_link k attempt zero fname ino mode s = none
ext4_link k attempt (suc n) fname ino mode s =
    let r = link_attempt (k attempt) fname ino mode s in
    retry_link (k attempt) r (ext4_link k (attempt + 1) n fname ino mode r.1) s

-- `ext4_orphan_add` if no link is left.
unfoldable pub orphan_add : LinkKernel → LinkState → LinkState
orphan_add k s = record s {
  is_orphan = if s.i_nlink == 0 && k.ext4_orphan_add then true else s.is_orphan;
}

module _ (k : LinkKernel) where
  -- `out_handle:`
  unfoldable pub out_handle : ℤ → LinkState → ℤ × LinkState
  out_handle retval s = (retval, record s { handles = s.handles - 1 })

  -- From `if (inode->i_nlink == 0)` on.
  unfoldable pub drop_link : LinkState → ℤ × LinkState
  drop_link s = out_handle k.inode_dirty (
      orphan_add k
        (record s { i_nlink = if s.i_nlink == 0 then s.i_nlink else drop_nlink s.i_nlink }))

  -- From `ext4_delete_entry` on, for an entry at an offset of a block.
  unfoldable pub remove_entry : ℕ → ℕ → LinkState → ℤ × LinkState
  remove_entry b offset s =
      let (err, es) =
        ext4_delete_entry k.block k.walk.s_blocksize offset
          (entries_of (get_or s.dir.blocks b none)) in
      let s = record s { dir = record (s.dir) { blocks = set s.dir.blocks b (some es) } } in
      if is_nonzero err
      then out_handle err s
      else if is_nonzero k.dir_dirty
      then out_handle k.dir_dirty s
      else drop_link s

  -- From the test of the entry's inode on.
  unfoldable pub unlink_found : ℕ → ℕ → DirEntry → ℕ → LinkState → Option (ℤ × LinkState)
  unlink_found b offset de i_ino s =
      let skip = not (de.inode == i_ino) in
      let s' = record s { handles = s.handles + 1 } in
      if skip && not k.fc_replay
      then some (Errno.enoent, s)
      else no_handle k.ext4_journal_start s
          (some (if skip then drop_link s' else remove_entry b offset s'))

  -- What `ext4_find_entry` ended with.
  unfoldable pub unlink_result : ℕ → LinkState → Option (FindResult × Dir) → Option (ℤ × LinkState)
  unlink_result i_ino s none = none
  unlink_result i_ino s (some (find_error err, d)) = some (err, record s { dir = d })
  unlink_result i_ino s (some (find_none, d)) = some (Errno.enoent, record s { dir = d })
  unlink_result i_ino s (some (find_found b offset de, d)) =
      unlink_found b offset de i_ino (record s { dir = d })

  -- `__ext4_unlink` of a name of the inode with the number `i_ino`; the fuel is that of the search.
  unfoldable pub ext4_unlink : ℕ → List ℕ → ℕ → LinkState → Option (ℤ × LinkState)
  ext4_unlink fuel fname i_ino s =
      unlink_result i_ino s (ext4_find_entry k.block k.walk fuel fname s.dir)
