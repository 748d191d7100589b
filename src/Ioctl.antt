-- ===== src/Ioctl.antt =====
-- `ext4_ioctl_evfs` of linux-6.8/fs/ext4/evfs.c with the arguments of include/uapi/linux/evfs.h:
-- which operation a command runs, and what is copied between user memory and the kernel.
pub mod Copies
use linux_evfs.Base.{
  ℕ, ◌+◌, ◌-◌, ◌≡◌, ◌⊎◌, refl, inl, inr, Bool, true, false, not, Option, none, some, List, [], ◌∷◌,
  arith, length, set, replicate, if◌then◌else◌,
}
use linux_evfs.Base.Int.{ℤ, pos, negsuc}
use linux_evfs.Base.Errno
use linux_evfs.Extent.{EvfsExt}
use linux_evfs.Move.{MvIn}
use linux_evfs.InodeRead.{EvfsStat}

-- `in` of `struct ext4_evfs_de_add_args`; a name is the list of its 255 bytes.
pub record DeAddIn : Type 0 where
  pub parent_ino_num : ℕ
  pub child_ino_num : ℕ
  pub name : List ℕ

-- `in` and `out` of `struct ext4_evfs_de_read_args`
pub record DeReadIn : Type 0 where
  pub dir_ino_num : ℕ
  pub target_dentry_index : ℕ

pub record DeReadOut : Type 0 where
  pub ino_num : ℕ
  pub file_type : ℕ
  pub name_len : ℕ
  pub name : List ℕ

-- `in` of `struct ext4_evfs_de_delete_args`
pub record DeDeleteIn : Type 0 where
  pub dir_ino_num : ℕ
  pub name : List ℕ

-- `in` of `struct ext4_evfs_de_update_args`
pub record DeUpdateIn : Type 0 where
  pub dir_ino_num : ℕ
  pub target_dentry_index : ℕ
  pub new_ino_num : ℕ

-- `in` of `struct ext4_evfs_ext_read_args`
pub record ExtReadIn : Type 0 where
  pub ino_num : ℕ
  pub max_num_exts : ℕ

-- The command with what user memory holds for it.
pub data Request : Type 0 where
  evfs_hello evfs_iver : Request
  blk_alloc blk_free ino_alloc ino_free ino_read : ℕ → Request
  den_add : DeAddIn → Request
  den_read : DeReadIn → Request
  den_delete : DeDeleteIn → Request
  den_update : DeUpdateIn → Request
  ext_read : ExtReadIn → Request
  ext_mv : MvIn → Request
  unknown : ℕ → Request

-- The commands whose argument is the address of a structure that is read.
abbrev pub takes_struct : Request → Bool
takes_struct (ino_read i) = true
takes_struct (den_add a) = true
takes_struct (den_read a) = true
takes_struct (den_delete a) = true
takes_struct (den_update a) = true
takes_struct (ext_read a) = true
takes_struct (ext_mv a) = true
takes_struct r = false

-- The operations on a file system of type `X`. `evfs_inode_read` and `evfs_dentry_read` get the memory
-- of `args->out`, the two extent functions that of `num_exts` and of the array.
pub record Operations (X : Type 0) : Type 0 where
  pub hello : X → ℤ × X
  pub iver : X → ℤ × ℕ
  pub block_alloc : ℕ → X → ℤ × X
  pub block_free : ℕ → X → ℤ × X
  pub inode_alloc : ℕ → X → ℤ × X
  pub inode_free : ℕ → X → ℤ × X
  pub inode_read : ℕ → EvfsStat → X → (ℤ × EvfsStat) × X
  pub dentry_add : DeAddIn → X → ℤ × X
  pub dentry_read : DeReadIn → DeReadOut → X → (ℤ × DeReadOut) × X
  pub dentry_delete : DeDeleteIn → X → ℤ × X
  pub dentry_update : DeUpdateIn → X → ℤ × X
  pub extent_read : ExtReadIn → ℕ → List EvfsExt → X → (ℤ × ℕ × List EvfsExt) × X
  pub extent_move : MvIn → ℕ → List EvfsExt → X → (ℤ × ℕ × List EvfsExt) × X

-- Which copies and allocations succeed: of the arguments, of the pointer to the array, of the array,
-- and of the first and the second result.
pub record UserIo : Type 0 where
  pub copy_in : Bool
  pub copy_ptr : Bool
  pub kmalloc : Bool
  pub copy_out : Bool
  pub copy_array : Bool

-- What memory holds before it is written, and the allocations that are in use before the call.
pub record Memory : Type 0 where
  pub stat : EvfsStat
  pub dentry : DeReadOut
  pub num_exts : ℕ
  pub array : ℕ → List EvfsExt
  pub allocated : ℕ

-- What reaches user memory.
pub data Written : Type 0 where
  wrote_nothing : Written
  wrote_version : ℕ → Written
  wrote_stat : EvfsStat → Written
  wrote_dentry : DeReadOut → Written
  wrote_count : ℕ → Written
  wrote_exts : ℕ → List EvfsExt → Written

-- The result, the file system, what was written, and the allocations that are in use.
pub record Reply (X : Type 0) : Type 0 where
  pub ret : ℤ
  pub state : X
  pub written : Written
  pub allocated : ℕ

module _ {X : Type 0} (ops : Operations X) (io : UserIo) (mem : Memory) where
  open io use {copy_in, copy_ptr, kmalloc, copy_out, copy_array}

  pub plain : ℤ × X → Reply X
  plain (ret, x) = record {
    ret = ret;
    state = x;
    written = wrote_nothing;
    allocated = mem.allocated;
  }

  pub copied_in : X → Reply X → Reply X
  copied_in x r = if copy_in then r else plain (Errno.efault, x)

  pub copied_out : X → ℤ → Written → Reply X
  copied_out x ret w =
      if copy_out
      then record { ret = ret; state = x; written = w; allocated = mem.allocated }
      else plain (Errno.efault, x)

  abbrev kfree : Reply X → Reply X
  kfree r = record r { allocated = r.allocated - 1 }

  -- The two extent commands, with the count of entries of the array.
  pub with_array : ℕ → (ℕ → List EvfsExt → X → (ℤ × ℕ × List EvfsExt) × X) → X → Reply X
  with_array n run x = copied_in x (
      if not copy_ptr
      then plain (Errno.efault, x)
      else if not kmalloc
      then plain (Errno.enomem, x)
      else (let ((ret, num, exts), x) = run mem.num_exts (mem.array n) x in
          let with_one : Reply X = record {
            ret = Errno.efault;
            state = x;
            written = wrote_nothing;
            allocated = mem.allocated + 1;
          } in
          if not copy_out
          then with_one
          else if not copy_array
          then record with_one { written = wrote_count num }
          else kfree (record with_one { ret = ret; written = wrote_exts num exts })))

  pub ext4_ioctl_evfs : Request → X → Reply X
  ext4_ioctl_evfs evfs_hello x = plain (ops.hello x)
  ext4_ioctl_evfs evfs_iver x = let (ret, ver) = ops.iver x in copied_out x ret (wrote_version ver)
  ext4_ioctl_evfs (blk_alloc arg) x = plain (ops.block_alloc arg x)
  ext4_ioctl_evfs (blk_free arg) x = plain (ops.block_free arg x)
  ext4_ioctl_evfs (ino_alloc arg) x = plain (ops.inode_alloc arg x)
  ext4_ioctl_evfs (ino_free arg) x = plain (ops.inode_free arg x)
  ext4_ioctl_evfs (ino_read iindex) x =
      let ((ret, out), x') = ops.inode_read iindex mem.stat x in
      copied_in x (copied_out x' ret (wrote_stat out))
  ext4_ioctl_evfs (den_add a) x =
      copied_in x (plain (ops.dentry_add (record a { name = set a.name 254 0 }) x))
  ext4_ioctl_evfs (den_read a) x =
      let ((ret, out), x') = ops.dentry_read a mem.dentry x in
      copied_in x (copied_out x' ret (wrote_dentry out))
  ext4_ioctl_evfs (den_delete a) x =
      copied_in x (plain (ops.dentry_delete (record a { name = set a.name 254 0 }) x))
  ext4_ioctl_evfs (den_update a) x = copied_in x (plain (ops.dentry_update a x))
  ext4_ioctl_evfs (ext_read a) x = with_array a.max_num_exts (ops.extent_read a) x
  ext4_ioctl_evfs (ext_mv a) x = with_array a.ext.len (ops.extent_move a) x
  ext4_ioctl_evfs (unknown cmd) x = plain (Errno.enotty, x)
