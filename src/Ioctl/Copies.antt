-- ===== src/Ioctl/Copies.antt =====
-- What `ext4_ioctl_evfs` does when copies between user memory and the kernel fail.
use linux_evfs.Base.{◌≡◌, refl, Bool, true, false, ◌&&◌, arith}
use linux_evfs.Base.Errno
use linux_evfs.Ioctl.{
  Request, evfs_hello, evfs_iver, blk_alloc, blk_free, ino_alloc, ino_free, ino_read, den_add,
  den_read, den_delete, den_update, ext_read, ext_mv, unknown, Operations, UserIo, Memory,
  wrote_nothing, plain, copied_in, copied_out, with_array, takes_struct, ext4_ioctl_evfs,
}

-- The first part of the call fails in no way.
abbrev pub starts : UserIo → Bool
starts io = io.copy_in && (io.copy_ptr && io.kmalloc)

module _ {X : Type 0} (ops : Operations X) (mem : Memory) where
  -- A command whose argument can not be read is refused with `-EFAULT`: no operation runs, nothing is
  -- written to user memory and nothing stays allocated.
  pub ext4_ioctl_evfs-efault :
      (io : UserIo) (r : Request) (x : X)
      → takes_struct r ≡ true
      → io.copy_in ≡ false
      → ext4_ioctl_evfs ops io mem r x ≡ record {
        ret = Errno.efault;
        state = x;
        written = wrote_nothing;
        allocated = mem.allocated;
      }
  unfolding ext4_ioctl_evfs with_array copied_in plain
  ext4_ioctl_evfs-efault io evfs_hello x h e = cc
  ext4_ioctl_evfs-efault io evfs_iver x h e = cc
  ext4_ioctl_evfs-efault io (blk_alloc n) x h e = cc
  ext4_ioctl_evfs-efault io (blk_free n) x h e = cc
  ext4_ioctl_evfs-efault io (ino_alloc n) x h e = cc
  ext4_ioctl_evfs-efault io (ino_free n) x h e = cc
  ext4_ioctl_evfs-efault io (ino_read n) x h e = rw e
  ext4_ioctl_evfs-efault io (den_add a) x h e = rw e
  ext4_ioctl_evfs-efault io (den_read a) x h e = rw e
  ext4_ioctl_evfs-efault io (den_delete a) x h e = rw e
  ext4_ioctl_evfs-efault io (den_update a) x h e = rw e
  ext4_ioctl_evfs-efault io (ext_read a) x h e = rw e
  ext4_ioctl_evfs-efault io (ext_mv a) x h e = rw e
  ext4_ioctl_evfs-efault io (unknown n) x h e = cc

  -- Once the first part succeeded, the file system that a command leaves does not depend on whether
  -- the results can be copied out: a command that returns `-EFAULT` then has run.
  pub ext4_ioctl_evfs-runs :
      (io io' : UserIo) (r : Request) (x : X)
      → starts io ≡ true
      → starts io' ≡ true
      → (ext4_ioctl_evfs ops io mem r x).state ≡ (ext4_ioctl_evfs ops io' mem r x).state
  unfolding ext4_ioctl_evfs with_array copied_in copied_out plain
  ext4_ioctl_evfs-runs io io' evfs_hello x h h' = refl
  ext4_ioctl_evfs-runs io io' evfs_iver x h h' = ground arith
  ext4_ioctl_evfs-runs io io' (blk_alloc n) x h h' = refl
  ext4_ioctl_evfs-runs io io' (blk_free n) x h h' = refl
  ext4_ioctl_evfs-runs io io' (ino_alloc n) x h h' = refl
  ext4_ioctl_evfs-runs io io' (ino_free n) x h h' = refl
  ext4_ioctl_evfs-runs io io' (ino_read n) x h h' = ground arith
  ext4_ioctl_evfs-runs io io' (den_add a) x h h' = ground arith
  ext4_ioctl_evfs-runs io io' (den_read a) x h h' = ground arith
  ext4_ioctl_evfs-runs io io' (den_delete a) x h h' = ground arith
  ext4_ioctl_evfs-runs io io' (den_update a) x h h' = ground arith
  ext4_ioctl_evfs-runs io io' (ext_read a) x h h' = ground arith
  ext4_ioctl_evfs-runs io io' (ext_mv a) x h h' = ground arith
  ext4_ioctl_evfs-runs io io' (unknown n) x h h' = refl
