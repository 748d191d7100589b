-- ===== src/Tests/Iters.antt =====
-- Witnesses of the theorems on the two searches.
use linux_evfs.Base.{◌+◌, ◌≡◌, arith}
use linux_evfs.Base.Int.{pos}
use linux_evfs.Ext4.State.{ext4_blocks_count}
use linux_evfs.Iter.{evfs_fspace_iter, evfs_inode_iter}
use linux_evfs.Iter.Runs.{IsFirstRun, evfs_fspace_iter-IsFirstRun}
use linux_evfs.Iter.Inodes.{IsNext, evfs_inode_iter-IsNext}
use linux_evfs.Samples.{le_bitops, iter_kernel, sbi, super_block}

evfs_fspace_iter-IsFirstRun_example :
    ((evfs_fspace_iter le_bitops iter_kernel sbi super_block 0).0 ≡ pos 0)
    × IsFirstRun le_bitops iter_kernel 0
        (ext4_blocks_count sbi super_block + 1)
        (evfs_fspace_iter le_bitops iter_kernel sbi super_block 0).1.block
        (evfs_fspace_iter le_bitops iter_kernel sbi super_block 0).1.length
evfs_fspace_iter-IsFirstRun_example =
    evfs_fspace_iter-IsFirstRun le_bitops iter_kernel sbi super_block 0 (omega arith)

evfs_inode_iter-IsNext_example :
    ((evfs_inode_iter le_bitops iter_kernel sbi super_block 2).0 ≡ pos 0)
    × IsNext le_bitops iter_kernel sbi 2 17
        (evfs_inode_iter le_bitops iter_kernel sbi super_block 2).1
evfs_inode_iter-IsNext_example =
    evfs_inode_iter-IsNext le_bitops iter_kernel sbi super_block 2 (omega arith) (omega arith)
