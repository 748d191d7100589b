-- ===== src/Tests/Blocks.antt =====
-- Witnesses of the theorems on the block functions and on descriptors.
use linux_evfs.Base.{ℕ, ◌+◌, ◌^◌, ◌<◌, ◌≡◌, refl, ◌≢◌, true, false, arith, get_or, if◌then◌else◌}
use linux_evfs.Base.Int.{pos}
use linux_evfs.Base.Errno
use linux_evfs.Ext4.Desc.{
  GroupDesc, ext4_free_group_clusters, ext4_block_bitmap_set, ext4_inode_bitmap_set,
  ext4_inode_table_set, ext4_free_group_clusters_set, ext4_free_inodes_set, ext4_used_dirs_set,
  ext4_itable_unused_set,
}
use linux_evfs.Ext4.Desc64.{counts, counts_sets}
use linux_evfs.Ext4.Bitmap.{clear_bits}
use linux_evfs.Ext4.State.{SbInfo, ext4_free_blocks_count}
use linux_evfs.Block.{evfs_block_alloc, evfs_block_free}
use linux_evfs.Block.Counts.{BitmapCsumLaw}
use linux_evfs.Block.Invariant.{IsCounted, evfs_block-IsCounted}
use linux_evfs.Block.Result.{Opens, Closes, Flips, evfs_block_alloc-Flips, evfs_block_free-Flips}
use linux_evfs.Block.Refuse.{evfs_block-refused, evfs_block_free-evfs_block_alloc}
use linux_evfs.Samples.{le_bitops, block_kernel, sbi, fs, group, desc}

law : BitmapCsumLaw block_kernel true
unfolding ext4_free_group_clusters
law = record { keeps_free = λ d m. refl; keeps_uninit = λ d m. refl }

opens : (g : ℕ) → Opens block_kernel g
opens g = record {
  read = refl;
  desc = refl;
  start = refl;
  bitmap_access = refl;
  desc_access = refl;
}

closes : (g : ℕ) → Closes block_kernel g
closes g = record { desc_dirty = refl; bitmap_dirty = refl; stop = refl }

group-IsCounted : IsCounted sbi group
unfolding ext4_free_group_clusters clear_bits
group-IsCounted = record { counted = refl; fits = omega arith; inited = refl }

some_free : 0 < ext4_free_blocks_count sbi fs.es
unfolding ext4_free_blocks_count
some_free = omega arith

fits : ext4_free_blocks_count sbi fs.es + 1 < 2 ^ 64
unfolding ext4_free_blocks_count
fits = omega arith

evfs_block-IsCounted_example :
    IsCounted sbi ((evfs_block_alloc le_bitops block_kernel sbi 5 fs).1.group 1)
    × IsCounted sbi ((evfs_block_free le_bitops block_kernel sbi 5 fs).1.group 1)
evfs_block-IsCounted_example =
    evfs_block-IsCounted le_bitops block_kernel sbi refl law 5 fs (omega arith)
      (λ j. group-IsCounted) 1

evfs_block_alloc-Flips_example :
    ((evfs_block_alloc le_bitops block_kernel sbi 5 fs).0 ≡ pos 0)
    × Flips sbi 1 1 true 1 0 fs (evfs_block_alloc le_bitops block_kernel sbi 5 fs).1
evfs_block_alloc-Flips_example =
    evfs_block_alloc-Flips le_bitops block_kernel sbi refl law 5 fs (opens 1) (closes 1)
      (omega arith) group-IsCounted refl some_free (omega (arith, fits))

evfs_block_free-Flips_example :
    ((evfs_block_free le_bitops block_kernel sbi 4 fs).0 ≡ pos 0)
    × Flips sbi 1 0 false 0 1 fs (evfs_block_free le_bitops block_kernel sbi 4 fs).1
evfs_block_free-Flips_example =
    evfs_block_free-Flips le_bitops block_kernel sbi refl law 4 fs (opens 1) (closes 1)
      (omega arith) group-IsCounted refl fits

evfs_block-refused_example :
    (if get_or group.block_bits 0 false
      then evfs_block_alloc le_bitops block_kernel sbi 4 fs
      else evfs_block_free le_bitops block_kernel sbi 4 fs)
    ≡ (Errno.eexist, fs)
evfs_block-refused_example =
    evfs_block-refused le_bitops block_kernel sbi 4 fs (opens 1) refl (omega arith)

evfs_block_free-evfs_block_alloc_example :
    let fs' =
      (evfs_block_free le_bitops block_kernel sbi 5
        (evfs_block_alloc le_bitops block_kernel sbi 5 fs).1).1 in
    ((fs'.group 1).block_bits ≡ (fs.group 1).block_bits)
    × (ext4_free_group_clusters sbi.wide (fs'.group 1).desc
        ≡ ext4_free_group_clusters sbi.wide (fs.group 1).desc)
    × (ext4_free_blocks_count sbi fs'.es ≡ ext4_free_blocks_count sbi fs.es)
    × ((j : ℕ) → j ≢ 1 → fs'.group j ≡ fs.group j)
evfs_block_free-evfs_block_alloc_example =
    evfs_block_free-evfs_block_alloc le_bitops block_kernel sbi 5 fs refl law (opens 1) (closes 1)
      (omega arith) (λ j. group-IsCounted) refl some_free (omega (arith, fits))

abbrev bigalloc : SbInfo
bigalloc = record sbi { s_cluster_bits = 4 }

free_desc : ext4_free_group_clusters true desc ≡ 3
unfolding ext4_free_group_clusters
free_desc = refl

abbrev fresh : GroupDesc
fresh = record desc { block_uninit = true }

free_fresh : ext4_free_group_clusters true fresh ≡ 3
unfolding ext4_free_group_clusters
free_fresh = refl

counts_sets_example :
    (counts true (ext4_block_bitmap_set true desc 77)
      ≡ record (counts true desc) { block_bitmap = 77 })
    × (counts true (ext4_inode_bitmap_set true desc 77)
        ≡ record (counts true desc) { inode_bitmap = 77 })
    × (counts true (ext4_inode_table_set true desc 77)
        ≡ record (counts true desc) { inode_table = 77 })
    × (counts true (ext4_free_group_clusters_set true desc 70000)
        ≡ record (counts true desc) { free_clusters = 70000 })
    × (counts true (ext4_free_inodes_set true desc 70000)
        ≡ record (counts true desc) { free_inodes = 70000 })
    × (counts true (ext4_used_dirs_set true desc 70000)
        ≡ record (counts true desc) { used_dirs = 70000 })
    × (counts true (ext4_itable_unused_set true desc 70000)
        ≡ record (counts true desc) { itable_unused = 70000 })
counts_sets_example = counts_sets true desc 70000 77 (omega arith) (omega arith)
