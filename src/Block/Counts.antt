-- ===== src/Block/Counts.antt =====
-- The counts of a descriptor and of the superblock after an allocation and after a release.
use linux_evfs.Base.{
  ℕ, ◌+◌, ◌-◌, ◌%◌, ◌^◌, ◌≤◌, ◌<◌, ◌≡◌, refl, ap, ◌∙◌, inl, inr, Bool, true, false, arith,
  if◌then◌else◌, Bool-cases,
}
use linux_evfs.Ext4.Desc.{GroupDesc, ext4_free_group_clusters, ext4_free_group_clusters_set}
use linux_evfs.Ext4.State.{
  Bits, SuperBlock, SbInfo, Fs, ext4_has_group_desc_csum, ext4_c2b, ext4_num_b2c,
  ext4_free_blocks_count, ext4_free_blocks_count_set, ext4_group_desc_csum_set,
  ext4_superblock_csum_set, sub_wrap,
}
use linux_evfs.Ext4.Kernel.{LeBitops, BlockKernel}
use linux_evfs.Ext4.Desc64.{count_bound, Counts, counts-ext4_free_group_clusters_set}
use linux_evfs.Block.{alloc_desc, init_blocks, free_desc, alloc_super, free_super}

-- `ext4_block_bitmap_csum_set` stores a checksum and changes nothing else that is read here.
pub record BitmapCsumLaw (k : BlockKernel) (wide : Bool) : Type 0 where
  pub keeps_free :
      (d : GroupDesc) (bits : Bits)
      → ext4_free_group_clusters wide (k.ext4_block_bitmap_csum_set d bits)
        ≡ ext4_free_group_clusters wide d
  pub keeps_uninit :
      (d : GroupDesc) (bits : Bits)
      → (k.ext4_block_bitmap_csum_set d bits).block_uninit ≡ d.block_uninit

module _ (sbi : SbInfo) (one : sbi.s_cluster_bits ≡ 0) where
  pub num_b2c_one : (x : ℕ) → x < 2 ^ 32 → ext4_num_b2c sbi x ≡ x
  unfolding ext4_num_b2c
  num_b2c_one x h = rw one (omega arith)

  pub c2b_one : (x : ℕ) → x < 2 ^ 32 → ext4_c2b sbi x ≡ x
  unfolding ext4_c2b
  c2b_one x h = rw one (omega arith)

pub count_bound-le : (wide : Bool) → count_bound wide ≤ 2 ^ 32
count_bound-le true = omega arith
count_bound-le false = omega arith

pub free-set :
    (wide : Bool) (d : GroupDesc) (c : ℕ)
    → c < count_bound wide
    → ext4_free_group_clusters wide (ext4_free_group_clusters_set wide d c) ≡ c
free-set wide d c h =
    ap (λ (x : Counts). x.free_clusters) (counts-ext4_free_group_clusters_set wide d c h)

pub uninit-set :
    (wide : Bool) (d : GroupDesc) (c : ℕ)
    → (ext4_free_group_clusters_set wide d c).block_uninit ≡ d.block_uninit
unfolding ext4_free_group_clusters_set
uninit-set wide d c = refl

pub free-csum :
    (sbi : SbInfo) (csum : ℕ → GroupDesc → ℕ) (g : ℕ) (d : GroupDesc)
    → ext4_free_group_clusters sbi.wide (ext4_group_desc_csum_set sbi csum g d)
      ≡ ext4_free_group_clusters sbi.wide d
unfolding ext4_group_desc_csum_set ext4_free_group_clusters
free-csum sbi csum g d = ground arith

module _ (b : LeBitops) (k : BlockKernel) (sbi : SbInfo) (g : ℕ) where
  pub init_blocks-inited : (x : GroupDesc) → x.block_uninit ≡ false → init_blocks b k sbi g x ≡ x
  unfolding init_blocks
  init_blocks-inited x init = ground arith

  pub init_blocks-fresh :
      (x : GroupDesc) (n : ℕ)
      → ((y : GroupDesc) → k.ext4_free_clusters_after_init g y ≡ n)
      → n < count_bound sbi.wide
      → x.block_uninit ≡ true
      → ext4_free_group_clusters sbi.wide (init_blocks b k sbi g x) ≡ n
  unfolding init_blocks
  init_blocks-fresh x n fresh small uninit =
      let started : GroupDesc = record x { block_uninit = false } in
      ground (arith, fresh started, free-set sbi.wide started n small)

module _ (b : LeBitops) (k : BlockKernel) (sbi : SbInfo) (one : sbi.s_cluster_bits ≡ 0)
    (law : BitmapCsumLaw k sbi.wide) (g : ℕ) (bits : Bits) (d : GroupDesc)
    (fits : ext4_free_group_clusters sbi.wide d < count_bound sbi.wide) where
  taken_count :
      0 < ext4_free_group_clusters sbi.wide d
      → ext4_num_b2c sbi (sub_wrap 32 (ext4_c2b sbi (ext4_free_group_clusters sbi.wide d)) 1) + 1
        ≡ ext4_free_group_clusters sbi.wide d
  taken_count some_free =
      let free = ext4_free_group_clusters sbi.wide d in
      let small : free < 2 ^ 32 = omega (arith, count_bound-le sbi.wide) in
      let down : (free + 2 ^ 32 - 1) % 2 ^ 32 + 1 ≡ free = omega arith in
      rw
        (
          c2b_one sbi one free small,
          num_b2c_one sbi one ((free + 2 ^ 32 - 1) % 2 ^ 32) (omega arith),
        )
        down

  pub alloc_desc-free :
      0 < ext4_free_group_clusters sbi.wide d
      → d.block_uninit ≡ false
      → ext4_free_group_clusters sbi.wide (alloc_desc b k sbi g bits d) + 1
        ≡ ext4_free_group_clusters sbi.wide d
  unfolding alloc_desc
  alloc_desc-free some_free init =
      let c =
        ext4_num_b2c sbi (sub_wrap 32 (ext4_c2b sbi (ext4_free_group_clusters sbi.wide d)) 1) in
      let taken = ext4_free_group_clusters_set sbi.wide d c in
      let c_fits : c < count_bound sbi.wide = omega (arith, taken_count some_free) in
      let count : ext4_free_group_clusters sbi.wide taken + 1
          ≡ ext4_free_group_clusters sbi.wide d =
        rw (free-set sbi.wide d c c_fits) (taken_count some_free) in
      let ready : init_blocks b k sbi g taken ≡ taken =
        init_blocks-inited b k sbi g taken (uninit-set sbi.wide d c ∙ init) in
      rw ready (elim (Bool-cases (ext4_has_group_desc_csum sbi)) [
        | inl e ↦ rw (e, free-csum sbi k.ext4_group_desc_csum g _, law.keeps_free taken bits) count
        | inr e ↦ rw e count
      ])

  given_count :
      ext4_free_group_clusters sbi.wide d + 1 < count_bound sbi.wide
      → ext4_num_b2c sbi ((ext4_c2b sbi (ext4_free_group_clusters sbi.wide d) + 1) % 2 ^ 32)
        ≡ ext4_free_group_clusters sbi.wide d + 1
  given_count room =
      let free = ext4_free_group_clusters sbi.wide d in
      let small : free + 1 < 2 ^ 32 = omega (arith, count_bound-le sbi.wide) in
      let up : (free + 1) % 2 ^ 32 ≡ free + 1 = omega arith in
      rw (c2b_one sbi one free (omega arith), up) (num_b2c_one sbi one (free + 1) small)

  pub free_desc-free :
      ext4_free_group_clusters sbi.wide d + 1 < count_bound sbi.wide
      → ext4_free_group_clusters sbi.wide (free_desc b k sbi g bits d)
        ≡ ext4_free_group_clusters sbi.wide d + 1
  unfolding free_desc
  free_desc-free room =
      let free = ext4_free_group_clusters sbi.wide d in
      let given = ext4_free_group_clusters_set sbi.wide d (free + 1) in
      let count : ext4_free_group_clusters sbi.wide given ≡ free + 1 =
        free-set sbi.wide d (free + 1) room in
      rw (given_count room) (elim (Bool-cases (ext4_has_group_desc_csum sbi)) [
        | inl e ↦ rw (e, free-csum sbi k.ext4_group_desc_csum g _, law.keeps_free given bits) count
        | inr e ↦ rw e count
      ])

  pub alloc_desc-uninit :
      d.block_uninit ≡ false → (alloc_desc b k sbi g bits d).block_uninit ≡ false
  unfolding alloc_desc init_blocks ext4_free_group_clusters_set ext4_group_desc_csum_set
  alloc_desc-uninit init = grind (arith, law.keeps_uninit)

  pub free_desc-uninit : d.block_uninit ≡ false → (free_desc b k sbi g bits d).block_uninit ≡ false
  unfolding free_desc ext4_free_group_clusters_set ext4_group_desc_csum_set
  free_desc-uninit init = grind (arith, law.keeps_uninit)

-- The largest free count of the superblock, plus 1.
abbrev pub super_bound : SbInfo → ℕ
super_bound sbi = if sbi.feature_64bit then 2 ^ 64 else 2 ^ 32

pub free_blocks-set :
    (sbi : SbInfo) (es : SuperBlock) (c : ℕ)
    → c < super_bound sbi
    → ext4_free_blocks_count sbi (ext4_free_blocks_count_set es c) ≡ c
unfolding ext4_free_blocks_count ext4_free_blocks_count_set
free_blocks-set sbi es c h = ground arith

free_blocks-csum :
    (sbi : SbInfo) (csum : SuperBlock → ℕ) (es : SuperBlock)
    → ext4_free_blocks_count sbi (ext4_superblock_csum_set sbi csum es)
      ≡ ext4_free_blocks_count sbi es
unfolding ext4_free_blocks_count ext4_superblock_csum_set
free_blocks-csum sbi csum es = ground arith

super_bound-le : (sbi : SbInfo) → super_bound sbi ≤ 2 ^ 64
super_bound-le sbi = ground arith

module _ (b : LeBitops) (k : BlockKernel) (sbi : SbInfo) (fs : Fs) where
  pub alloc_super-free :
      0 < ext4_free_blocks_count sbi fs.es
      → ext4_free_blocks_count sbi fs.es < super_bound sbi
      → ext4_free_blocks_count sbi (alloc_super b k sbi fs).es + 1
        ≡ ext4_free_blocks_count sbi fs.es
  unfolding alloc_super
  alloc_super-free some_free fits =
      let free = ext4_free_blocks_count sbi fs.es in
      let c = sub_wrap 64 free 1 in
      let down : c + 1 ≡ free = omega (arith, super_bound-le sbi) in
      rw (free_blocks-csum sbi k.ext4_superblock_csum _, free_blocks-set sbi fs.es c (omega arith))
        down

  pub free_super-free :
      ext4_free_blocks_count sbi fs.es + 1 < super_bound sbi
      → ext4_free_blocks_count sbi (free_super b k sbi fs).es ≡ ext4_free_blocks_count sbi fs.es + 1
  unfolding free_super
  free_super-free room =
      let free = ext4_free_blocks_count sbi fs.es in
      let up : (free + 1) % 2 ^ 64 ≡ free + 1 = omega (arith, super_bound-le sbi) in
      rw (
        free_blocks-csum sbi k.ext4_superblock_csum _,
        up,
        free_blocks-set sbi fs.es (free + 1) room,
      )
