-- ===== src/Block/Drift.antt =====
-- `evfs_block_alloc` (evfs.c) with several blocks per cluster, and in a group whose bitmap it initialises.
use linux_evfs.Base.{
  ℕ, zero, suc, ◌+◌, ◌-◌, ◌*◌, ◌/◌, ◌%◌, ◌^◌, ◌≤◌, ◌<◌, ◌≡◌, ◌∙◌, inl, inr, true, false, arith,
  Bool-cases,
}
use linux_evfs.Ext4.Desc.{GroupDesc, ext4_free_group_clusters, ext4_free_group_clusters_set}
use linux_evfs.Ext4.State.{Bits, SbInfo, ext4_has_group_desc_csum, ext4_c2b, ext4_num_b2c, sub_wrap}
use linux_evfs.Ext4.Kernel.{LeBitops, BlockKernel}
use linux_evfs.Ext4.Desc64.{count_bound}
use native.Mathlib.Nat.{add_comm, add-mul-div_right, div-eq_of_lt, pow-suc}
use linux_evfs.Block.{alloc_desc, init_blocks}
use linux_evfs.Block.Counts.{
  BitmapCsumLaw, free-set, free-csum, uninit-set, init_blocks-inited, init_blocks-fresh,
}

div-down : (n r : ℕ) → 2 ≤ r → (n * r + (r - 2)) / r ≡ n
div-down n r h =
    rw
      (
        add_comm (n * r) (r - 2),
        add-mul-div_right (r - 2) n {z = r} (omega arith),
        div-eq_of_lt {n = r - 2} {m = r} (omega arith),
      )
      (omega arith)

pow-ge-two : (c : ℕ) → 0 < c → 2 ≤ 2 ^ c
pow-ge-two zero h = absurd (omega arith)
pow-ge-two (suc c) h = simp pow-suc (omega (arith, one-le-pow c))
  where
    one-le-pow : (n : ℕ) → 1 ≤ 2 ^ n
    one-le-pow zero = omega arith
    one-le-pow (suc n) = simp pow-suc (omega (arith, one-le-pow n))

-- With more than one block per cluster, rounding up undoes the decrement.
num_b2c-round :
    (sbi : SbInfo) (free : ℕ)
    → 0 < sbi.s_cluster_bits
    → 0 < free
    → (free + 1) * 2 ^ sbi.s_cluster_bits < 2 ^ 32
    → ext4_num_b2c sbi (sub_wrap 32 (ext4_c2b sbi free) 1) ≡ free
unfolding ext4_num_b2c ext4_c2b
num_b2c-round sbi free many some_free fits =
    let r = 2 ^ sbi.s_cluster_bits in
    let two : 2 ≤ r = pow-ge-two sbi.s_cluster_bits many in
    let pos_product : r ≤ free * r = grind arith in
    let small : free * r + r < 2 ^ 32 = grind arith in
    let inner : ((free * r % 2 ^ 32 + 2 ^ 32 - 1) % 2 ^ 32 + r - 1) % 2 ^ 32 ≡ free * r + (r - 2) =
      omega arith in
    rw inner (div-down free r two)

module _ (b : LeBitops) (k : BlockKernel) (sbi : SbInfo) (law : BitmapCsumLaw k sbi.wide) (g : ℕ)
    (bits : Bits) (d : GroupDesc)
    (fits : ext4_free_group_clusters sbi.wide d < count_bound sbi.wide) where
  -- On a file system with more than one block per cluster, an allocation leaves the free count of
  -- an initialised group as it was, although it took a cluster: the source subtracts one block
  -- and then rounds up to clusters.
  pub alloc_desc-bigalloc :
      0 < sbi.s_cluster_bits
      → 0 < ext4_free_group_clusters sbi.wide d
      → (ext4_free_group_clusters sbi.wide d + 1) * 2 ^ sbi.s_cluster_bits < 2 ^ 32
      → d.block_uninit ≡ false
      → ext4_free_group_clusters sbi.wide (alloc_desc b k sbi g bits d)
        ≡ ext4_free_group_clusters sbi.wide d
  unfolding alloc_desc
  alloc_desc-bigalloc many some_free small init =
      let free = ext4_free_group_clusters sbi.wide d in
      let taken = ext4_free_group_clusters_set sbi.wide d free in
      let same : ext4_free_group_clusters sbi.wide taken ≡ free = free-set sbi.wide d free fits in
      let ready : init_blocks b k sbi g taken ≡ taken =
        init_blocks-inited b k sbi g taken (uninit-set sbi.wide d free ∙ init) in
      rw (num_b2c-round sbi free many some_free small, ready)
        (elim (Bool-cases (ext4_has_group_desc_csum sbi)) [
          | inl e ↦ rw (e, free-csum sbi k.ext4_group_desc_csum g _, law.keeps_free taken bits) same
          | inr e ↦ rw e same
        ])

  -- Where the allocation initialises the bitmap of the group, the free count becomes what
  -- `ext4_free_clusters_after_init` says of the fresh group: the block just taken is not counted.
  pub alloc_desc-uninit_count :
      (n : ℕ)
      → ((x : GroupDesc) → k.ext4_free_clusters_after_init g x ≡ n)
      → n < count_bound sbi.wide
      → ext4_has_group_desc_csum sbi ≡ true
      → d.block_uninit ≡ true
      → ext4_free_group_clusters sbi.wide (alloc_desc b k sbi g bits d) ≡ n
  unfolding alloc_desc
  alloc_desc-uninit_count n fresh small csum uninit =
      let c =
        ext4_num_b2c sbi (sub_wrap 32 (ext4_c2b sbi (ext4_free_group_clusters sbi.wide d)) 1) in
      let taken = ext4_free_group_clusters_set sbi.wide d c in
      let set_uninit : taken.block_uninit ≡ true = uninit-set sbi.wide d c ∙ uninit in
      let count = init_blocks-fresh b k sbi g taken n fresh small set_uninit in
      rw
        (
          csum,
          free-csum sbi k.ext4_group_desc_csum g _,
          law.keeps_free (init_blocks b k sbi g taken) bits,
        )
        count
