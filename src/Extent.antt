-- ===== src/Extent.antt =====
-- `__evfs_extent_map` of linux-6.8/fs/ext4/evfs.c, over the calls of the extent tree (linux-6.8/fs/ext4/extents.c) that they make.
pub mod Map
pub mod Swap
pub mod Laws
pub mod Replace
use linux_evfs.Base.{
  ℕ, zero, suc, ◌+◌, ◌-◌, ◌*◌, ◌/◌, ◌%◌, ◌^◌, ◌≤◌, ◌<◌, min, ◌≡◌, refl, sym, ap, ◌∙◌, ◌≢◌, ◌↔◌, ◌⊎◌,
  inl, inr, Bool, true, false, not, ◌&&◌, ◌||◌, Option, none, some, List, [], ◌∷◌, ◌++◌, map, arith,
  length, get_elem?, get_or, set, replicate, ltb, leb, ◌==◌, if◌then◌else◌, Bool-cases,
  Option-cases, length-set, length-replicate, length-append, get_or-set, get_or-set_self,
  get_or-set_ne, get_or-replicate, set-set, set-get_or, set-undo, set-compose, get_or-set_default,
  ltb→lt, lt→ltb, ltb→le, le→ltb, leb→le, leb→lt, le→leb, lt→leb, ==_refl, ==_iff, tests,
}
use linux_evfs.Base.Int.{ℤ, pos, negsuc, is_neg, is_nonzero}
use linux_evfs.Base.Errno

-- `struct ext4_evfs_ext` of include/uapi/linux/evfs.h
pub record EvfsExt : Type 0 where
  pub log_start : ℕ
  pub phy_start : ℕ
  pub len : ℕ

-- What is read of a `struct ext4_extent`: its first logical block, its length and its first
-- physical block.
pub record Extent : Type 0 where
  pub ee_block : ℕ
  pub actual_len : ℕ
  pub pblock : ℕ

-- What `ext4_find_extent` returns: an error pointer, or the extent that the path ends in with the
-- next allocated block behind the path.
pub data FindResult : Type 0 where
  find_error : ℕ → FindResult
  found : Option Extent → ℕ → FindResult

-- The calls on the extent tree of an inode. `T` is its state. `ext4_ext_store_pblock` and
-- `ext4_ext_try_to_merge` take the extent by its first logical block. A call that returns an error
-- may have changed the tree.
pub record TreeOps (T : Type 0) : Type 0 where
  pub ext4_find_extent : T → ℕ → FindResult
  pub ext4_force_split_extent_at : T → ℕ → ℤ × T
  pub ext4_ext_store_pblock : T → ℕ → ℕ → T
  pub ext4_ext_try_to_merge : T → ℕ → T
  pub ext4_ext_dirty : T → ℕ → ℤ × T

abbrev pub ext_max_blocks : ℕ
ext_max_blocks = 0xffff_ffff

abbrev pub add32 : ℕ → ℕ → ℕ
add32 a b = (a + b) % 2 ^ 32

abbrev pub sub32 : ℕ → ℕ → ℕ
sub32 a b = (a + 2 ^ 32 - b) % 2 ^ 32

abbrev pub add64 : ℕ → ℕ → ℕ
add64 a b = (a + b) % 2 ^ 64

abbrev pub sub64 : ℕ → ℕ → ℕ
sub64 a b = (a + 2 ^ 64 - b) % 2 ^ 64

abbrev pub no_ext : EvfsExt
no_ext = record { log_start = 0; phy_start = 0; len = 0 }

-- How a call of `__evfs_extent_map` ends: its result, `*curr`, `*next` and the tree.
pub record Mapped (T : Type 0) : Type 0 where
  pub ret : ℤ
  pub curr : EvfsExt
  pub next : EvfsExt
  pub tree : T

-- One round of `while (!done)`: the function ends, or goes on with `lblk`, `len` and the tree, or
-- faults.
pub data Round (T : Type 0) : Type 0 where
  ends : Mapped T → Round T
  again : (lblk len : ℕ) → T → Round T
  faults : Round T

module _ {T : Type 0} (ops : TreeOps T) where
  open ops use {
    ext4_find_extent, ext4_force_split_extent_at, ext4_ext_store_pblock, ext4_ext_try_to_merge,
    ext4_ext_dirty,
  }

  -- `finish:` with a result that is not 0.
  abbrev pub finish : ℤ → EvfsExt → T → Round T
  finish ret curr t = ends (record { ret = ret; curr = curr; next = no_ext; tree = t })

  -- `ret_jmp:`
  pub ret_jmp : ℕ → EvfsExt → T → Round T
  ret_jmp jump curr t = ends (record {
    ret = pos 0;
    curr = record curr { len = jump };
    next = record {
      log_start = add32 curr.log_start jump;
      phy_start = add64 curr.phy_start jump;
      len = sub32 curr.len jump;
    };
    tree = t;
  })

  -- `set_next:`, down to the end of the swap.
  unfoldable pub set_next : EvfsExt → Extent → ℕ → ℕ → T → Round T
  set_next curr ex lblk len t = ends (record {
    ret = pos 0;
    curr = record { log_start = lblk; phy_start = ex.pblock; len = len };
    next =
        if ltb (add32 ex.ee_block ex.actual_len) (add32 lblk curr.len)
        then record {
          log_start = add32 ex.ee_block ex.actual_len;
          phy_start = add64 (sub64 (add64 curr.phy_start lblk) curr.log_start) ex.actual_len;
          len = sub32 (add32 curr.log_start curr.len) (add32 ex.ee_block ex.actual_len);
        }
        else no_ext;
    tree = t;
  })

  -- "set the new physical start", the merge and the mark.
  unfoldable pub swap_extent : EvfsExt → Extent → ℕ → ℕ → T → Round T
  swap_extent curr ex lblk len t =
      let stored =
        ext4_ext_store_pblock t ex.ee_block (sub64 (add64 curr.phy_start lblk) curr.log_start) in
      let (err, dirtied) = ext4_ext_dirty (ext4_ext_try_to_merge stored ex.ee_block) ex.ee_block in
      if is_nonzero err then finish err curr dirtied else set_next curr ex lblk len dirtied

  -- A split, and then the next round.
  pub split_extent : EvfsExt → ℕ → ℕ → ℕ → T → Round T
  split_extent curr at lblk len t =
      let (err, t') = ext4_force_split_extent_at t at in
      if is_nonzero err then finish err curr t' else again lblk len t'

  -- "the specified extent endpoint goes beyond current extent"
  unfoldable pub trim : ℕ → ℕ → ℕ → ℕ
  trim e_end lblk len = if ltb e_end (add32 lblk len) then sub32 e_end lblk else len

  -- The round from "get to the next length" on, with an extent that covers `lblk`.
  unfoldable pub cover_extent : EvfsExt → Extent → ℕ → ℕ → T → Round T
  cover_extent curr ex lblk len t =
      let e_end = add32 ex.ee_block ex.actual_len in
      if leb (add32 curr.log_start len) lblk
      then finish (pos 1) curr t
      else (let len = sub32 (add32 curr.log_start len) lblk in
          if ltb ex.ee_block lblk
          then split_extent curr lblk lblk len t
          else (let len = trim e_end lblk len in
              if ltb (add32 lblk len) e_end
              then split_extent curr (add32 lblk len) lblk len t
              else swap_extent curr ex lblk len t))

  -- After an error of `ext4_find_extent`, `cont:` passes the error pointer to `ext4_free_ext_path`,
  -- which reads through it.
  unfoldable pub map_round : EvfsExt → ℕ → ℕ → T → Round T
  map_round curr lblk len t = elim (ext4_find_extent t lblk) [
    | find_error e ↦ faults
    | found none next_block ↦ finish (pos 1) curr t
    | found (some ex) next_block ↦
        let e_end = add32 ex.ee_block ex.actual_len in
        if ltb lblk ex.ee_block
        then ret_jmp (sub32 ex.ee_block lblk) curr t
        else if leb e_end lblk
        then if leb ext_max_blocks next_block
          then finish (pos 1) curr t
          else if ltb 0 (sub32 next_block e_end)
          then ret_jmp (sub32 next_block e_end) curr t
          else again next_block len t
        else cover_extent curr ex lblk len t
  ]

  -- `none` means that the call does not return: it faults, or the fuel ran out.
  unfoldable pub map_loop : ℕ → EvfsExt → ℕ → ℕ → T → Option (Mapped T)
  map_loop zero curr lblk len t = none
  map_loop (suc n) curr lblk len t = elim (map_round curr lblk len t) [
    | ends r ↦ some r
    | again lblk' len' t' ↦ map_loop n curr lblk' len' t'
    | faults ↦ none
  ]

  -- `ext4_es_remove_extent` drops cached extents and does not touch the tree.
  unfoldable pub evfs_extent_map : ℕ → EvfsExt → T → Option (Mapped T)
  evfs_extent_map fuel curr t = map_loop fuel curr curr.log_start curr.len t

pub FindResult-cases :
    (r : FindResult)
    → ((e : ℕ) × (r ≡ find_error e))
      ⊎ ((b : ℕ) × (r ≡ found none b))
      ⊎ ((ex : Extent) × (b : ℕ) × (r ≡ found (some ex) b))
FindResult-cases (find_error e) = inl (e, refl)
FindResult-cases (found none b) = inr (inl (b, refl))
FindResult-cases (found (some ex) b) = inr (inr (ex, b, refl))
