-- ===== src/Move.antt =====
-- `evfs_extent_move` and `evfs_extent_read` of linux-6.8/fs/ext4/evfs.c.
pub mod Bounds
pub mod Range
pub mod Replace
use linux_evfs.Base.{
  ℕ, zero, suc, ◌+◌, ◌-◌, ◌*◌, ◌/◌, ◌%◌, ◌^◌, ◌≤◌, ◌<◌, min, ◌≡◌, refl, sym, ap, ◌∙◌, ◌≢◌, ◌↔◌, ◌⊎◌,
  inl, inr, Bool, true, false, not, ◌&&◌, ◌||◌, Option, none, some, List, [], ◌∷◌, ◌++◌, map, arith,
  length, get_elem?, get_or, set, replicate, ltb, leb, ◌==◌, if◌then◌else◌, Bool-cases,
  Option-cases, length-set, length-replicate, length-append, get_or-set, get_or-set_self,
  get_or-set_ne, get_or-replicate, set-set, set-get_or, set-undo, set-compose, get_or-set_default,
  ltb→lt, lt→ltb, ltb→le, le→ltb, leb→le, leb→lt, le→leb, lt→leb, ==_refl, ==_iff, tests,
}
use linux_evfs.Base.Int.{ℤ, pos, negsuc, is_neg, is_nonzero}
use mathlib.Core.Option
use linux_evfs.Base.Errno
use linux_evfs.Extent.{
  EvfsExt, Extent, FindResult, find_error, found, TreeOps, Mapped, add32, no_ext, evfs_extent_map,
}

-- What `evfs_extent_read` and `evfs_extent_move` hold: references to the inode, its lock, the
-- semaphore of its extent tree (as reader or writer), and journal handles.
pub record Held : Type 0 where
  pub inode_refs : ℕ
  pub inode_locks : ℕ
  pub readers : ℕ
  pub writers : ℕ
  pub handles : ℕ

-- The inode that the calls work on, with what the running call holds.
pub record State (T : Type 0) : Type 0 where
  pub tree : T
  pub i_version : ℕ
  pub held : Held

-- How the other calls end; `some e` is an error pointer.
pub record MoveKernel : Type 0 where
  pub ext4_iget : ℕ → Option ℕ
  pub ext4_journal_start : Option ℕ
  pub ext4_journal_stop : ℤ

abbrev pub with_held : {T : Type 0} → Held → State T → State T
with_held h s = record s { held = h }

-- `args->in` of `struct ext4_evfs_ext_mv_args`
pub record MvIn : Type 0 where
  pub ino_num : ℕ
  pub exp_iver : ℕ
  pub ext : EvfsExt

-- The result with `args->out`: the entries of `exts` that are written, in order. Their count is
-- `num_exts`.
pub record MvOut : Type 0 where
  pub ret : ℤ
  pub exts : List EvfsExt

-- `evfs_iver`
unfoldable pub evfs_iver : {T : Type 0} → State T → ℤ × ℕ
evfs_iver s = (pos 0, s.i_version)

module _ {T : Type 0} (ops : TreeOps T) (k : MoveKernel) where
  abbrev put_first : EvfsExt → MvOut × T → MvOut × T
  put_first e (o, t) = (record o { exts = e ∷ o.exts }, t)

  -- The `while` loop, with `n` entries of the array left; `fuel` is for each call of
  -- `__evfs_extent_map`. `none` means that one of those calls does not return.
  unfoldable pub move_loop : ℕ → ℕ → EvfsExt → T → Option (MvOut × T)
  move_loop fuel zero curr t = some (record { ret = pos 0; exts = [] }, t)
  move_loop fuel (suc n) curr t =
      if curr.len == 0
      then some (record { ret = pos 0; exts = [] }, t)
      else elim (evfs_extent_map ops fuel curr t) [
        | none ↦ none
        | some m ↦
            let rest = Option.map (put_first m.curr) (move_loop fuel n m.next m.tree) in
            if is_neg m.ret then some (record { ret = m.ret; exts = [] }, m.tree) else rest
      ]

  -- `release_inode:`
  abbrev release_inode : MvOut → State T → MvOut × State T
  release_inode o s =
      let h = s.held in
      (
        o,
        with_held
            (record h {
              writers = h.writers - 1;
              inode_locks = h.inode_locks - 1;
              inode_refs = h.inode_refs - 1;
            })
            s,
      )

  -- The end of the function from `ext4_journal_stop` on.
  abbrev stop_journal : MvOut → State T → MvOut × State T
  stop_journal o s =
      release_inode
        (if is_nonzero k.ext4_journal_stop then record o { ret = k.ext4_journal_stop } else o)
        (with_held (record (s.held) { handles = s.held.handles - 1 }) s)

  abbrev start_handle : State T → State T
  start_handle s = with_held (record (s.held) { handles = s.held.handles + 1 }) s

  unfoldable pub evfs_extent_move : ℕ → MvIn → State T → Option (MvOut × State T)
  unfolding move_loop
  evfs_extent_move fuel args s = elim (k.ext4_iget args.ino_num) [
    | some e ↦ some (record { ret = negsuc e; exts = [] }, s)
    | none ↦
        let h = s.held in
        let s =
          with_held
            (record h {
              inode_refs = h.inode_refs + 1;
              inode_locks = h.inode_locks + 1;
              writers = h.writers + 1;
            })
            s in
        if not ((evfs_iver s).1 == args.exp_iver)
        then some (release_inode (record { ret = Errno.eagain; exts = [] }) s)
        else elim k.ext4_journal_start [
          | some e ↦ some (release_inode (record { ret = negsuc e; exts = [] }) s)
          | none ↦
              Option.map (λ (o, t). stop_journal o (start_handle (record s { tree = t })))
                (move_loop fuel args.ext.len args.ext s.tree)
        ]
  ]

  -- The loop of `evfs_extent_read`, with `n` entries of the array left. `exts` is the array, and
  -- `beyond` is what the memory behind it holds. After `count++` the next block is computed from
  -- the entry that `count` names then. `none` is a write outside of the array.
  pub read_loop : EvfsExt → ℕ → ℕ → ℕ → List EvfsExt → T → Option (ℕ × List EvfsExt)
  read_loop beyond zero count block exts t = some (count, exts)
  read_loop beyond (suc n) count block exts t = elim (ops.ext4_find_extent t block) [
    | find_error e ↦ some (count, exts)
    | found none next_block ↦ some (count, exts)
    | found (some ex) next_block ↦
        if leb (add32 ex.ee_block ex.actual_len) block
        then some (count, exts)
        else if leb (length exts) count
        then none
        else (let written =
              set exts count
                (record { log_start = ex.ee_block; phy_start = ex.pblock; len = ex.actual_len }) in
            let entry = get_or written (count + 1) beyond in
            read_loop beyond n (count + 1) (add32 entry.log_start entry.len) written t)
  ]

  -- The result, `num_exts` if it is written, and the array, with the state; `none` is a write outside
  -- of the array.
  pub evfs_extent_read :
      EvfsExt → ℕ → ℕ → List EvfsExt → State T → Option ((ℤ × Option ℕ × List EvfsExt) × State T)
  evfs_extent_read beyond ino_num max_num_exts exts s = elim (k.ext4_iget ino_num) [
    | some e ↦ some ((negsuc e, none, exts), s)
    | none ↦
        let h = s.held in
        let locked = record h { inode_refs = h.inode_refs + 1; readers = h.readers + 1 } in
        let unlocked = record locked {
          readers = locked.readers - 1;
          inode_refs = locked.inode_refs - 1;
        } in
        Option.map (λ (count, out). ((pos 0, some count, out), with_held unlocked s))
          (read_loop beyond max_num_exts 0 0 exts s.tree)
  ]
