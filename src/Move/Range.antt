-- ===== src/Move/Range.antt =====
-- The range of a move (`evfs_extent_move`, evfs.c), and the extents that list it.
use linux_evfs.Base.{
  ℕ, ◌+◌, ◌-◌, ◌^◌, ◌≤◌, ◌<◌, ◌≡◌, ◌∙◌, Option, some, none, List, [], ◌∷◌, arith, if◌then◌else◌,
}
use linux_evfs.Base.Int.{pos}
use linux_evfs.Extent.{EvfsExt}
use linux_evfs.Extent.Laws.{within}
use linux_evfs.Move.{State, MoveKernel, MvIn}

-- The extents list the blocks of a map from `from` on, `n` of them and in order.
abbrev pub Lists : (ℕ → Option ℕ) → ℕ → ℕ → List EvfsExt → Type 0
Lists view from n [] = n ≡ 0
Lists view from n (e ∷ es) =
    (e.log_start ≡ from)
    × (0 < e.len)
    × (e.len ≤ n)
    × ((i : ℕ) → i < e.len → view (from + i) ≡ some (e.phy_start + i))
    × Lists view (from + e.len) (n - e.len) es

pub Lists-view :
    (view view' : ℕ → Option ℕ) (from n : ℕ) (es : List EvfsExt)
    → ((c : ℕ) → from ≤ c → view' c ≡ view c)
    → Lists view from n es
    → Lists view' from n es
Lists-view view view' from n [] same l = l
Lists-view view view' from n (e ∷ es) same l = (
  l.0,
  l.1,
  l.2,
  λ i h. same (from + i) (omega arith) ∙ l.3 i h,
  Lists-view view view' (from + e.len) (n - e.len) es (λ c h. same c (omega arith)) l.4,
)

pub Lists-none :
    (view : ℕ → Option ℕ) (from to : ℕ) (es : List EvfsExt)
    → Lists view from 0 es
    → Lists view to 0 es
Lists-none view from to [] l = l
Lists-none view from to (e ∷ es) l = absurd (omega (arith, l.1, l.2))

-- The map `after` is `before` with the range at its new place.
abbrev pub Replaces : EvfsExt → (ℕ → Option ℕ) → (ℕ → Option ℕ) → Type 0
Replaces e before after =
    (c : ℕ)
    → after c
      ≡ (if within e.log_start e.len c then some (e.phy_start + (c - e.log_start)) else before c)

-- All blocks of the range are mapped, and its numbers fit the fields of an extent.
pub record IsMapped (e : EvfsExt) (view : ℕ → Option ℕ) : Type 0 where
  pub logical : e.log_start + e.len < 2 ^ 32
  pub physical : e.phy_start + e.len < 2 ^ 48
  pub mapped : (i : ℕ) → i < e.len → (p : ℕ) × (view (e.log_start + i) ≡ some p)

-- The version is the expected one, and the calls for the inode and the journal succeed.
pub record Succeeds {T : Type 0} (k : MoveKernel) (args : MvIn) (s : State T) : Type 0 where
  pub iget : k.ext4_iget args.ino_num ≡ none
  pub version : s.i_version ≡ args.exp_iver
  pub start : k.ext4_journal_start ≡ none
  pub stop : k.ext4_journal_stop ≡ pos 0
