-- ===== src/Ext4/Bitmap.antt =====
-- How many bits of a bitmap are clear, and what one write does to that number.
use linux_evfs.Base.{
  ℕ, zero, suc, ◌+◌, ◌≤◌, ◌<◌, ◌≡◌, Bool, true, false, List, [], ◌∷◌, arith, length, get_or, set,
  set-get_or,
}

unfoldable pub clear_bits : List Bool → ℕ
clear_bits [] = 0
clear_bits (true ∷ m) = clear_bits m
clear_bits (false ∷ m) = suc (clear_bits m)

pub clear_bits-le-length : (m : List Bool) → clear_bits m ≤ length m
unfolding clear_bits
clear_bits-le-length [] = omega arith
clear_bits-le-length (true ∷ m) = omega (arith, clear_bits-le-length m)
clear_bits-le-length (false ∷ m) = omega (arith, clear_bits-le-length m)

pub clear_bits-set-true :
    (m : List Bool) (i : ℕ)
    → i < length m
    → get_or m i false ≡ false
    → clear_bits (set m i true) + 1 ≡ clear_bits m
unfolding clear_bits
clear_bits-set-true [] i h e = elim h [ ]
clear_bits-set-true (true ∷ m) zero h e = cc
clear_bits-set-true (false ∷ m) zero h e = omega arith
clear_bits-set-true (true ∷ m) (suc i) h e = omega (arith, clear_bits-set-true m i (omega arith) e)
clear_bits-set-true (false ∷ m) (suc i) h e = omega (arith, clear_bits-set-true m i (omega arith) e)

pub clear_bits-set-false :
    (m : List Bool) (i : ℕ)
    → i < length m
    → get_or m i false ≡ true
    → clear_bits (set m i false) ≡ clear_bits m + 1
unfolding clear_bits
clear_bits-set-false [] i h e = elim h [ ]
clear_bits-set-false (true ∷ m) zero h e = omega arith
clear_bits-set-false (false ∷ m) zero h e = cc
clear_bits-set-false (true ∷ m) (suc i) h e =
    omega (arith, clear_bits-set-false m i (omega arith) e)
clear_bits-set-false (false ∷ m) (suc i) h e =
    omega (arith, clear_bits-set-false m i (omega arith) e)

-- Writing the value that a bit has changes nothing.
pub set-same :
    (m : List Bool) (i : ℕ) (v : Bool) → get_or m i false ≡ v → i < length m → set m i v ≡ m
set-same m i v e h = rw (← e) (set-get_or m i false)
