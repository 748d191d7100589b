-- ===== src/Base/Lists.antt =====
-- Lists measured and indexed by native numbers, under the library's names.
use Prim.Native.Nat.{ℕ, zero, suc, ◌+◌, ◌<◌}
use mathlib.Core.Path.{◌≡◌, refl, ap}
use mathlib.Core.Logic.{◌≢◌, inl, inr}
use mathlib.Core.List.{List, [], ◌∷◌, ◌++◌}
use mathlib.Core.Option.{Option, none, some}
use native.Mathlib.Omega.{arith}
use linux_evfs.Base.Tests.{◌==◌, if◌then◌else◌, Bool-cases}

module _ {ℓ} {A : Type ℓ} where
  abbrev pub length : List A → ℕ
  length [] = 0
  length (x ∷ xs) = suc (length xs)

  abbrev pub get_elem? : List A → ℕ → Option A
  get_elem? [] i = none
  get_elem? (x ∷ xs) zero = some x
  get_elem? (x ∷ xs) (suc i) = get_elem? xs i

  abbrev pub get_or : List A → ℕ → A → A
  get_or [] i d = d
  get_or (x ∷ xs) zero d = x
  get_or (x ∷ xs) (suc i) d = get_or xs i d

  -- A write out of bounds changes nothing.
  abbrev pub set : List A → ℕ → A → List A
  set [] i v = []
  set (x ∷ xs) zero v = v ∷ xs
  set (x ∷ xs) (suc i) v = x ∷ set xs i v

  abbrev pub replicate : ℕ → A → List A
  replicate zero a = []
  replicate (suc n) a = a ∷ replicate n a

module _ {ℓ} {A : Type ℓ} where
  pub length-set : (xs : List A) (i : ℕ) (v : A) → length (set xs i v) ≡ length xs
  length-set [] i v = refl
  length-set (x ∷ xs) zero v = refl
  length-set (x ∷ xs) (suc i) v = ap suc (length-set xs i v)

  pub length-replicate : (n : ℕ) (a : A) → length (replicate n a) ≡ n
  length-replicate zero a = refl
  length-replicate (suc n) a = ap suc (length-replicate n a)

  pub length-append : (xs ys : List A) → length (xs ++ ys) ≡ length xs + length ys
  length-append [] ys = omega arith
  length-append (x ∷ xs) ys = omega (arith, length-append xs ys)

  pub append-nil : (xs : List A) → xs ++ [] ≡ xs
  append-nil [] = refl
  append-nil (x ∷ xs) = ap (λ ys. x ∷ ys) (append-nil xs)

  pub get_or-set_self :
      (xs : List A) (i : ℕ) (v d : A) → i < length xs → get_or (set xs i v) i d ≡ v
  get_or-set_self [] i v d h = elim h [ ]
  get_or-set_self (x ∷ xs) zero v d h = refl
  get_or-set_self (x ∷ xs) (suc i) v d h = get_or-set_self xs i v d (omega arith)

  pub get_or-set_ne :
      (xs : List A) (i j : ℕ) (v d : A) → i ≢ j → get_or (set xs i v) j d ≡ get_or xs j d
  get_or-set_ne [] i j v d h = refl
  get_or-set_ne (x ∷ xs) zero zero v d h = absurd (h refl)
  get_or-set_ne (x ∷ xs) zero (suc j) v d h = refl
  get_or-set_ne (x ∷ xs) (suc i) zero v d h = refl
  get_or-set_ne (x ∷ xs) (suc i) (suc j) v d h = get_or-set_ne xs i j v d (λ e. h (ap suc e))

  pub get_or-replicate : (n i : ℕ) (a : A) → get_or (replicate n a) i a ≡ a
  get_or-replicate zero i a = refl
  get_or-replicate (suc n) zero a = refl
  get_or-replicate (suc n) (suc i) a = get_or-replicate n i a

  pub set-set : (xs : List A) (i : ℕ) (v w : A) → set (set xs i v) i w ≡ set xs i w
  set-set [] i v w = refl
  set-set (x ∷ xs) zero v w = refl
  set-set (x ∷ xs) (suc i) v w = ap (λ ys. x ∷ ys) (set-set xs i v w)

  pub set-get_or : (xs : List A) (i : ℕ) (d : A) → set xs i (get_or xs i d) ≡ xs
  set-get_or [] i d = refl
  set-get_or (x ∷ xs) zero d = refl
  set-get_or (x ∷ xs) (suc i) d = ap (λ ys. x ∷ ys) (set-get_or xs i d)

  -- A read after a write inside the list.
  pub get_or-set :
      (xs : List A) (i j : ℕ) (v d : A)
      → i < length xs
      → get_or (set xs i v) j d ≡ (if j == i then v else get_or xs j d)
  get_or-set xs i j v d h = elim (Bool-cases (j == i)) [
    | inl e ↦ let e' : j ≡ i = ground arith in rw (e, e') (get_or-set_self xs i v d h)
    | inr e ↦ rw e (get_or-set_ne xs i j v d (ground arith))
  ]

  -- Writing the value that stands for "nothing there" erases, also out of range.
  pub get_or-set_default :
      (xs : List A) (i j : ℕ) (d : A)
      → get_or (set xs i d) j d ≡ (if j == i then d else get_or xs j d)
  get_or-set_default [] i j d = ground arith
  get_or-set_default (x ∷ xs) zero zero d = refl
  get_or-set_default (x ∷ xs) zero (suc j) d = ground arith
  get_or-set_default (x ∷ xs) (suc i) zero d = ground arith
  get_or-set_default (x ∷ xs) (suc i) (suc j) d = ground (arith, get_or-set_default xs i j d)

  -- An update of one element, and then the update that undoes it.
  pub set-undo :
      (f g : A → A) (d : A)
      → ((a : A) → g (f a) ≡ a)
      → (xs : List A) (i : ℕ)
      → set (set xs i (f (get_or xs i d))) i (g (get_or (set xs i (f (get_or xs i d))) i d)) ≡ xs
  set-undo f g d undo [] i = refl
  set-undo f g d undo (x ∷ xs) zero = ap (λ y. y ∷ xs) (undo x)
  set-undo f g d undo (x ∷ xs) (suc i) = ap (λ ys. x ∷ ys) (set-undo f g d undo xs i)

  -- Two updates of one element in a row.
  pub set-compose :
      (f g : A → A) (d : A) (xs : List A) (i : ℕ)
      → set (set xs i (f (get_or xs i d))) i (g (get_or (set xs i (f (get_or xs i d))) i d))
        ≡ set xs i (g (f (get_or xs i d)))
  set-compose f g d [] i = refl
  set-compose f g d (x ∷ xs) zero = refl
  set-compose f g d (x ∷ xs) (suc i) = ap (λ ys. x ∷ ys) (set-compose f g d xs i)
