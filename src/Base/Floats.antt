-- ===== src/Base/Floats.antt =====
-- Python's `float` as a parameter: the operations that the program uses on scores, weights and
-- vectors, and what IEEE 754 says of them on values that are not negative and not NaN.
use mathlib.Core.Path.{◌≡◌}
use mathlib.Core.Bool.{Bool, true, false, not, ◌&&◌}
use mathlib.Core.List.{List}
use Prim.Native.Nat.{ℕ, ◌+◌, ◌≤◌}

pub record Floats : Type 1 where
  pub Float : Type 0
  pub zero_float : Float
  pub one_float : Float
  pub add : Float → Float → Float
  -- An `int` up to a bound has a `float` next to it; another raises `OverflowError` in a division.
  pub fits_float : ℕ → Bool
  -- `x / n`, and `x / -(n + 1)`, for an `int` that fits
  pub div_int : Float → ℕ → Float
  pub div_negative : Float → ℕ → Float
  pub lt : Float → Float → Bool
  pub feq : Float → Float → Bool
  pub is_finite : Float → Bool
  pub is_nan : Float → Bool
  -- `math.hypot(*v)`
  pub hypot : List Float → Float

-- Not NaN and not below zero.
abbrev pub Nonneg : (F : Floats) → F.Float → Type 0
Nonneg F x = (F.is_nan x ≡ false) × (F.lt x F.zero_float ≡ false)

-- What IEEE 754 guarantees of the operations on such values.
pub record IsIeee (F : Floats) : Type 0 where
  pub finite_not_nan : (x : F.Float) → F.is_finite x ≡ true → F.is_nan x ≡ false
  pub zero_nonneg : Nonneg F F.zero_float
  pub add_nonneg : (x y : F.Float) → Nonneg F x → Nonneg F y → Nonneg F (F.add x y)
  pub div_nonneg : (x : F.Float) (n : ℕ) → 1 ≤ n → Nonneg F x → Nonneg F (F.div_int x n)
  pub lt_asymm : (x y : F.Float) → F.lt x y ≡ true → F.lt y x ≡ false
  pub lt_chain :
      (x y z : F.Float)
      → Nonneg F x
      → Nonneg F y
      → Nonneg F z
      → F.lt x y ≡ false
      → F.lt y z ≡ false
      → F.lt x z ≡ false
  pub feq_iff :
      (x y : F.Float) → Nonneg F x → Nonneg F y → F.feq x y ≡ (not (F.lt x y) && not (F.lt y x))

-- Each sum `k + 1` to `k + n` has a `float` next to it.
abbrev pub FitsUpTo : (F : Floats) → ℕ → ℕ → Type 0
FitsUpTo F k n = (i : ℕ) → 1 ≤ i → i ≤ n → F.fits_float (k + i) ≡ true
