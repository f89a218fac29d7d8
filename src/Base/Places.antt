-- ===== src/Base/Places.antt =====
-- The place of a text in a list, and a dict that keeps the first place it is given for a key.
use Prim.Native.Nat.{ℕ, suc, ◌+◌}
use mathlib.Core.Path.{◌≡◌, refl, ap, ◌∙◌}
use mathlib.Core.Logic.{inl, inr}
use mathlib.Core.Option.{Option, none, some}
use mathlib.Core.List.{List, [], ◌∷◌, ◌++◌}
use native.Mathlib.Omega.{arith}
use mdrack.Base.Tests.{Bool-cases, Option-cases, if◌then◌else◌, ◌==◌}
use mdrack.Base.Lists.{length}
use mdrack.Base.Dict.{Dict, lookup, set_default, get_or, lookup-set_default}
use mdrack.Base.Text.{Str, str_eq}

-- The place of the first occurrence of a text, counted from `start`
unfoldable pub place_of : ℕ → List Str → Str → Option ℕ
place_of start [] x = none
place_of start (y ∷ ys) x = if y == x then some start else place_of (suc start) ys x

-- The first of two values that is there
unfoldable pub or_else : Option ℕ → Option ℕ → Option ℕ
or_else (some v) o = some v
or_else none o = o

pub or_else-none : (o : Option ℕ) → or_else o none ≡ o
unfolding or_else
or_else-none none = refl
or_else-none (some v) = refl

or_else-get_or :
    (x : Str) (start : ℕ) (places : Dict Str ℕ)
    → some (get_or x start places) ≡ or_else (lookup x places) (some start)
unfolding or_else get_or
or_else-get_or x start places = elim (Option-cases (lookup x places)) [
  | inl e ↦ rw (e, get_or) refl
  | inr (v, e) ↦ rw (e, get_or) refl
]

pub or_else-set_default :
    (y x : Str) (start : ℕ) (places : Dict Str ℕ) (o : Option ℕ)
    → or_else (lookup x (set_default y start places)) o
      ≡ or_else (lookup x places) (if y == x then some start else o)
unfolding or_else
or_else-set_default y x start places o = elim (Bool-cases (y == x)) [
  | inl e ↦
      let f = (str_eq.beq_iff y x).0 e in
      rw (lookup-set_default y x start places, e, f, or_else-get_or x start places) refl
  | inr e ↦ rw (lookup-set_default y x start places, e) refl
]

pub or_else_assoc : (o p q : Option ℕ) → or_else (or_else o p) q ≡ or_else o (or_else p q)
unfolding or_else
or_else_assoc none p q = refl
or_else_assoc (some v) p q = refl

pub place_of-append :
    (start : ℕ) (xs ys : List Str) (x : Str)
    → place_of start (xs ++ ys) x
      ≡ or_else (place_of start xs x) (place_of (start + length xs) ys x)
unfolding place_of or_else
place_of-append start [] ys x = ap (λ (n : ℕ). place_of n ys x) (omega arith)
place_of-append start (y ∷ xs) ys x = elim (Bool-cases (y == x)) [
  | inl e ↦ rw (e, place_of) refl
  | inr e ↦
      rw (e, place_of)
        (place_of-append (suc start) xs ys x
          ∙ ap (λ (n : ℕ). or_else (place_of (suc start) xs x) (place_of n ys x)) (omega arith))
]
