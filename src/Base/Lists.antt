-- ===== src/Base/Lists.antt =====
-- Lists measured by native numbers, Python's slices, and predicates on lists.
use Prim.Native.Nat.{ℕ, zero, suc, ◌+◌, ◌-◌, ◌≤◌, min}
use mathlib.Core.Path.{◌≡◌, refl, ap, subst}
use mathlib.Core.Bool.{Bool, true, false, ◌||◌}
use mathlib.Core.List.{List, [], ◌∷◌, ◌++◌, map}
use mathlib.Core.Option.{Option, none, some}
use native.Mathlib.Omega.{arith}
use mathlib.Core.Logic.{inl, inr}
use mdrack.Base.Tests.{Eq, Bool-cases, ◌==◌, if◌then◌else◌}

module _ {ℓ} {A : Type ℓ} where
  -- `len(l)`
  abbrev pub length : List A → ℕ
  length [] = 0
  length (x ∷ xs) = suc (length xs)

  abbrev pub get_elem? : List A → ℕ → Option A
  get_elem? [] i = none
  get_elem? (x ∷ xs) zero = some x
  get_elem? (x ∷ xs) (suc i) = get_elem? xs i

  -- `l[:n]`
  abbrev pub take : ℕ → List A → List A
  take zero xs = []
  take (suc n) [] = []
  take (suc n) (x ∷ xs) = x ∷ take n xs

  -- `l[n:]`
  abbrev pub drop : ℕ → List A → List A
  drop zero xs = xs
  drop (suc n) [] = []
  drop (suc n) (x ∷ xs) = drop n xs

  pub length-append : (xs ys : List A) → length (xs ++ ys) ≡ length xs + length ys
  length-append [] ys = omega arith
  length-append (x ∷ xs) ys = omega (arith, length-append xs ys)

  pub length-take : (n : ℕ) (xs : List A) → length (take n xs) ≡ min n (length xs)
  length-take zero xs = omega arith
  length-take (suc n) [] = omega arith
  length-take (suc n) (x ∷ xs) = omega (arith, length-take n xs)

  pub take_of_length-le : (n : ℕ) (xs : List A) → length xs ≤ n → take n xs ≡ xs
  take_of_length-le (suc n) (x ∷ xs) short = ap (◌∷◌ x) (take_of_length-le n xs (omega arith))
  take_of_length-le (suc n) [] short = refl
  take_of_length-le zero (x ∷ xs) short = absurd (omega arith)
  take_of_length-le zero [] short = refl

  pub take-append-drop : (n : ℕ) (xs : List A) → take n xs ++ drop n xs ≡ xs
  take-append-drop zero xs = refl
  take-append-drop (suc n) [] = refl
  take-append-drop (suc n) (x ∷ xs) = ap (◌∷◌ x) (take-append-drop n xs)

  pub length-drop : (n : ℕ) (xs : List A) → length (drop n xs) ≡ length xs - n
  length-drop zero xs = omega arith
  length-drop (suc n) [] = omega arith
  length-drop (suc n) (x ∷ xs) = omega (arith, length-drop n xs)

  -- The comprehension `[x for x in l if keep(x)]`.
  abbrev pub keep_if : (A → Bool) → List A → List A
  keep_if p [] = []
  keep_if p (x ∷ xs) = if p x then x ∷ keep_if p xs else keep_if p xs

module _ {ℓ κ} {A : Type ℓ} where
  -- Every member satisfies `P`.
  abbrev pub All : (A → Type κ) → List A → Type κ
  All P [] = Unit
  All P (x ∷ xs) = P x × All P xs

  pub All-Unit : (xs : List A) → All (λ x. Unit {κ}) xs
  All-Unit [] = tt
  All-Unit (x ∷ xs) = (tt, All-Unit xs)

  pub All-append : (P : A → Type κ) (xs ys : List A) → All P xs → All P ys → All P (xs ++ ys)
  All-append P [] ys h k = k
  All-append P (x ∷ xs) ys h k = (h.0, All-append P xs ys h.1 k)

  pub All-take : (P : A → Type κ) (n : ℕ) (xs : List A) → All P xs → All P (take n xs)
  All-take P zero xs h = tt
  All-take P (suc n) [] h = tt
  All-take P (suc n) (x ∷ xs) h = (h.0, All-take P n xs h.1)

  pub All-drop : (P : A → Type κ) (n : ℕ) (xs : List A) → All P xs → All P (drop n xs)
  All-drop P zero xs h = h
  All-drop P (suc n) [] h = h
  All-drop P (suc n) (x ∷ xs) h = All-drop P n xs h.1

module _ {ℓ κ μ} {A : Type ℓ} where
  pub All-map :
      (P : A → Type κ) (Q : A → Type μ) (xs : List A) → ((a : A) → P a → Q a) → All P xs → All Q xs
  All-map P Q [] f h = tt
  All-map P Q (x ∷ xs) f h = (f x h.0, All-map P Q xs f h.1)

module _ {ℓ κ μ ν} {A : Type ℓ} where
  pub All-zip :
      (P : A → Type κ) (Q : A → Type μ) (R : A → Type ν) (xs : List A)
      → ((a : A) → P a → Q a → R a)
      → All P xs
      → All Q xs
      → All R xs
  All-zip P Q R [] f h k = tt
  All-zip P Q R (x ∷ xs) f h k = (f x h.0 k.0, All-zip P Q R xs f h.1 k.1)

module _ {ℓ} {A : Type ℓ} ⦃e : Eq A⦄ where
  -- `a in l`
  abbrev pub contains : A → List A → Bool
  contains a [] = false
  contains a (x ∷ xs) = (x == a) || contains a xs

  -- No value stands twice.
  abbrev pub Distinct : List A → Type 0
  Distinct [] = Unit
  Distinct (x ∷ xs) = (contains x xs ≡ false) × Distinct xs

  -- The keys of a dict after a key is written: a new key goes last.
  abbrev pub add_key : A → List A → List A
  add_key a xs = if contains a xs then xs else xs ++ (a ∷ [])

  pub contains-append :
      (a : A) (xs ys : List A) → contains a (xs ++ ys) ≡ (contains a xs || contains a ys)
  contains-append a [] ys = refl
  contains-append a (x ∷ xs) ys = ground (arith, contains-append a xs ys)

  pub contains-add_key :
      (a b : A) (xs : List A) → contains a (add_key b xs) ≡ ((b == a) || contains a xs)
  contains-add_key a b xs = ground (arith, contains-append a xs (b ∷ []), e.beq_iff b a)

  contains-take :
      (k : A) (n : ℕ) (xs : List A) → contains k xs ≡ false → contains k (take n xs) ≡ false
  contains-take k zero xs h = refl
  contains-take k (suc n) [] h = refl
  contains-take k (suc n) (x ∷ xs) h = ground (arith, contains-take k n xs)

  pub Distinct-take : (n : ℕ) (xs : List A) → Distinct xs → Distinct (take n xs)
  Distinct-take zero xs d = tt
  Distinct-take (suc n) [] d = tt
  Distinct-take (suc n) (x ∷ xs) d = (contains-take x n xs d.0, Distinct-take n xs d.1)

  pub Distinct-snoc :
      (a : A) (xs : List A) → contains a xs ≡ false → Distinct xs → Distinct (xs ++ (a ∷ []))
  Distinct-snoc a [] h d = (refl, tt)
  Distinct-snoc a (x ∷ xs) h d = (
    ground (arith, contains-append x xs (a ∷ []), e.beq_iff x a, e.beq_iff a x),
    Distinct-snoc a xs (ground arith) d.1,
  )

  pub Distinct-add_key : (a : A) (xs : List A) → Distinct xs → Distinct (add_key a xs)
  Distinct-add_key a xs d =
      (elim (contains a xs)
          as (λ b. contains a xs ≡ b → Distinct (if b then xs else xs ++ (a ∷ []))) [
            | true ↦ λ h. d
            | false ↦ λ h. Distinct-snoc a xs h d
          ])
        refl

module _ {ℓ κ} {A : Type ℓ} {B : Type κ} (f : A → B) where
  pub map-take : (n : ℕ) (xs : List A) → map f (take n xs) ≡ take n (map f xs)
  map-take zero xs = refl
  map-take (suc n) [] = refl
  map-take (suc n) (x ∷ xs) = ap (◌∷◌ (f x)) (map-take n xs)

  pub length-map : (xs : List A) → length (map f xs) ≡ length xs
  length-map [] = refl
  length-map (x ∷ xs) = ap suc (length-map xs)

module _ {ℓ κ} {A : Type ℓ} ⦃e : Eq A⦄ (P : A → Type κ) where
  pub contains-All : (a : A) (xs : List A) → contains a xs ≡ true → All P xs → P a
  contains-All a [] h k = absurd (cc)
  contains-All a (x ∷ xs) h k = elim (Bool-cases (x == a)) [
    | inl p ↦ subst P ((e.beq_iff x a).0 p) k.0
    | inr p ↦ contains-All a xs (ground arith) k.1
  ]
