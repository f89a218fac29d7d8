-- ===== src/Base/Results.antt =====
-- Values that Python code returns or raises.
use mathlib.Core.Path.{◌≡◌, refl, subst}
use mathlib.Core.Logic.{◌⊎◌, inl, inr}
use mathlib.Core.Bool.{Bool, true, false}
use mdrack.Base.Lists.{All}
use mathlib.Core.List.{List, [], ◌∷◌}

-- `E` is the type of what is raised.
pub data Result {ℓ} (E A : Type ℓ) : Type ℓ where
  ok : A → Result E A
  err : E → Result E A

module _ {ℓ} {E : Type ℓ} where
  infixl 5 ◌>>=◌ ◌>>◌
  abbrev pub ◌>>=◌ : {A B : Type ℓ} → Result E A → (A → Result E B) → Result E B
  ok a >>= f = f a
  err e >>= f = err e

  abbrev pub ◌>>◌ : {B : Type ℓ} → Result E (Unit {ℓ}) → Result E B → Result E B
  m >> k = m >>= λ _. k

  -- `if not test: raise e`
  abbrev pub require : Bool → E → Result E (Unit {ℓ})
  require true e = ok tt
  require false e = err e

  -- Inversion of a successful bind.
  pub >>=-eq-ok :
      {X Y : Type ℓ} (run : Result E X) (rest : X → Result E Y) {y : Y}
      → (run >>= rest) ≡ ok y
      → (x : X) × (run ≡ ok x) × (rest x ≡ ok y)
  >>=-eq-ok (err e) rest returned = cc
  >>=-eq-ok (ok x) rest returned = (x, refl, returned)

  pub >>-eq-ok :
      {Y : Type ℓ} (run : Result E (Unit {ℓ})) (rest : Result E Y) {y : Y}
      → (run >> rest) ≡ ok y
      → (run ≡ ok tt) × (rest ≡ ok y)
  >>-eq-ok (err e) rest returned = cc
  >>-eq-ok (ok u) rest returned = (refl, returned)

  pub require-eq-ok : (b : Bool) (e : E) → require b e ≡ ok tt → b ≡ true
  require-eq-ok true e h = refl
  require-eq-ok false e h = cc

  -- Inversion of a bind that raises.
  pub >>=-eq-err :
      {X Y : Type ℓ} (run : Result E X) (rest : X → Result E Y) {e : E}
      → (run >>= rest) ≡ err e
      → (run ≡ err e) ⊎ ((x : X) × (rest x ≡ err e))
  >>=-eq-err (err e) rest raised = inl cc
  >>=-eq-err (ok x) rest raised = inr (x, raised)

  pub bind_assoc :
      {A B C : Type ℓ} (m : Result E A) (f : A → Result E B) (g : B → Result E C)
      → (m >>= f >>= g) ≡ (m >>= λ a. f a >>= g)
  bind_assoc (ok a) f g = refl
  bind_assoc (err e) f g = refl

  pub bind_cong :
      {A B : Type ℓ} (m : Result E A) (f g : A → Result E B)
      → ((a : A) → f a ≡ g a)
      → (m >>= f) ≡ (m >>= g)
  bind_cong (ok a) f g h = h a
  bind_cong (err e) f g h = refl

  -- `tuple(f(x) for x in l)` where `f` may raise: the first error ends it.
  unfoldable pub traverse : {A B : Type ℓ} → (A → Result E B) → List A → Result E (List B)
  traverse f [] = ok []
  traverse f (x ∷ xs) = do y ← f x; ys ← traverse f xs; ok (y ∷ ys)

module _ {A B : Type 0} where
  -- Two lists are related place by place.
  abbrev pub Each : (A → B → Type 0) → List A → List B → Type 0
  Each R [] [] = Unit
  Each R (x ∷ xs) (y ∷ ys) = R x y × Each R xs ys
  Each R [] (y ∷ ys) = ⊥
  Each R (x ∷ xs) [] = ⊥

  pub Each-map :
      (R S : A → B → Type 0) (xs : List A) (ys : List B)
      → ((x : A) (y : B) → R x y → S x y)
      → Each R xs ys
      → Each S xs ys
  Each-map R S [] [] f h = tt
  Each-map R S [] (y ∷ ys) f h = h
  Each-map R S (x ∷ xs) [] f h = h
  Each-map R S (x ∷ xs) (y ∷ ys) f h = (f x y h.0, Each-map R S xs ys f h.1)

  -- What holds of the first list carries over to the second.
  pub All-Each :
      (P : A → Type 0) (Q : B → Type 0) (R : A → B → Type 0) (xs : List A) (ys : List B)
      → ((x : A) (y : B) → P x → R x y → Q y)
      → All P xs
      → Each R xs ys
      → All Q ys
  All-Each P Q R [] [] f h e = tt
  All-Each P Q R [] (y ∷ ys) f h e = absurd e
  All-Each P Q R (x ∷ xs) [] f h e = tt
  All-Each P Q R (x ∷ xs) (y ∷ ys) f h e = (f x y h.0 e.0, All-Each P Q R xs ys f h.1 e.1)

module _ {A B E : Type 0} (f : A → Result E B) where
  pub traverse-Each :
      (xs : List A) {ys : List B} → traverse f xs ≡ ok ys → Each (λ x y. f x ≡ ok y) xs ys
  unfolding traverse
  traverse-Each [] {ys = []} h = tt
  traverse-Each [] {ys = y ∷ ys} h = cc
  traverse-Each (x ∷ xs) {ys} h =
      let (y, p, q) = >>=-eq-ok (f x) (λ b. do bs ← traverse f xs; ok (b ∷ bs)) h in
      let (zs, r, s) = >>=-eq-ok (traverse f xs) (λ bs. ok (y ∷ bs)) q in
      shape ys y zs s p (traverse-Each xs r)
    where
      shape :
          (ys : List B) (y : B) (zs : List B)
          → ◌≡◌ {A = Result E (List B)} (ok (y ∷ zs)) (ok ys)
          → f x ≡ ok y
          → Each (λ x y. f x ≡ ok y) xs zs
          → Each (λ x y. f x ≡ ok y) (x ∷ xs) ys
      shape [] y zs s p e = absurd (cc)
      shape (y' ∷ ys) y zs s p e =
          let k : y ≡ y' = cc in
          let l : zs ≡ ys = cc in (rw (← k) p, subst (Each (λ x y. f x ≡ ok y) xs) l e)

  -- When no element is refused, the whole traversal returns.
  pub traverse-returns :
      (xs : List A) → All (λ x. (y : B) × (f x ≡ ok y)) xs → (ys : List B) × (traverse f xs ≡ ok ys)
  unfolding traverse
  traverse-returns [] h = ([], refl)
  traverse-returns (x ∷ xs) h =
      let (y, p) = h.0 in let (ys, q) = traverse-returns xs h.1 in (y ∷ ys, rw (p, q))
