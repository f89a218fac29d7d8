-- ===== src/Base/Order.antt =====
-- `sorted(l, key=…)` and `l.sort(key=…)`: the stable sort by an order on the keys.
use mathlib.Core.Path.{◌≡◌, refl, ap, ◌∙◌}
use mathlib.Core.Logic.{inl, inr}
use mathlib.Core.Bool.{Bool, true, false}
use mathlib.Core.List.{List, [], ◌∷◌, Perm, map}
use mathlib.Core.List.Perm
use native.Mathlib.Omega.{arith}
use Prim.Native.Nat.{suc}
use mdrack.Base.Tests.{Eq, if◌then◌else◌, Bool-cases}
use mdrack.Base.Lists.{contains, Distinct, All, length}

module _ {ℓ} {A : Type ℓ} (before : A → A → Bool) where
  insert_by : A → List A → List A
  insert_by x [] = x ∷ []
  insert_by x (y ∷ ys) = if before y x then y ∷ insert_by x ys else x ∷ y ∷ ys

  -- Members that neither is before the other keep their order.
  unfoldable pub sort_by : List A → List A
  unfolding insert_by
  sort_by [] = []
  sort_by (x ∷ xs) = insert_by x (sort_by xs)

  -- No later member is before an earlier one.
  abbrev pub Sorted : List A → Type ℓ
  Sorted [] = Unit
  Sorted (x ∷ xs) = All (λ y. before y x ≡ false) xs × Sorted xs

  -- The laws of a sort key on the values that satisfy `P`.
  pub record IsOrderOn {κ} (P : A → Type κ) : Type (ℓ ⊔ κ) where
    pub asymm : (x y : A) → P x → P y → before x y ≡ true → before y x ≡ false
    pub chain :
        (x y z : A) → P x → P y → P z → before y x ≡ false → before z y ≡ false → before z x ≡ false

  insert_by-perm : (x : A) (xs : List A) → Perm (insert_by x xs) (x ∷ xs)
  unfolding insert_by
  insert_by-perm x [] = Perm.rfl
  insert_by-perm x (y ∷ ys) = elim (Bool-cases (before y x)) [
    | inl p ↦ rw p (Perm.trans (Perm.cons y (insert_by-perm x ys)) (Perm.swap x y ys))
    | inr p ↦ rw p Perm.rfl
  ]

  -- The sort returns a rearrangement of its input.
  pub sort_by-perm : (xs : List A) → Perm (sort_by xs) xs
  unfolding sort_by
  sort_by-perm [] = Perm.rfl
  sort_by-perm (x ∷ xs) = Perm.trans (insert_by-perm x (sort_by xs)) (Perm.cons x (sort_by-perm xs))

  insert_by-All {κ} :
      (P : A → Type κ) (x : A) (xs : List A) → P x → All P xs → All P (insert_by x xs)
  unfolding insert_by
  insert_by-All P x [] p h = (p, tt)
  insert_by-All P x (y ∷ ys) p h = elim (Bool-cases (before y x)) [
    | inl q ↦ rw q (h.0, insert_by-All P x ys p h.1)
    | inr q ↦ rw q (p, h)
  ]

  pub sort_by-All {κ} : (P : A → Type κ) (xs : List A) → All P xs → All P (sort_by xs)
  unfolding sort_by
  sort_by-All P [] h = tt
  sort_by-All P (x ∷ xs) h = insert_by-All P x (sort_by xs) h.0 (sort_by-All P xs h.1)

  All-insert_by {κ} :
      (P : A → Type κ) (x : A) (xs : List A) → All P (insert_by x xs) → P x × All P xs
  unfolding insert_by
  All-insert_by P x [] h = (h.0, tt)
  All-insert_by P x (y ∷ ys) h = elim (Bool-cases (before y x)) [
    | inl q ↦
        let h' = rw (q, insert_by) at h in
        let (px, pys) = All-insert_by P x ys h'.1 in (px, (h'.0, pys))
    | inr q ↦ let h' = rw (q, insert_by) at h in (h'.0, h'.1)
  ]

  -- What holds of every member of the sorted list holds of every member.
  pub All-sort_by {κ} : (P : A → Type κ) (xs : List A) → All P (sort_by xs) → All P xs
  unfolding sort_by
  All-sort_by P [] h = tt
  All-sort_by P (x ∷ xs) h =
      let (px, pxs) = All-insert_by P x (sort_by xs) h in (px, All-sort_by P xs pxs)

  length-insert_by : (x : A) (xs : List A) → length (insert_by x xs) ≡ suc (length xs)
  unfolding insert_by
  length-insert_by x [] = refl
  length-insert_by x (y ∷ ys) = ground (arith, length-insert_by x ys)

  pub length-sort_by : (xs : List A) → length (sort_by xs) ≡ length xs
  unfolding sort_by
  length-sort_by [] = refl
  length-sort_by (x ∷ xs) = length-insert_by x (sort_by xs) ∙ ap suc (length-sort_by xs)

  module _ {κ} {K : Type κ} ⦃e : Eq K⦄ (key : A → K) where
    contains-insert_by :
        (k : K) (x : A) (xs : List A)
        → contains k (map key (insert_by x xs)) ≡ contains k (map key (x ∷ xs))
    unfolding insert_by
    contains-insert_by k x [] = refl
    contains-insert_by k x (y ∷ ys) = ground (arith, contains-insert_by k x ys)

    pub contains-sort_by :
        (k : K) (xs : List A) → contains k (map key (sort_by xs)) ≡ contains k (map key xs)
    unfolding sort_by
    contains-sort_by k [] = refl
    contains-sort_by k (x ∷ xs) =
        ground (arith, contains-insert_by k x (sort_by xs), contains-sort_by k xs)

    insert_by-Distinct :
        (x : A) (xs : List A) → Distinct (map key (x ∷ xs)) → Distinct (map key (insert_by x xs))
    unfolding insert_by
    insert_by-Distinct x [] d = d
    insert_by-Distinct x (y ∷ ys) d = elim (Bool-cases (before y x)) [
      | inl q ↦ rw q (
        ground (
          arith,
          contains-insert_by (key y) x ys,
          e.beq_iff (key x) (key y),
          e.beq_iff (key y) (key x),
        ),
        insert_by-Distinct x ys (ground arith, d.1.1),
      )
      | inr q ↦ rw q d
    ]

    -- Sorting keeps the keys of its members apart.
    pub sort_by-Distinct : (xs : List A) → Distinct (map key xs) → Distinct (map key (sort_by xs))
    unfolding sort_by
    sort_by-Distinct [] d = tt
    sort_by-Distinct (x ∷ xs) d =
        insert_by-Distinct x (sort_by xs)
          (rw (contains-sort_by (key x) xs) d.0, sort_by-Distinct xs d.1)

  module _ {κ} {P : A → Type κ} (o : IsOrderOn P) where
    below_trans :
        (x y : A) (ys : List A)
        → P x
        → P y
        → All P ys
        → before y x ≡ false
        → All (λ z. before z y ≡ false) ys
        → All (λ z. before z x ≡ false) ys
    below_trans x y [] px py ps h b = tt
    below_trans x y (z ∷ zs) px py ps h b =
        (o.chain x y z px py ps.0 h b.0, below_trans x y zs px py ps.1 h b.1)

    insert_by-Sorted : (x : A) (xs : List A) → P x → All P xs → Sorted xs → Sorted (insert_by x xs)
    unfolding insert_by
    insert_by-Sorted x [] p ps s = (tt, tt)
    insert_by-Sorted x (y ∷ ys) p ps s = elim (Bool-cases (before y x)) [
      | inl q ↦ rw q (
        insert_by-All (λ z. before z y ≡ false) x ys (o.asymm y x ps.0 p q) s.0,
        insert_by-Sorted x ys p ps.1 s.1,
      )
      | inr q ↦ rw q ((q, below_trans x y ys p ps.0 ps.1 q s.0), s)
    ]

    -- The sort returns an ascending list.
    pub sort_by-Sorted : (xs : List A) → All P xs → Sorted (sort_by xs)
    unfolding sort_by
    sort_by-Sorted [] h = tt
    sort_by-Sorted (x ∷ xs) h =
        insert_by-Sorted x (sort_by xs) h.0 (sort_by-All P xs h.1) (sort_by-Sorted xs h.1)
