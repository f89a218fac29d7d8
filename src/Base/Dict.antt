-- ===== src/Base/Dict.antt =====
-- Python's `dict`: an association list in insertion order. A key that is written again keeps
-- its place, as in the language.
use mathlib.Core.Path.{◌≡◌, refl}
use mathlib.Core.Bool.{true, false}
use mathlib.Core.Option.{Option, none, some}
use mathlib.Core.List.{List, [], ◌∷◌}
use mathlib.Core.Logic.{inl, inr}
use native.Mathlib.Omega.{arith}
use mdrack.Base.Tests.{eq_refl, Eq, ◌==◌, if◌then◌else◌, Bool-cases}
use mdrack.Base.Lists.{All, All-zip, Distinct, contains, add_key}

abbrev pub Dict {ℓ κ} : Type ℓ → Type κ → Type (ℓ ⊔ κ)
Dict K V = List (K × V)

module _ {ℓ κ} {K : Type ℓ} {V : Type κ} where
  -- `list(d)`
  abbrev pub keys : Dict K V → List K
  keys [] = []
  keys ((k, v) ∷ d) = k ∷ keys d

module _ {ℓ κ} {K : Type ℓ} {V : Type κ} ⦃e : Eq K⦄ where
  -- `d.get(k)`
  unfoldable pub lookup : K → Dict K V → Option V
  lookup k [] = none
  lookup k ((j, v) ∷ d) = if j == k then some v else lookup k d

  -- `d[k] = v`
  unfoldable pub insert : K → V → Dict K V → Dict K V
  insert k v [] = (k, v) ∷ []
  insert k v ((j, w) ∷ d) = if j == k then (j, v) ∷ d else (j, w) ∷ insert k v d

  -- `d.setdefault(k, v)` as a statement
  unfoldable pub set_default : K → V → Dict K V → Dict K V
  set_default k v [] = (k, v) ∷ []
  set_default k v ((j, w) ∷ d) = if j == k then (j, w) ∷ d else (j, w) ∷ set_default k v d

  -- `d.get(k, default)`
  unfoldable pub get_or : K → V → Dict K V → V
  get_or k v d = elim (lookup k d) [ some w ↦ w | none ↦ v ]

  pub lookup-insert :
      (k j : K) (v : V) (d : Dict K V)
      → lookup j (insert k v d) ≡ (if k == j then some v else lookup j d)
  unfolding lookup insert
  lookup-insert k j v [] = refl
  lookup-insert k j v ((i, w) ∷ d) =
      ground (arith, e.beq_iff k j, e.beq_iff i k, e.beq_iff i j, lookup-insert k j v d)

  pub lookup-set_default :
      (k j : K) (v : V) (d : Dict K V)
      → lookup j (set_default k v d) ≡ (if k == j then some (get_or k v d) else lookup j d)
  unfolding lookup set_default get_or
  lookup-set_default k j v [] = refl
  lookup-set_default k j v ((i, w) ∷ d) =
      ground (arith, e.beq_iff k j, e.beq_iff i k, e.beq_iff i j, lookup-set_default k j v d)

  pub get_or-insert :
      (k j : K) (v w : V) (d : Dict K V)
      → get_or j w (insert k v d) ≡ (if k == j then v else get_or j w d)
  unfolding get_or
  get_or-insert k j v w d = ground (arith, lookup-insert k j v d)

  pub keys-insert : (k : K) (v : V) (d : Dict K V) → keys (insert k v d) ≡ add_key k (keys d)
  unfolding insert
  keys-insert k v [] = refl
  keys-insert k v ((j, w) ∷ d) = ground (arith, keys-insert k v d)

  pub keys-set_default :
      (k : K) (v : V) (d : Dict K V) → keys (set_default k v d) ≡ add_key k (keys d)
  unfolding set_default
  keys-set_default k v [] = refl
  keys-set_default k v ((j, w) ∷ d) = ground (arith, keys-set_default k v d)

  -- A key is found exactly when it is among the keys.
  pub lookup-some :
      (k : K) (d : Dict K V) → contains k (keys d) ≡ true → (v : V) × (lookup k d ≡ some v)
  unfolding lookup
  lookup-some k [] h = cc
  lookup-some k ((j, w) ∷ d) h = elim (Bool-cases (j == k)) [
    | inl p ↦ (w, rw p)
    | inr p ↦ let (v, q) = lookup-some k d (ground arith) in (v, rw p q)
  ]

  pub lookup-none : (k : K) (d : Dict K V) → contains k (keys d) ≡ false → lookup k d ≡ none
  unfolding lookup
  lookup-none k [] h = refl
  lookup-none k ((j, w) ∷ d) h = ground (arith, lookup-none k d)

  keys_differ :
      (k : K) (d : Dict K V) → contains k (keys d) ≡ false → All (λ p. (k == p.0) ≡ false) d
  keys_differ k [] h = tt
  keys_differ k ((j, w) ∷ d) h =
      (ground (arith, e.beq_iff j k, e.beq_iff k j), keys_differ k d (ground arith))

  -- The items of a dict are what `d.get` finds.
  pub items-lookup : (d : Dict K V) → Distinct (keys d) → All (λ p. lookup p.0 d ≡ some p.1) d
  unfolding lookup
  items-lookup [] h = tt
  items-lookup ((k, v) ∷ d) h = (
    rw (eq_refl k),
    All-zip (λ p. (k == p.0) ≡ false) (λ p. lookup p.0 d ≡ some p.1)
        (λ p. lookup p.0 ((k, v) ∷ d) ≡ some p.1) d (λ p differ found. rw differ found)
        (keys_differ k d h.0) (items-lookup d h.1),
  )
