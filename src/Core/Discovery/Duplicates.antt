-- ===== src/Core/Discovery/Duplicates.antt =====
-- What `find_duplicates` returns and raises.
use mathlib.Core.List.{Perm}
use mdrack.Base.{
  ℕ, zero, suc, ◌≤◌, ◌≡◌, refl, sym, ◌∙◌, Bool, true, false, not, some, none, Option, List, [], ◌∷◌,
  ◌++◌, drop, take-append-drop, take, length, length-take, keep_if, leb, All, All-take, All-Unit,
  arith, Bool-cases, inl, inr, ◌==◌, take_of_length-le,
}
use mdrack.Base.Results.{Result, ok, err, ◌>>=◌, >>=-eq-err, bind_cong}
use mdrack.Base.Order.{
  sort_by, Sorted, IsOrderOn, sort_by-Sorted, sort_by-All, sort_by-perm, length-sort_by,
}
use mdrack.Base.Text.{Str, str_eq, str_lt, str_lt_asymm, str_lt_chain, has_content}
use mdrack.Base.Floats.{Floats}
use mdrack.Core.Errors.{PyError, catalog_execution_error, ErrorCategory, is_catalog_category}
use mdrack.Core.Records.{ResourceRecord}
use mdrack.Core.Search.{SearchScope}
use mdrack.Core.Discovery.{
  ResourceReadPort, read_matches, resource_before, other_resources, find_duplicates,
  raise_catalog_error,
}

Sorted-take :
    {A : Type 0} (before : A → A → Bool) (n : ℕ) (xs : List A)
    → Sorted before xs
    → Sorted before (take n xs)
Sorted-take before zero xs h = tt
Sorted-take before (suc n) [] h = tt
Sorted-take before (suc n) (x ∷ xs) h =
    (All-take (λ y. before y x ≡ false) n xs h.0, Sorted-take before n xs h.1)

All-keep_if : {A : Type 0} (p : A → Bool) (xs : List A) → All (λ x. p x ≡ true) (keep_if p xs)
All-keep_if p [] = tt
All-keep_if p (x ∷ xs) = elim (Bool-cases (p x)) [
  | inl h ↦ rw h (h, All-keep_if p xs)
  | inr h ↦ rw h (All-keep_if p xs)
]

module _ (F : Floats) where
  resource_order : IsOrderOn (resource_before F) (λ (r : ResourceRecord F). Unit {0})
  unfolding resource_before
  resource_order = record {
    asymm = λ x y p q h. str_lt_asymm x.resource_id y.resource_id h;
    chain = λ x y z p q r h k. str_lt_chain x.resource_id y.resource_id z.resource_id h k;
  }

  -- The matches that are another resource
  abbrev pub others : Str → List (ResourceRecord F) → List (ResourceRecord F)
  others id = keep_if (λ (item : ResourceRecord F). not (item.resource_id == id))

  -- The order of the resource ids
  abbrev pub id_before : ResourceRecord F → ResourceRecord F → Bool
  id_before a b = str_lt a.resource_id b.resource_id

  -- What the duplicates of `id` among `matches` promise for a limit.
  pub record AreDuplicates (id : Str) (limit : ℕ) (matches out : List (ResourceRecord F))
      : Type 0 where
    pub bounded : length out ≤ limit
    pub sorted : Sorted id_before out
    pub apart : All (λ (r : ResourceRecord F). not (r.resource_id == id) ≡ true) out
    pub complete : length (others id matches) ≤ limit → Perm out (others id matches)
    -- What the limit cuts off stands behind what is kept.
    pub least :
        (rest : List (ResourceRecord F)) × Perm (out ++ rest) (others id matches)
        × Sorted id_before (out ++ rest)

  other_resources-AreDuplicates :
      (id : Str) (limit : ℕ) (matches : List (ResourceRecord F))
      → AreDuplicates id limit matches (other_resources F id limit matches)
  unfolding other_resources resource_before
  other_resources-AreDuplicates id limit matches =
      let sorted = sort_by (resource_before F) (others id matches) in
      record {
        bounded = omega (arith, length-take limit sorted);
        sorted = Sorted-take (resource_before F) limit sorted (
            sort_by-Sorted (resource_before F) resource_order (others id matches)
              (All-Unit (others id matches)));
        apart =
            All-take (λ (r : ResourceRecord F). not (r.resource_id == id) ≡ true) limit sorted
              (sort_by-All (resource_before F)
                (λ (r : ResourceRecord F). not (r.resource_id == id) ≡ true) (others id matches)
                (All-keep_if (λ (r : ResourceRecord F). not (r.resource_id == id)) matches));
        complete = λ few.
            rw
              (take_of_length-le limit sorted
                (omega (arith, length-sort_by (resource_before F) (others id matches))))
              (sort_by-perm (resource_before F) (others id matches));
        least = (
          drop limit sorted,
          rw (take-append-drop limit sorted) (sort_by-perm (resource_before F) (others id matches)),
          rw (take-append-drop limit sorted) (
              sort_by-Sorted (resource_before F) resource_order (others id matches)
                (All-Unit (others id matches))),
        );
      }

  -- For a resource id that is not blank, a positive limit and matches that the catalog finds,
  -- find_duplicates returns at most limit resources other than the one asked for, in the order of
  -- their ids, such that the others that are left out stand behind them in that order, and all
  -- the others when the limit admits them.
  pub find_duplicates-AreDuplicates :
      (catalog : ResourceReadPort F) (id : Str) (scope : SearchScope) (limit : ℕ)
      (matches : List (ResourceRecord F))
      → has_content id ≡ true
      → 1 ≤ limit
      → read_matches F catalog id scope ≡ ok (some matches)
      → (out : List (ResourceRecord F)) × (find_duplicates F catalog id scope limit ≡ ok out)
        × AreDuplicates id limit matches out
  unfolding find_duplicates raise_catalog_error
  find_duplicates-AreDuplicates catalog id scope limit matches content positive found =
      let e : leb 1 limit ≡ true = ground arith in
      (
        other_resources F id limit matches,
        rw (content, find_duplicates) (rw e (rw (found, find_duplicates))),
        other_resources-AreDuplicates id limit matches,
      )

  pub raise_catalog_error-catalog :
      {A : Type 0} (r : Result PyError A) (e : PyError)
      → raise_catalog_error r ≡ err e
      → (category : ErrorCategory) × (e ≡ catalog_execution_error category)
  unfolding raise_catalog_error is_catalog_category
  raise_catalog_error-catalog (ok a) e h = cc
  raise_catalog_error-catalog (err (catalog_execution_error c)) e h = (c, cc)
  raise_catalog_error-catalog (err PyError.timeout_error) e h = (ErrorCategory.adapter_timeout, cc)
  raise_catalog_error-catalog (err PyError.value_error) e h = (ErrorCategory.catalog_error, cc)
  raise_catalog_error-catalog (err PyError.type_error) e h = (ErrorCategory.catalog_error, cc)
  raise_catalog_error-catalog (err PyError.key_error) e h = (ErrorCategory.catalog_error, cc)
  raise_catalog_error-catalog (err PyError.index_error) e h = (ErrorCategory.catalog_error, cc)
  raise_catalog_error-catalog (err PyError.assertion_error) e h = (ErrorCategory.catalog_error, cc)
  raise_catalog_error-catalog (err PyError.attribute_error) e h = (ErrorCategory.catalog_error, cc)
  raise_catalog_error-catalog (err PyError.overflow_error) e h = (ErrorCategory.catalog_error, cc)
  raise_catalog_error-catalog (err PyError.zero_division_error) e h =
      (ErrorCategory.catalog_error, cc)
  raise_catalog_error-catalog (err PyError.other_error) e h = (ErrorCategory.catalog_error, cc)
  raise_catalog_error-catalog (err (PyError.core_error c)) e h = (ErrorCategory.catalog_error, cc)
  raise_catalog_error-catalog (err (PyError.branch_execution_error c b)) e h =
      (ErrorCategory.catalog_error, cc)

  -- What is left of `find_duplicates` once the matches are read.
  abbrev found :
      Str → ℕ → Option (List (ResourceRecord F)) → Result PyError (List (ResourceRecord F))
  found id limit none = ok []
  found id limit (some ms) = ok (other_resources F id limit ms)

  found-returns :
      (id : Str) (limit : ℕ) (m : Option (List (ResourceRecord F))) (e : PyError)
      → ¬ (found id limit m ≡ err e)
  found-returns id limit none e h = cc
  found-returns id limit (some ms) e h = cc

  find_duplicates-found :
      (catalog : ResourceReadPort F) (id : Str) (scope : SearchScope) (limit : ℕ)
      → has_content id ≡ true
      → 1 ≤ limit
      → find_duplicates F catalog id scope limit
        ≡ (raise_catalog_error (read_matches F catalog id scope) >>= found id limit)
  unfolding find_duplicates
  find_duplicates-found catalog id scope limit content positive =
      let e : leb 1 limit ≡ true = ground arith in
      rw (content, find_duplicates)
        (rw e (
          bind_cong (raise_catalog_error (read_matches F catalog id scope)) _ (found id limit)
            same))
    where
      same :
          (m : Option (List (ResourceRecord F)))
          → ◌≡◌ {A = Result PyError (List (ResourceRecord F))}
              (elim m [ none ↦ ok [] | some ms ↦ ok (other_resources F id limit ms) ])
              (found id limit m)
      same none = refl
      same (some ms) = refl

  -- For a resource id that is not blank and a positive limit, find_duplicates raises nothing but
  -- a CatalogExecutionError.
  pub find_duplicates-raises :
      (catalog : ResourceReadPort F) (id : Str) (scope : SearchScope) (limit : ℕ) (e : PyError)
      → has_content id ≡ true
      → 1 ≤ limit
      → find_duplicates F catalog id scope limit ≡ err e
      → (category : ErrorCategory) × (e ≡ catalog_execution_error category)
  find_duplicates-raises catalog id scope limit e content positive h =
      let read = raise_catalog_error (read_matches F catalog id scope) in
      elim (>>=-eq-err read (found id limit)
        (sym (find_duplicates-found catalog id scope limit content positive) ∙ h)) [
          | inl p ↦ raise_catalog_error-catalog (read_matches F catalog id scope) e p
          | inr p ↦ absurd (found-returns id limit p.0 e p.1)
        ]
