-- ===== src/Core/Indexing/Writes.antt =====
-- What reaches the store, and what the service raises.
use mdrack.Base.{Bool, true, false, ◌≡◌, refl, ap, ◌∙◌, ◌⊎◌, inl, inr}
use mdrack.Base.Results.{Result, ok, err}
use mdrack.Base.Text.{Str}
use mdrack.Base.Floats.{Floats}
use mdrack.Core.Errors.{
  PyError, value_error, assertion_error, attribute_error, core_error, catalog_execution_error,
  ErrorCategory,
}
use mdrack.Core.Json.{Json}
use mdrack.Core.Records.{PreparedResourceBatch}
use mdrack.Core.Validation.{validate_prepared_batch}
use mdrack.Core.Validation.Graphs.{IsGraph, validate_prepared_batch-IsGraph}
use mdrack.Core.Validation.Raises.{validate_prepared_batch-RaisesValue}
use mdrack.Core.Indexing.{
  WritePort, classify_write, index_batch, raise_validation_error, PublishAnswer,
}

Result-cases : {E A : Type 0} (r : Result E A) → ((a : A) × (r ≡ ok a)) ⊎ ((e : E) × (r ≡ err e))
Result-cases (ok a) = inl (a, refl)
Result-cases (err e) = inr (e, refl)

module _ (F : Floats) (canonical_json : Json F → Str) (Store : Type 0) where
  -- The validator accepts a graph, or raises `ValueError`.
  validated :
      (b : PreparedResourceBatch F)
      → ((validate_prepared_batch F canonical_json b ≡ ok tt) × IsGraph F canonical_json b)
        ⊎ (validate_prepared_batch F canonical_json b ≡ err value_error)
  validated b = elim (Result-cases (validate_prepared_batch F canonical_json b)) [
    | inl p ↦ inl (p.1, validate_prepared_batch-IsGraph F canonical_json b p.1)
    | inr p ↦ inr (
        p.1
        ∙ ap (λ e. err e)
            ((validate_prepared_batch-RaisesValue F canonical_json b).value_only p.0 p.1))
  ]

  -- Indexing a batch either raises CoreError(VALIDATION) and leaves the store as it was, or the
  -- batch is a resource graph and the outcome is that of the port's replace_resource with its
  -- errors sorted into catalog errors.
  pub index_batch-guards :
      (port : WritePort F canonical_json Store) (b : PreparedResourceBatch F) (store : Store)
      → (index_batch F canonical_json Store port b store
          ≡ (err (core_error ErrorCategory.validation), store))
        ⊎ (IsGraph F canonical_json b
            × (index_batch F canonical_json Store port b store
                ≡ classify_write F canonical_json Store (port.replace_resource b store)))
  unfolding index_batch raise_validation_error
  index_batch-guards port b store = elim (validated b) [
    | inl p ↦ inr (p.1, rw (p.0, index_batch))
    | inr p ↦ inl (rw (p, index_batch))
  ]

  abbrev pub is_published : PublishAnswer F canonical_json Store → Bool
  is_published (PublishAnswer.published r) = true
  is_published _ = false

  -- What a publication raises once the port has been called
  abbrev pub AnswerRaises : Result PyError (PublishAnswer F canonical_json Store) → PyError → Type 0
  AnswerRaises r e =
      ((category : ErrorCategory) × (e ≡ catalog_execution_error category))
      ⊎ ((answer : PublishAnswer F canonical_json Store) × (r ≡ ok answer)
          × (is_published answer ≡ false)
          × ((e ≡ assertion_error) ⊎ (e ≡ attribute_error)))
