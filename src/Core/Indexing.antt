-- ===== src/Core/Indexing.antt =====
-- `CoreIndexingService` of packages/mdrack-core/src/mdrack_core/application/indexing.py, without
-- its log events and the counts that they carry.
pub mod Writes
use mdrack.Base.{Option, none, some, Bool, true, false}
use mdrack.Base.Results.{Result, ok, err, ◌>>=◌}
use mdrack.Base.Text.{Str}
use mdrack.Base.Floats.{Floats}
use mdrack.Core.Errors.{
  PyError, value_error, type_error, assertion_error, attribute_error, core_error, ErrorCategory,
}
use mdrack.Core.Json.{Json}
use mdrack.Core.Common.{require_non_empty}
use mdrack.Core.Records.{PreparedResourceBatch}
use mdrack.Core.Discovery.{raise_catalog_error}
use mdrack.Core.Publication.{ExpectedPublication, PublicationResult}
use mdrack.Core.Validation.{validate_prepared_batch}

-- `except (TypeError, ValueError): raise CoreError(ErrorCategory.VALIDATION)`
unfoldable pub raise_validation_error : PyError → PyError
raise_validation_error value_error = core_error ErrorCategory.validation
raise_validation_error type_error = core_error ErrorCategory.validation
raise_validation_error e = e

-- `except ValueError: raise CoreError(ErrorCategory.VALIDATION)`
unfoldable pub raise_value_error : PyError → PyError
raise_value_error value_error = core_error ErrorCategory.validation
raise_value_error e = e

module _ (F : Floats) (canonical_json : Json F → Str) (Store : Type 0) where
  -- What a `compare_and_publish` returns: a result, `None`, or another value, which has an
  -- attribute `applied` or not.
  pub data PublishAnswer : Type 0 where
    published : PublicationResult F → PublishAnswer
    returned_none : PublishAnswer
    returned_other : Bool → PublishAnswer

  -- A write port over its store. The store after a call that raises is the port's own affair.
  pub record WritePort : Type 0 where
    pub replace_resource : PreparedResourceBatch F → Store → Result PyError (Unit {0}) × Store
    pub delete_resource : Str → Store → Result PyError (Unit {0}) × Store
    -- The method of a port that is a `PublicationPort` too
    pub compare_and_publish : Option (
        PreparedResourceBatch F
        → ExpectedPublication F
        → Store
        → Result PyError PublishAnswer × Store)

  -- The `except` clauses around a write
  abbrev pub classify_write : {A : Type 0} → Result PyError A × Store → Result PyError A × Store
  classify_write (r, store) = (raise_catalog_error r, store)

  -- `index`
  unfoldable pub index_batch :
      WritePort → PreparedResourceBatch F → Store → Result PyError (Unit {0}) × Store
  unfolding raise_validation_error raise_catalog_error
  index_batch port batch store = elim (validate_prepared_batch F canonical_json batch) [
    | err e ↦ (err (raise_validation_error e), store)
    | ok u ↦ classify_write (port.replace_resource batch store)
  ]

  -- `result.applied` of the last log event, and the `assert isinstance(result, PublicationResult)`
  unfoldable pub check_answer : PublishAnswer → Result PyError (PublicationResult F)
  check_answer (published result) = ok result
  check_answer returned_none = err assertion_error
  check_answer (returned_other true) = err assertion_error
  check_answer (returned_other false) = err attribute_error

  abbrev pub answered :
      Result PyError PublishAnswer × Store → Result PyError (PublicationResult F) × Store
  answered (r, store) = (r >>= check_answer, store)

  -- `index_if_current`
  unfoldable pub index_if_current :
      WritePort
      → PreparedResourceBatch F
      → ExpectedPublication F
      → Store
      → Result PyError (PublicationResult F) × Store
  unfolding raise_validation_error raise_catalog_error check_answer
  index_if_current port batch expected store = elim port.compare_and_publish [
    | none ↦ (err type_error, store)
    | some publish ↦ elim (validate_prepared_batch F canonical_json batch) [
      | err e ↦ (err (raise_validation_error e), store)
      | ok u ↦ answered (classify_write (publish batch expected store))
    ]
  ]

  -- `delete`
  unfoldable pub delete_resource_id : WritePort → Str → Store → Result PyError (Unit {0}) × Store
  unfolding raise_value_error raise_catalog_error require_non_empty
  delete_resource_id port resource_id store = elim (require_non_empty resource_id) [
    | err e ↦ (err (raise_value_error e), store)
    | ok u ↦ classify_write (port.delete_resource resource_id store)
  ]
