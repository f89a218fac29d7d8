-- ===== src/Core/Discovery.antt =====
-- `ResourceDiscoveryService` of
-- packages/mdrack-core/src/mdrack_core/application/retrieval.py, without its log events: the catalog
-- that it reads, and `find_duplicates`. Its `similar` is the child Similar.
pub mod Similar
pub mod Hits
pub mod Duplicates
use mdrack.Base.{
  ℕ, zero, suc, ◌+◌, ◌*◌, Bool, true, false, not, ◌&&◌, ◌||◌, Option, none, some, List, [], ◌∷◌,
  map, take, length, contains, keep_if, ltb, leb, eqb, if◌then◌else◌, ◌==◌,
}
use mathlib.Core.Option
use mdrack.Base.Results.{Result, ok, err, ◌>>=◌, ◌>>◌, require}
use mdrack.Base.Order.{sort_by}
use mdrack.Base.Text.{Str, codes, str_eq, str_lt, has_content}
use mdrack.Base.Floats.{Floats}
use mdrack.Core.Errors.{
  PyError, value_error, timeout_error, branch_execution_error, catalog_execution_error,
  ErrorCategory, DegradationCategory, make_catalog_error, error_to_degradation,
  catalog_error_to_degradation, index_table,
}
use mdrack.Core.Records.{ResourceRecord, SearchUnitRecord, VectorRecord, unit_whole_resource}
use mdrack.Core.Json.{Fields}
use mdrack.Core.Search.{
  ScoreKind, SearchScope, VectorBranch, RankedCandidate, SearchResultItem, Degradation,
  SimilarityRequest, SimilarityResult, make_item, make_similarity_result, check_vector_branch,
}
use mdrack.Core.Retrieval.Branches.{PortReply, SearchPort, validate_candidates}

-- The `except` clauses of `find_duplicates`
unfoldable pub raise_catalog_error : {A : Type 0} → Result PyError A → Result PyError A
unfolding make_catalog_error
raise_catalog_error (ok a) = ok a
raise_catalog_error (err (catalog_execution_error category)) =
    err (catalog_execution_error category)
raise_catalog_error (err timeout_error) = err (make_catalog_error ErrorCategory.adapter_timeout)
raise_catalog_error (err _) = err (make_catalog_error ErrorCategory.catalog_error)

module _ (F : Floats) where
  -- A `ResourceReadPort`
  pub record ResourceReadPort : Type 0 where
    pub read_resource : Str → Result PyError (Option (ResourceRecord F))
    pub read_unit : Str → Result PyError (Option (SearchUnitRecord F))
    pub read_vector : Str → Str → Result PyError (Option (VectorRecord F))
    pub find_by_content_hash : Str → SearchScope → Result PyError (List (ResourceRecord F))

  -- The body of the `try` of `find_duplicates`; `none` where it returns from there.
  unfoldable pub read_matches :
      ResourceReadPort → Str → SearchScope → Result PyError (Option (List (ResourceRecord F)))
  read_matches catalog resource_id scope = do
    resource ← catalog.read_resource resource_id
    elim resource [
      | none ↦ ok none
      | some r ↦ elim r.content_hash [
        | none ↦ ok none
        | some hash ↦ do matches ← catalog.find_by_content_hash hash scope; ok (some matches)
      ]
    ]

  -- The key `resource_id`
  unfoldable pub resource_before : ResourceRecord F → ResourceRecord F → Bool
  resource_before a b = str_lt a.resource_id b.resource_id

  -- The expression that `find_duplicates` returns
  unfoldable pub other_resources : Str → ℕ → List (ResourceRecord F) → List (ResourceRecord F)
  other_resources resource_id limit matches = take limit (
      sort_by resource_before
        (keep_if (λ (item : ResourceRecord F). not (item.resource_id == resource_id)) matches))

  -- `find_duplicates`
  unfoldable pub find_duplicates :
      ResourceReadPort → Str → SearchScope → ℕ → Result PyError (List (ResourceRecord F))
  unfolding raise_catalog_error read_matches
  find_duplicates catalog resource_id scope limit = do
    require (has_content resource_id) value_error
    require (leb 1 limit) value_error
    matches ← raise_catalog_error (read_matches catalog resource_id scope)
    elim matches [ none ↦ ok [] | some ms ↦ ok (other_resources resource_id limit ms) ]
