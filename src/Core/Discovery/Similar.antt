-- ===== src/Core/Discovery/Similar.antt =====
-- `ResourceDiscoveryService.similar` of
-- packages/mdrack-core/src/mdrack_core/application/retrieval.py, without its log events.
use mdrack.Base.{
  ℕ, zero, suc, ◌+◌, ◌*◌, Bool, true, false, not, ◌||◌, Option, none, some, List, [], ◌∷◌, take,
  length, contains, keep_if, ltb, eqb, if◌then◌else◌, ◌==◌,
}
use mathlib.Core.Option
use mdrack.Base.Results.{Result, ok, err, ◌>>=◌, ◌>>◌}
use mdrack.Base.Text.{Str, codes, str_eq}
use mdrack.Base.Floats.{Floats}
use mdrack.Core.Errors.{
  PyError, timeout_error, branch_execution_error, catalog_execution_error, DegradationCategory,
  error_to_degradation, catalog_error_to_degradation, index_table,
}
use mdrack.Core.Records.{SearchUnitRecord, VectorRecord, unit_whole_resource}
use mdrack.Core.Json.{Fields}
use mdrack.Core.Search.{
  ScoreKind, SearchScope, VectorBranch, RankedCandidate, SearchResultItem, Degradation,
  SimilarityRequest, SimilarityResult, make_item, make_similarity_result, check_vector_branch,
}
use mdrack.Core.Retrieval.Branches.{SearchPort, validate_candidates}
use mdrack.Core.Discovery.{ResourceReadPort}

-- `_SIMILARITY_BRANCH`
abbrev pub similarity_branch : Str
similarity_branch = codes "similarity"

-- `_whole_resource_scope`
unfoldable pub whole_resource_scope : SearchScope → Option SearchScope
whole_resource_scope s = elim s.unit_kinds [
  | [] ↦ some (record s { unit_kinds = unit_whole_resource ∷ [] })
  | k ∷ ks ↦
      if contains unit_whole_resource (k ∷ ks)
      then some (record s { unit_kinds = unit_whole_resource ∷ [] })
      else none
]

module _ (F : Floats) where
  -- The branch that the loop of `similar` searches, with the default weight 1.0
  abbrev pub similarity_query : SimilarityRequest F → VectorRecord F → ℕ → VectorBranch F
  similarity_query request vector candidate_limit = record {
    branch_id = similarity_branch;
    space_id = request.space_id;
    vector = vector.vector;
    weight = F.one_float;
    candidate_limit = candidate_limit;
    expected_fingerprint = none;
    scope_override = none;
  }

  -- The candidates of one round
  unfoldable pub similar_page :
      SearchPort F
      → SimilarityRequest F
      → VectorRecord F
      → SearchScope
      → ℕ
      → Result PyError (List (RankedCandidate F))
  unfolding check_vector_branch validate_candidates
  similar_page port request vector scope candidate_limit = do
    check_vector_branch F (similarity_query request vector candidate_limit)
    raw ← port.search_vector (similarity_query request vector candidate_limit) scope
    validate_candidates F similarity_branch candidate_limit raw

  -- `not request.exclude_same_resource or candidate.resource_id != unit.resource_id`
  abbrev pub is_selected : SimilarityRequest F → SearchUnitRecord F → RankedCandidate F → Bool
  is_selected request unit c =
      not request.exclude_same_resource || not (c.resource_id == unit.resource_id)

  -- `selected`
  abbrev pub select :
      SimilarityRequest F → SearchUnitRecord F → List (RankedCandidate F) → List (RankedCandidate F)
  select request unit candidates =
      take request.limit (keep_if (is_selected request unit) candidates)

  -- The `while True` loop: `none` when the fuel is used up
  unfoldable pub similar_loop :
      SearchPort F
      → SimilarityRequest F
      → SearchUnitRecord F
      → VectorRecord F
      → SearchScope
      → ℕ
      → ℕ
      → Option (Result PyError (List (RankedCandidate F)))
  similar_loop port request unit vector scope zero candidate_limit = none
  similar_loop port request unit vector scope (suc fuel) candidate_limit =
      elim (similar_page port request vector scope candidate_limit) [
        | err e ↦ some (err e)
        | ok candidates ↦
            elim (eqb (length (select request unit candidates)) request.limit
              || ltb (length candidates) candidate_limit) [
                | true ↦ some (ok (select request unit candidates))
                | false ↦ similar_loop port request unit vector scope fuel (candidate_limit * 2)
              ]
      ]

  -- The body of the first `try` of `similar`; `none` where the query is unavailable.
  unfoldable pub read_query :
      ResourceReadPort F
      → SimilarityRequest F
      → Result PyError (Option (SearchUnitRecord F × VectorRecord F))
  read_query catalog request = do
    found ← catalog.read_unit request.query_unit_id
    elim found [
      | none ↦ ok none
      | some unit ↦
          if unit.unit_kind == unit_whole_resource
          then (do
            vector ← catalog.read_vector request.query_unit_id request.space_id
            elim vector [ none ↦ ok none | some v ↦ ok (some (unit, v)) ])
          else ok none
    ]

  -- The degradation that the `except` clauses of either `try` report
  unfoldable pub catalog_degradation : PyError → Result PyError DegradationCategory
  unfolding catalog_error_to_degradation
  catalog_degradation (catalog_execution_error category) =
      index_table (catalog_error_to_degradation category)
  catalog_degradation timeout_error = ok DegradationCategory.adapter_timeout
  catalog_degradation _ = ok DegradationCategory.adapter_error

  unfoldable pub branch_degradation : PyError → Result PyError DegradationCategory
  unfolding error_to_degradation
  branch_degradation (branch_execution_error category _) =
      index_table (error_to_degradation category)
  branch_degradation timeout_error = ok DegradationCategory.adapter_timeout
  branch_degradation _ = ok DegradationCategory.adapter_error

  -- `_completed`
  unfoldable pub completed :
      SimilarityRequest F
      → List (SearchResultItem F)
      → List Degradation
      → Result PyError (SimilarityResult F)
  unfolding make_similarity_result
  completed request items degradations = make_similarity_result F (record {
    query_unit_id = request.query_unit_id;
    space_id = request.space_id;
    similarity_basis = request.similarity_basis;
    items = items;
    degradations = degradations;
  })

  -- `_completed` with one degradation and no items
  unfoldable pub completed_without :
      SimilarityRequest F → Result PyError DegradationCategory → Result PyError (SimilarityResult F)
  unfolding completed
  completed_without request category = do
    c ← category
    completed request [] ((record { branch_id = similarity_branch; category = c }) ∷ [])

  -- One element of the comprehension `items`
  abbrev pub similar_item : ℕ → RankedCandidate F → SearchResultItem F
  similar_item rank c = record {
    logical_id = c.resource_id;
    resource_id = c.resource_id;
    unit_id = some c.unit_id;
    score = c.raw_score;
    rank = rank;
    evidence = c ∷ [];
    metadata = Fields.end;
    score_kind = ScoreKind.adapter_raw;
  }

  -- The comprehension `items`, from `rank`
  unfoldable pub similar_items :
      ℕ → List (RankedCandidate F) → Result PyError (List (SearchResultItem F))
  unfolding make_item
  similar_items rank [] = ok []
  similar_items rank (c ∷ cs) = do
    item ← make_item F (similar_item rank c)
    items ← similar_items (rank + 1) cs
    ok (item ∷ items)

  -- The end of `similar` for what the loop selected or raised
  unfoldable pub finish_similar :
      SimilarityRequest F
      → Result PyError (List (RankedCandidate F))
      → Result PyError (SimilarityResult F)
  unfolding completed_without branch_degradation similar_items completed
  finish_similar request (err e) = completed_without request (branch_degradation e)
  finish_similar request (ok selected) = do
    items ← similar_items 1 selected
    completed request items []

  -- `similar`: `none` when the fuel of its loop is used up
  unfoldable pub similar :
      ℕ
      → ResourceReadPort F
      → SearchPort F
      → SimilarityRequest F
      → Option (Result PyError (SimilarityResult F))
  unfolding read_query catalog_degradation whole_resource_scope similar_loop finish_similar
  similar fuel catalog port request = elim (read_query catalog request) [
    | err e ↦ some (completed_without request (catalog_degradation e))
    | ok none ↦ some (completed_without request (ok DegradationCategory.branch_unavailable))
    | ok (some (unit, vector)) ↦ elim (whole_resource_scope request.scope) [
      | none ↦ some (completed request [] [])
      | some scope ↦ Option.map (finish_similar request) (
          similar_loop port request unit vector scope fuel
            (request.limit + (if request.exclude_same_resource then 1 else 0)))
    ]
  ]
