-- ===== src/Core/Search.antt =====
-- The records of packages/mdrack-core/src/mdrack_core/domain/search.py and results.py, and what
-- their `__post_init__` methods accept.
use mdrack.Base.{
  ℕ, Bool, true, false, not, ◌&&◌, ◌||◌, Option, List, [], ◌∷◌, ◌++◌, map, contains, ◌==◌,
}
use mdrack.Base.Results.{Result, ok, ◌>>=◌, ◌>>◌, require}
use mdrack.Base.Text.{Str, codes, str_eq}
use mdrack.Base.Floats.{Floats}
use mdrack.Core.Errors.{PyError, value_error, DegradationCategory}
use mdrack.Core.Json.{Fields}
use mdrack.Core.Common.{
  require_non_empty, require_optional_non_empty, require_integer, require_finite_number,
  freeze_vector,
}
use mdrack.Core.RequestId.{normalize_optional_request_id}
use mdrack.Core.Records.{Facet, Locator}

abbrev pub target_unit : Str
target_unit = codes "unit"

abbrev pub target_resource : Str
target_resource = codes "resource"

pub data ScoreKind : Type 0 where
  adapter_raw rrf : ScoreKind

pub record SearchScope : Type 0 where
  pub resource_kinds : List Str
  pub media_types : List Str
  pub source_namespaces : List Str
  pub representation_kinds : List Str
  pub modalities : List Str
  pub unit_kinds : List Str
  pub facets_any : List Facet
  pub facets_all : List Facet
  pub facets_none : List Facet

pub record BranchScopeOverride : Type 0 where
  pub resource_kinds : List Str
  pub media_types : List Str
  pub source_namespaces : List Str
  pub representation_kinds : List Str
  pub modalities : List Str
  pub unit_kinds : List Str

module _ (F : Floats) where
  pub record LexicalBranch : Type 0 where
    pub branch_id : Str
    pub query : Str
    pub weight : F.Float
    pub candidate_limit : ℕ
    pub scope_override : Option BranchScopeOverride

  pub record VectorBranch : Type 0 where
    pub branch_id : Str
    pub space_id : Str
    pub vector : List F.Float
    pub weight : F.Float
    pub candidate_limit : ℕ
    pub expected_fingerprint : Option Str
    pub scope_override : Option BranchScopeOverride

  pub record SearchRequest : Type 0 where
    pub lexical_branches : List LexicalBranch
    pub vector_branches : List VectorBranch
    pub scope : SearchScope
    pub target : Str
    pub limit : ℕ
    pub rrf_k : ℕ
    pub evidence_limit_per_resource : ℕ
    pub allow_partial : Bool
    pub request_id : Option Str

  pub record RankedCandidate : Type 0 where
    pub unit_id : Str
    pub resource_id : Str
    pub representation_id : Str
    pub rank : ℕ
    pub raw_score : F.Float
    pub branch_id : Str
    pub evidence_locator : Locator F
    pub metadata : Fields F

  pub record SearchResultItem : Type 0 where
    pub logical_id : Str
    pub resource_id : Str
    pub unit_id : Option Str
    pub score : F.Float
    pub rank : ℕ
    pub evidence : List RankedCandidate
    pub metadata : Fields F
    pub score_kind : ScoreKind

  pub record SimilarityRequest : Type 0 where
    pub query_unit_id : Str
    pub space_id : Str
    pub similarity_basis : Str
    pub scope : SearchScope
    pub limit : ℕ
    pub exclude_same_resource : Bool

pub record Degradation : Type 0 where
  pub branch_id : Str
  pub category : DegradationCategory

module _ (F : Floats) where
  pub record SearchResult : Type 0 where
    pub target : Str
    pub items : List (SearchResultItem F)
    pub degradations : List Degradation
    pub request_id : Option Str

  pub record SimilarityResult : Type 0 where
    pub query_unit_id : Str
    pub space_id : Str
    pub similarity_basis : Str
    pub items : List (SearchResultItem F)
    pub degradations : List Degradation

  -- `require_finite_number(self.weight)` and the test below it
  unfoldable pub check_weight : F.Float → Result PyError (Unit {0})
  unfolding require_finite_number
  check_weight w = do require_finite_number F w; require (F.lt F.zero_float w) value_error

  -- `LexicalBranch.__post_init__`
  unfoldable pub check_lexical_branch : LexicalBranch F → Result PyError (Unit {0})
  unfolding require_non_empty check_weight require_integer
  check_lexical_branch b = do
    require_non_empty b.branch_id
    require_non_empty b.query
    check_weight b.weight
    require_integer b.candidate_limit 1

  -- `VectorBranch.__post_init__`
  unfoldable pub check_vector_branch : VectorBranch F → Result PyError (Unit {0})
  unfolding require_non_empty check_weight require_integer freeze_vector require_optional_non_empty
  check_vector_branch b = do
    require_non_empty b.branch_id
    require_non_empty b.space_id
    freeze_vector F b.vector
    check_weight b.weight
    require_integer b.candidate_limit 1
    require_optional_non_empty b.expected_fingerprint

  -- `branch_ids` of `SearchRequest.__post_init__`
  abbrev pub branch_ids : SearchRequest F → List Str
  branch_ids r =
      map (λ (b : LexicalBranch F). b.branch_id) r.lexical_branches
      ++ map (λ (b : VectorBranch F). b.branch_id) r.vector_branches

  -- `SearchResultItem.__post_init__`: the item, or the `ValueError` that it raises.
  unfoldable pub make_item : SearchResultItem F → Result PyError (SearchResultItem F)
  unfolding require_non_empty require_optional_non_empty require_finite_number require_integer
  make_item i = do
    require_non_empty i.logical_id
    require_non_empty i.resource_id
    require_optional_non_empty i.unit_id
    require_finite_number F i.score
    require_integer i.rank 1
    ok i

-- `len(ids) == len(set(ids))`
unfoldable pub all_distinct : List Str → Bool
all_distinct [] = true
all_distinct (x ∷ xs) = not (contains x xs) && all_distinct xs

module _ (F : Floats) where
  -- `bool(lexical or vectors)`
  unfoldable pub has_branch : List (LexicalBranch F) → List (VectorBranch F) → Bool
  has_branch [] [] = false
  has_branch _ _ = true

  -- `SearchRequest.__post_init__`: the request that it leaves, or the `ValueError` that it raises.
  -- The branches and the scope were checked when they were built.
  unfoldable pub make_search_request : SearchRequest F → Result PyError (SearchRequest F)
  unfolding require_non_empty require_integer all_distinct has_branch
  make_search_request r = do
    require (has_branch r.lexical_branches r.vector_branches) value_error
    require (all_distinct (branch_ids F r)) value_error
    require_non_empty r.target
    require ((r.target == target_unit) || (r.target == target_resource)) value_error
    require_integer r.limit 1
    require_integer r.rrf_k 1
    require_integer r.evidence_limit_per_resource 1
    id ← normalize_optional_request_id r.request_id
    ok (record r { request_id = id })

  -- `SearchResult.__post_init__`
  unfoldable pub make_search_result : SearchResult F → Result PyError (SearchResult F)
  unfolding require_non_empty
  make_search_result r = do
    require_non_empty r.target
    require ((r.target == target_unit) || (r.target == target_resource)) value_error
    id ← normalize_optional_request_id r.request_id
    ok (record r { request_id = id })

  -- `SimilarityRequest.__post_init__`
  unfoldable pub check_similarity_request : SimilarityRequest F → Result PyError (Unit {0})
  unfolding require_non_empty require_integer
  check_similarity_request r = do
    require_non_empty r.query_unit_id
    require_non_empty r.space_id
    require_non_empty r.similarity_basis
    require_integer r.limit 1

  -- `SimilarityResult.__post_init__`
  unfoldable pub make_similarity_result : SimilarityResult F → Result PyError (SimilarityResult F)
  unfolding require_non_empty
  make_similarity_result r = do
    require_non_empty r.query_unit_id
    require_non_empty r.space_id
    require_non_empty r.similarity_basis
    ok r
