-- ===== src/Core/Retrieval/Service.antt =====
-- `RetrievalService.search` of packages/mdrack-core/src/mdrack_core/application/retrieval.py.
-- The log events that it emits are left out: they carry counts and change no result.
use mdrack.Base.{
  ℕ, ◌+◌, Bool, true, false, Option, none, some, List, [], ◌∷◌, ◌++◌, map, take, length,
  if◌then◌else◌, ◌==◌,
}
use mdrack.Base.Results.{Result, ok, err, ◌>>=◌, traverse}
use mdrack.Base.Text.{Str, str_eq}
use mdrack.Base.Floats.{Floats}
use mdrack.Core.Errors.{
  PyError, index_error, branch_execution_error, ErrorCategory, error_to_degradation, index_table,
}
use mdrack.Core.Search.{
  target_resource, ScoreKind, SearchScope, BranchScopeOverride, LexicalBranch, VectorBranch,
  SearchRequest, RankedCandidate, SearchResultItem, Degradation, SearchResult, make_item,
  make_search_result,
}
use mdrack.Core.Fusion.{FusionBranch, FusedCandidate, make_branch, weighted_rrf}
use mdrack.Core.Retrieval.Scoping.{effective_scope}
use mdrack.Core.Retrieval.Branches.{
  PortReply, SearchPort, BranchOutcome, execute_branch, returned, failed,
}
use mdrack.Core.Retrieval.Units.{deduplicate_units, group_resources}

module _ (F : Floats) where
  -- `_ExecutedBranch`
  pub record ExecutedBranch : Type 0 where
    pub branch_id : Str
    pub weight : F.Float
    pub candidates : List (RankedCandidate F)

  -- The lists that `search` fills.
  pub record Progress : Type 0 where
    pub successful : List ExecutedBranch
    pub degradations : List Degradation
    pub failures : List (ErrorCategory × Str)

  abbrev pub no_progress : Progress
  no_progress = record { successful = []; degradations = []; failures = [] }

  -- `_collect_result`
  unfoldable pub collect_result :
      Bool → Str → F.Float → (BranchOutcome F) → Progress → Result PyError Progress
  collect_result allow_partial branch_id weight (failed category id) p =
      let failures = p.failures ++ ((category, id) ∷ []) in
      if allow_partial
      then (do
        degraded ← index_table (error_to_degradation category)
        ok (record p {
          failures = failures;
          degradations =
              p.degradations ++ ((record { branch_id = branch_id; category = degraded }) ∷ []);
        }))
      else ok (record p { failures = failures })
  collect_result allow_partial branch_id weight (returned candidates) p = ok (record p {
    successful =
        p.successful
        ++ ((record { branch_id = branch_id; weight = weight; candidates = candidates }) ∷ []);
  })

  -- `raise failures[0]`
  unfoldable pub raise_first : {A : Type 0} → List (ErrorCategory × Str) → Result PyError A
  raise_first [] = err index_error
  raise_first ((category, id) ∷ failures) = err (branch_execution_error category id)

  -- `if failures and not request.allow_partial: raise failures[0]`
  unfoldable pub stop_on_failure : Bool → Progress → Result PyError Progress
  unfolding raise_first
  stop_on_failure true p = ok p
  stop_on_failure false p = elim p.failures [ [] ↦ ok p | f ∷ fs ↦ raise_first (f ∷ fs) ]

  -- What the two loops of `search` read of a lexical or a vector branch, with its port call.
  pub record Task : Type 0 where
    pub branch_id : Str
    pub weight : F.Float
    pub candidate_limit : ℕ
    pub scope_override : Option BranchScopeOverride
    pub operation : SearchScope → Result PyError (PortReply F)

  abbrev pub lexical_task : (SearchPort F) → LexicalBranch F → Task
  lexical_task port b = record {
    branch_id = b.branch_id;
    weight = b.weight;
    candidate_limit = b.candidate_limit;
    scope_override = b.scope_override;
    operation = port.search_lexical b;
  }

  abbrev pub vector_task : (SearchPort F) → VectorBranch F → Task
  vector_task port b = record {
    branch_id = b.branch_id;
    weight = b.weight;
    candidate_limit = b.candidate_limit;
    scope_override = b.scope_override;
    operation = port.search_vector b;
  }

  -- A scope that admits nothing answers the branch without a call.
  unfoldable pub task_outcome : SearchScope → Task → Result PyError (BranchOutcome F)
  unfolding execute_branch effective_scope
  task_outcome scope t = elim (effective_scope scope t.scope_override) [
    | none ↦ ok (returned [])
    | some s ↦ execute_branch F t.branch_id t.candidate_limit (t.operation s)
  ]

  -- The body of both loops
  unfoldable pub run_task : SearchScope → Bool → Task → Progress → Result PyError Progress
  unfolding task_outcome collect_result stop_on_failure
  run_task scope allow_partial t p = do
    outcome ← task_outcome scope t
    p' ← collect_result allow_partial t.branch_id t.weight outcome p
    stop_on_failure allow_partial p'

  unfoldable pub run_tasks : SearchScope → Bool → List Task → Progress → Result PyError Progress
  run_tasks scope allow_partial [] p = ok p
  run_tasks scope allow_partial (t ∷ ts) p = do
    p' ← run_task scope allow_partial t p
    run_tasks scope allow_partial ts p'

  -- `_prepare_fusion_branch`
  unfoldable pub prepare_fusion_branch :
      SearchRequest F → ExecutedBranch → Result PyError (FusionBranch F)
  unfolding deduplicate_units group_resources make_branch
  prepare_fusion_branch request b = do
    candidates ←
        if request.target == target_resource
        then group_resources F b.candidates request.evidence_limit_per_resource
        else deduplicate_units F b.candidates
    make_branch F (record { branch_id = b.branch_id; weight = b.weight; candidates = candidates })

  -- One element of the comprehension `items`
  abbrev pub project_item : SearchRequest F → ℕ → FusedCandidate F → SearchResultItem F
  project_item request rank f = record {
    logical_id = f.logical_id;
    resource_id = f.representative.resource_id;
    unit_id = if request.target == target_resource then none else some f.representative.unit_id;
    score = f.score;
    rank = rank;
    evidence = f.evidence;
    metadata = f.representative.metadata;
    score_kind = ScoreKind.rrf;
  }

  -- The comprehension `items`, from `rank`
  unfoldable pub project_items :
      SearchRequest F → ℕ → List (FusedCandidate F) → Result PyError (List (SearchResultItem F))
  unfolding make_item
  project_items request rank [] = ok []
  project_items request rank (f ∷ fs) = do
    item ← make_item F (project_item request rank f)
    items ← project_items request (rank + 1) fs
    ok (item ∷ items)

  -- The fusion of the branches that returned, and the result
  unfoldable pub fuse_branches :
      SearchRequest F → List Degradation → List ExecutedBranch → Result PyError (SearchResult F)
  unfolding prepare_fusion_branch project_items make_search_result
  fuse_branches request degradations successful = do
    branches ← traverse (prepare_fusion_branch request) successful
    fused ← weighted_rrf F branches request.rrf_k (
        if request.target == target_resource
        then request.evidence_limit_per_resource
        else length successful)
    items ← project_items request 1 (take request.limit fused)
    make_search_result F (record {
      target = request.target;
      items = items;
      degradations = degradations;
      request_id = request.request_id;
    })

  -- The part of `search` after the loops
  unfoldable pub finish_search : SearchRequest F → Progress → Result PyError (SearchResult F)
  unfolding raise_first fuse_branches
  finish_search request p = elim p.successful [
    | [] ↦ raise_first p.failures
    | b ∷ bs ↦ fuse_branches request p.degradations (b ∷ bs)
  ]

  -- `search`
  unfoldable pub search_request : (SearchPort F) → SearchRequest F → Result PyError (SearchResult F)
  unfolding run_tasks run_task finish_search
  search_request port request = do
    p ←
        run_tasks request.scope request.allow_partial
          (map (lexical_task port) request.lexical_branches) no_progress
    p' ←
        run_tasks request.scope request.allow_partial
          (map (vector_task port) request.vector_branches) p
    finish_search request p'
