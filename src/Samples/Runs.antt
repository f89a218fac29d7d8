-- ===== src/Samples/Runs.antt =====
-- The theorems applied to the sample values, and runs of the code on them.
use mdrack.Base.{
  ℕ, ◌+◌, ◌≤◌, ◌⊎◌, ltb, ◌≡◌, refl, true, false, some, none, Option, List, [], ◌∷◌, map, take, All,
  Distinct, ◌↔◌, arith, inl, inr, ◌&&◌,
}
use mdrack.Base.Results.{ok, err}
use mdrack.Base.Order.{Sorted}
use mdrack.Base.Text.{Str, codes, str_eq}
use mdrack.Core.Errors.{branch_execution_error, ErrorCategory}
use mdrack.Core.Search.{
  RankedCandidate, BranchScopeOverride, target_unit, target_resource, make_search_request,
}
use mdrack.Core.RequestId.{normalize_request_id}
use mdrack.Core.RequestId.Laws.{normalize_request_id_idem}
use mdrack.Core.Fusion.{FusedCandidate, weighted_rrf, fused_before}
use mdrack.Core.Fusion.{FusionCandidate}
use mdrack.Core.Fusion.Ids.{weighted_rrf-ids, distinct_from, all_ids}
use mdrack.Core.Fusion.Scores.{weighted_rrf-score, rrf_score}
use mdrack.Core.Fusion.Total.{weighted_rrf-returns, weighted_rrf-err}
use mdrack.Core.Fusion.Ranking.{Ordered, IsSeenAt, weighted_rrf-Sorted}
use mdrack.Core.Errors.{overflow_error, value_error}
use mdrack.Core.Fusion.Evidence.{weighted_rrf-HasBoundedEvidence, HasBoundedEvidence}
use mdrack.Core.Retrieval.Scoping.{effective_scope}
use mdrack.Core.Retrieval.Branches.{validate_candidates, listed, candidate}
use mdrack.Core.Retrieval.Units.{group_resources}
use mdrack.Core.Retrieval.Service.{search_request}
use mdrack.Core.Retrieval.Scope.{
  effective_scope-admits, effective_admits, scope_admits, override_admits, KeepsFacets,
}
use mdrack.Core.Retrieval.Candidates.{validate_candidates_iff, RankedFrom, unit_ids}
use mdrack.Core.Retrieval.Grouping.{resource_ids, IsGroupOf}
use mdrack.Core.Retrieval.Groups.{group_resources-IsGroupOf}
use mdrack.Core.Retrieval.Outcomes.{successes, failures}
use mdrack.Core.Retrieval.Runs.{search_request-conclude, conclude, tasks}
use mdrack.Core.Retrieval.Items.{IsResultFor, search_request-IsResultFor}
use mdrack.Core.Search.{SearchResult, SearchResultItem}
use mathlib.Core.List.{Perm}
use mdrack.Samples.Values.{
  whole, whole-IsIeee, lex, vec, lex_hits, branches, any_scope, request, answering, failing, images,
  pictures, jpeg,
}

abbrev fused : List (FusedCandidate whole)
fused = elim (weighted_rrf whole branches 60 2) [ ok out ↦ out | err e ↦ [] ]

fused_ok : weighted_rrf whole branches 60 2 ≡ ok fused
unfolding weighted_rrf mdrack.Core.Fusion.fuse_all mdrack.Base.Results.traverse
    mdrack.Core.Fusion.tally_branches mdrack.Core.Fusion.tally_candidates mdrack.Base.Text.str_beq
    mdrack.Core.Fusion.tally_candidate mdrack.Base.Dict.insert mdrack.Core.Fusion.fuse
    mdrack.Base.Dict.lookup mdrack.Base.Dict.set_default
fused_ok = refl

-- The second branch outweighs the first, and its first unit gains from both.
fused_order :
    map {B = Str × ℕ} (λ (f : FusedCandidate whole). (f.logical_id, f.score)) fused
    ≡ (codes "u2", 250) ∷ (codes "u4", 150) ∷ (codes "u1", 100) ∷ (codes "u3", 96) ∷ []
unfolding weighted_rrf mdrack.Core.Fusion.fuse_all mdrack.Base.Results.traverse
    mdrack.Core.Fusion.tally_branches mdrack.Core.Fusion.tally_candidates mdrack.Base.Text.str_beq
    mdrack.Core.Fusion.tally_candidate mdrack.Base.Dict.insert mdrack.Core.Fusion.fuse
    mdrack.Base.Dict.lookup mdrack.Base.Dict.set_default mdrack.Base.Order.sort_by fused_before
    mdrack.Base.Dict.get_or
fused_order = refl

weighted_rrf-ids_example :
    Perm
      (map (λ (f : FusedCandidate whole). f.logical_id) fused)
      (distinct_from [] (all_ids whole branches))
weighted_rrf-ids_example = weighted_rrf-ids whole branches 60 2 {out = fused} fused_ok

weighted_rrf-score_example :
    All (λ f. rrf_score whole 60 f.logical_id none branches ≡ some f.score) fused
weighted_rrf-score_example = weighted_rrf-score whole branches 60 2 {out = fused} fused_ok

fits_in : (n i : ℕ) → n ≤ 100 → i ≤ n → ltb (60 + i) 1000000 ≡ true
fits_in n i small below = ground arith

weighted_rrf-returns_example :
    (out : List (FusedCandidate whole)) × (weighted_rrf whole branches 60 2 ≡ ok out)
weighted_rrf-returns_example =
    weighted_rrf-returns whole branches 60 2 (omega arith) (omega arith) (
      (λ i a b. fits_in 9 i (omega arith) (omega arith)),
      ((λ i a b. fits_in 9 i (omega arith) (omega arith)), tt),
    )

-- No `float` is next to this rrf_k.
too_large : weighted_rrf whole branches 1000000 2 ≡ err overflow_error
unfolding weighted_rrf mdrack.Core.Fusion.tally_branches mdrack.Core.Fusion.tally_candidates
    mdrack.Base.Text.str_beq mdrack.Core.Fusion.tally_candidate mdrack.Core.Fusion.divide
too_large = refl

weighted_rrf-err_example :
    ((overflow_error ≡ value_error) × (◌≡◌ {A = ℕ} 1000000 0 ⊎ ◌≡◌ {A = ℕ} 2 0))
    ⊎ (overflow_error ≡ overflow_error)
weighted_rrf-err_example = weighted_rrf-err whole branches 1000000 2 overflow_error too_large

weighted_rrf-Sorted_example :
    Ordered whole whole-IsIeee fused × All (IsSeenAt whole whole-IsIeee branches) fused
weighted_rrf-Sorted_example =
    weighted_rrf-Sorted whole whole-IsIeee branches 60 2 {out = fused}
      ((refl, refl), ((refl, refl), tt)) fused_ok

weighted_rrf-HasBoundedEvidence_example : All (HasBoundedEvidence whole 2) fused
weighted_rrf-HasBoundedEvidence_example =
    weighted_rrf-HasBoundedEvidence whole branches 60 2 {out = fused} fused_ok

-- One modality is left, and the other resource kind is out.
effective_scope-admits_example :
    (effective_admits (effective_scope images (some pictures)) jpeg
      ≡ (scope_admits images jpeg && override_admits pictures jpeg))
    × KeepsFacets images (effective_scope images (some pictures))
effective_scope-admits_example = effective_scope-admits images pictures jpeg

validate_candidates_iff_example :
    (validate_candidates whole lex 2 (listed (map candidate lex_hits)) ≡ ok (take 2 lex_hits)) ↔ (
      (take 2 (map candidate lex_hits) ≡ map candidate (take 2 lex_hits))
      × RankedFrom whole lex 1 (take 2 lex_hits)
      × Distinct (unit_ids whole (take 2 lex_hits)))
validate_candidates_iff_example =
    validate_candidates_iff whole lex 2 (map candidate lex_hits) (take 2 lex_hits)

abbrev groups : List (FusionCandidate whole)
groups = elim (group_resources whole lex_hits 2) [ ok out ↦ out | err e ↦ [] ]

groups_ok : group_resources whole lex_hits 2 ≡ ok groups
unfolding group_resources mdrack.Base.Results.traverse mdrack.Base.Text.str_beq
    mdrack.Base.Dict.insert mdrack.Base.Order.sort_by mdrack.Base.Dict.get_or
    mdrack.Base.Dict.lookup mdrack.Core.Retrieval.Units.seen_before mdrack.Base.Text.has_content
groups_ok = refl

group_resources-IsGroupOf_example :
    Perm
      (map (λ (g : FusionCandidate whole). g.logical_id) groups)
      (distinct_from [] (resource_ids whole lex_hits))
    × All (IsGroupOf whole 2 lex_hits) groups
unfolding mdrack.Base.Text.str_beq
group_resources-IsGroupOf_example =
    group_resources-IsGroupOf whole 2 lex_hits (refl, (refl, (refl, tt))) groups groups_ok

-- The failed vector branch is reported, and the lexical one is fused.
search_request-conclude_example :
    search_request whole failing (request target_unit true)
    ≡ conclude whole true
        (request target_unit true)
        (successes whole any_scope (tasks whole failing (request target_unit true)))
        (failures whole any_scope (tasks whole failing (request target_unit true)))
unfolding mdrack.Base.Text.has_content
search_request-conclude_example =
    search_request-conclude whole failing (request target_unit true)
      ((refl, λ s. tt), ((refl, λ s. tt), tt))

abbrev by_resource : SearchResult whole
by_resource = elim (search_request whole answering (request target_resource true)) [
  | ok out ↦ out
  | err e ↦ record { target = []; items = []; degradations = []; request_id = none }
]

by_resource_ok : search_request whole answering (request target_resource true) ≡ ok by_resource
unfolding search_request mdrack.Base.Text.str_beq mdrack.Base.Results.traverse
    mdrack.Base.Dict.insert mdrack.Base.Order.sort_by mdrack.Base.Dict.get_or
    mdrack.Base.Dict.lookup mdrack.Core.Retrieval.Units.seen_before mdrack.Base.Text.has_content
    weighted_rrf mdrack.Core.Fusion.fuse_all mdrack.Core.Fusion.tally_branches
    mdrack.Core.Fusion.tally_candidates mdrack.Core.Fusion.tally_candidate
    mdrack.Core.Retrieval.Units.group_before mdrack.Core.Fusion.fuse mdrack.Base.Dict.set_default
    mdrack.Base.Text.is_space mdrack.Base.Text.str_lt mdrack.Base.Text.utf8_encodable
    mdrack.Core.Common.require_finite_number mdrack.Core.Common.require_integer
    mdrack.Core.Common.require_non_empty mdrack.Core.Common.require_optional_non_empty
    mdrack.Core.Common.require_utf8_encodable mdrack.Core.Errors.error_to_degradation
    mdrack.Core.Errors.is_branch_category mdrack.Core.Errors.make_branch_error
    mdrack.Core.Fusion.add_evidence mdrack.Core.Fusion.entry_before fused_before
    mdrack.Core.Fusion.index mdrack.Core.Fusion.make_branch mdrack.Core.Fusion.make_candidate
    mdrack.Core.RequestId.full_match mdrack.Core.RequestId.is_base32 mdrack.Core.RequestId.is_dash
    mdrack.Core.RequestId.is_hex mdrack.Core.RequestId.is_octal mdrack.Core.RequestId.lower_hex
    mdrack.Core.RequestId.normalize_optional_request_id normalize_request_id
    mdrack.Core.RequestId.times mdrack.Core.RequestId.ulid_pattern
    mdrack.Core.RequestId.uuid_pattern mdrack.Core.Retrieval.Branches.classify
    mdrack.Core.Retrieval.Units.collect_resources mdrack.Core.Retrieval.Service.collect_result
    mdrack.Core.Retrieval.Units.deduplicate_loop mdrack.Core.Retrieval.Units.deduplicate_units
    effective_scope mdrack.Core.Retrieval.Branches.execute_branch
    mdrack.Core.Retrieval.Branches.fail_with mdrack.Core.Retrieval.Service.finish_search
    mdrack.Core.Retrieval.Units.first_of_entries mdrack.Core.Retrieval.Service.fuse_branches
    mdrack.Core.Retrieval.Units.group_ordered mdrack.Core.Retrieval.Units.group_resource
    group_resources mdrack.Core.Retrieval.Units.min_seen mdrack.Core.Retrieval.Scoping.narrow
    mdrack.Core.Retrieval.Service.prepare_fusion_branch mdrack.Core.Retrieval.Service.project_items
    mdrack.Core.Retrieval.Service.raise_first mdrack.Core.Retrieval.Service.run_task
    mdrack.Core.Retrieval.Service.run_tasks mdrack.Core.Retrieval.Service.stop_on_failure
    mdrack.Core.Retrieval.Service.task_outcome validate_candidates
    mdrack.Core.Retrieval.Branches.validate_loop mdrack.Core.Search.make_item
    mdrack.Core.Search.make_search_result
by_resource_ok = refl

by_resource_ids :
    map {B = Str × ℕ × Option Str}
      (λ (i : SearchResultItem whole). (i.logical_id, i.rank, i.unit_id))
      by_resource.items
    ≡ (codes "b", 1, none) ∷ (codes "a", 2, none) ∷ []
unfolding search_request mdrack.Base.Text.str_beq mdrack.Base.Results.traverse
    mdrack.Base.Dict.insert mdrack.Base.Order.sort_by mdrack.Base.Dict.get_or
    mdrack.Base.Dict.lookup mdrack.Core.Retrieval.Units.seen_before mdrack.Base.Text.has_content
    weighted_rrf mdrack.Core.Fusion.fuse_all mdrack.Core.Fusion.tally_branches
    mdrack.Core.Fusion.tally_candidates mdrack.Core.Fusion.tally_candidate
    mdrack.Core.Retrieval.Units.group_before mdrack.Core.Fusion.fuse mdrack.Base.Dict.set_default
    mdrack.Base.Text.is_space mdrack.Base.Text.str_lt mdrack.Base.Text.utf8_encodable
    mdrack.Core.Common.require_finite_number mdrack.Core.Common.require_integer
    mdrack.Core.Common.require_non_empty mdrack.Core.Common.require_optional_non_empty
    mdrack.Core.Common.require_utf8_encodable mdrack.Core.Errors.error_to_degradation
    mdrack.Core.Errors.is_branch_category mdrack.Core.Errors.make_branch_error
    mdrack.Core.Fusion.add_evidence mdrack.Core.Fusion.entry_before fused_before
    mdrack.Core.Fusion.index mdrack.Core.Fusion.make_branch mdrack.Core.Fusion.make_candidate
    mdrack.Core.RequestId.full_match mdrack.Core.RequestId.is_base32 mdrack.Core.RequestId.is_dash
    mdrack.Core.RequestId.is_hex mdrack.Core.RequestId.is_octal mdrack.Core.RequestId.lower_hex
    mdrack.Core.RequestId.normalize_optional_request_id normalize_request_id
    mdrack.Core.RequestId.times mdrack.Core.RequestId.ulid_pattern
    mdrack.Core.RequestId.uuid_pattern mdrack.Core.Retrieval.Branches.classify
    mdrack.Core.Retrieval.Units.collect_resources mdrack.Core.Retrieval.Service.collect_result
    mdrack.Core.Retrieval.Units.deduplicate_loop mdrack.Core.Retrieval.Units.deduplicate_units
    effective_scope mdrack.Core.Retrieval.Branches.execute_branch
    mdrack.Core.Retrieval.Branches.fail_with mdrack.Core.Retrieval.Service.finish_search
    mdrack.Core.Retrieval.Units.first_of_entries mdrack.Core.Retrieval.Service.fuse_branches
    mdrack.Core.Retrieval.Units.group_ordered mdrack.Core.Retrieval.Units.group_resource
    group_resources mdrack.Core.Retrieval.Units.min_seen mdrack.Core.Retrieval.Scoping.narrow
    mdrack.Core.Retrieval.Service.prepare_fusion_branch mdrack.Core.Retrieval.Service.project_items
    mdrack.Core.Retrieval.Service.raise_first mdrack.Core.Retrieval.Service.run_task
    mdrack.Core.Retrieval.Service.run_tasks mdrack.Core.Retrieval.Service.stop_on_failure
    mdrack.Core.Retrieval.Service.task_outcome validate_candidates
    mdrack.Core.Retrieval.Branches.validate_loop mdrack.Core.Search.make_item
    mdrack.Core.Search.make_search_result
by_resource_ids = refl

search_request-IsResultFor_example : IsResultFor whole (request target_resource true) by_resource
search_request-IsResultFor_example =
    search_request-IsResultFor whole answering (request target_resource true) by_resource
      by_resource_ok

-- Without partial results the failure is raised.
strict_failure :
    search_request whole failing (request target_unit false)
    ≡ err (branch_execution_error ErrorCategory.adapter_timeout vec)
unfolding search_request mdrack.Base.Text.str_beq mdrack.Core.Errors.make_branch_error
    mdrack.Core.Errors.is_branch_category mdrack.Base.Text.has_content
strict_failure = refl

abbrev upper_id : Str
upper_id = codes "0F8FAD5B-D9CB-469F-A165-70867728950E"

abbrev lower_id : Str
lower_id = codes "0f8fad5b-d9cb-469f-a165-70867728950e"

upper_id_ok : normalize_request_id upper_id ≡ ok lower_id
unfolding normalize_request_id
upper_id_ok = refl

normalize_request_id_idem_example : normalize_request_id lower_id ≡ ok lower_id
normalize_request_id_idem_example = normalize_request_id_idem upper_id {id = lower_id} upper_id_ok
