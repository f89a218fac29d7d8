-- ===== src/Core/Retrieval/Branches.antt =====
-- Search ports, `_validate_candidates` and `_execute_branch` of
-- packages/mdrack-core/src/mdrack_core/application/retrieval.py
use mdrack.Base.{ℕ, ◌+◌, not, List, [], ◌∷◌, take, contains, eqb, ◌==◌}
use mdrack.Base.Results.{Result, ok, err, ◌>>=◌, ◌>>◌, require}
use mdrack.Base.Text.{Str, str_eq}
use mdrack.Base.Floats.{Floats}
use mdrack.Core.Errors.{
  PyError, value_error, type_error, timeout_error, branch_execution_error, ErrorCategory,
  make_branch_error,
}
use mdrack.Core.Search.{SearchScope, LexicalBranch, VectorBranch, RankedCandidate}

module _ (F : Floats) where
  -- What a search port hands back: a list of objects, or an object that is no list.
  pub data PortItem : Type 0 where
    candidate : RankedCandidate F → PortItem
    foreign : PortItem

  pub data PortReply : Type 0 where
    listed : List PortItem → PortReply
    not_a_list : PortReply

  -- A `SearchPort`: a method returns or raises. The branches of a request differ in their ids, so
  -- an answer that changes from call to call is covered too.
  pub record SearchPort : Type 0 where
    pub search_lexical : LexicalBranch F → SearchScope → Result PyError PortReply
    pub search_vector : VectorBranch F → SearchScope → Result PyError PortReply

  -- The loop of `_validate_candidates`, over `expected_rank` and `seen_unit_ids`.
  unfoldable pub validate_loop :
      Str → List PortItem → ℕ → List Str → Result PyError (List (RankedCandidate F))
  validate_loop branch_id [] expected_rank seen = ok []
  validate_loop branch_id (foreign ∷ items) expected_rank seen = err type_error
  validate_loop branch_id (candidate c ∷ items) expected_rank seen = do
    require (c.branch_id == branch_id) value_error
    require (eqb c.rank expected_rank) value_error
    require (not (contains c.unit_id seen)) value_error
    rest ← validate_loop branch_id items (expected_rank + 1) (c.unit_id ∷ seen)
    ok (c ∷ rest)

  -- `_validate_candidates` for the branch's id and candidate limit
  unfoldable pub validate_candidates :
      Str → ℕ → PortReply → Result PyError (List (RankedCandidate F))
  unfolding validate_loop
  validate_candidates branch_id candidate_limit not_a_list = err type_error
  validate_candidates branch_id candidate_limit (listed items) =
      validate_loop branch_id (take candidate_limit items) 1 []

  -- What `_execute_branch` returns: candidates, or a `BranchExecutionError` by its category and id.
  pub data BranchOutcome : Type 0 where
    returned : List (RankedCandidate F) → BranchOutcome
    failed : ErrorCategory → Str → BranchOutcome

  -- `BranchExecutionError(category, branch_id=branch.branch_id)`, returned unless its constructor
  -- raises
  unfoldable pub fail_with : ErrorCategory → Str → Result PyError BranchOutcome
  fail_with category branch_id = elim (make_branch_error category branch_id) [
    | branch_execution_error c id ↦ ok (failed c id)
    | other ↦ err other
  ]

  -- The three `except` clauses of `_execute_branch`
  unfoldable pub classify :
      Str → Result PyError (List (RankedCandidate F)) → Result PyError BranchOutcome
  unfolding fail_with
  classify branch_id (ok candidates) = ok (returned candidates)
  classify branch_id (err (branch_execution_error category _)) = fail_with category branch_id
  classify branch_id (err timeout_error) = fail_with ErrorCategory.adapter_timeout branch_id
  classify branch_id (err _) = fail_with ErrorCategory.adapter_error branch_id

  -- `_execute_branch` for what `operation()` returns or raises
  unfoldable pub execute_branch : Str → ℕ → Result PyError PortReply → Result PyError BranchOutcome
  unfolding classify validate_candidates
  execute_branch branch_id candidate_limit operation =
      classify branch_id (operation >>= validate_candidates branch_id candidate_limit)
