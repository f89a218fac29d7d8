-- ===== src/Core/Retrieval/Outcomes.antt =====
-- What the branches of a search come to: the outcome of each, the branches that returned
-- candidates and the branches that failed.
use mdrack.Base.{
  ℕ, ◌≡◌, refl, ap, subst, true, Option, none, some, List, [], ◌∷◌, ◌++◌, take, ◌+◌, arith,
}
use mdrack.Base.Results.{Result, ok, err, ◌>>=◌}
use mdrack.Base.Text.{Str, has_content}
use mdrack.Base.Floats.{Floats}
use mdrack.Core.Errors.{
  PyError, ErrorCategory, branch_execution_error, timeout_error, error_to_degradation,
  make_branch_error, is_branch_category,
}
use mdrack.Core.Search.{SearchScope, Degradation, RankedCandidate}
use mdrack.Core.Retrieval.Scoping.{effective_scope}
use mdrack.Core.Retrieval.Branches.{
  PortReply, PortItem, candidate, foreign, listed, not_a_list, validate_loop, validate_candidates,
  BranchOutcome, returned, failed, classify, fail_with, execute_branch,
}
use mdrack.Core.Retrieval.Service.{ExecutedBranch, Task, task_outcome}

module _ (F : Floats) where
  -- A branch error is raised with one of the categories that its class accepts.
  abbrev pub IsProper : Result PyError (PortReply F) → Type 0
  IsProper (err (branch_execution_error category id)) = is_branch_category category ≡ true
  IsProper _ = Unit

  -- What is asked of a branch and its port call.
  abbrev pub IsSound : Task F → Type 0
  IsSound t = (has_content t.branch_id ≡ true) × ((s : SearchScope) → IsProper (t.operation s))

  -- An error other than those two counts as an adapter error.
  abbrev pub settle : Str → Result PyError (List (RankedCandidate F)) → BranchOutcome F
  settle id (ok candidates) = returned candidates
  settle id (err (branch_execution_error category _)) = failed category id
  settle id (err timeout_error) = failed ErrorCategory.adapter_timeout id
  settle id (err _) = failed ErrorCategory.adapter_error id

  -- The outcome of a branch: nothing where its scope is empty, else its accepted candidates or
  -- the category of its failure.
  abbrev pub outcome_of : SearchScope → Task F → BranchOutcome F
  outcome_of scope t = elim (effective_scope scope t.scope_override) [
    | none ↦ returned []
    | some s ↦
        settle t.branch_id (t.operation s >>= validate_candidates F t.branch_id t.candidate_limit)
  ]

  abbrev pub success : Task F → BranchOutcome F → List (ExecutedBranch F)
  success t (returned candidates) =
      (record { branch_id = t.branch_id; weight = t.weight; candidates = candidates }) ∷ []
  success t (failed category id) = []

  abbrev pub failure : BranchOutcome F → List (ErrorCategory × Str)
  failure (returned candidates) = []
  failure (failed category id) = (category, id) ∷ []

  -- The branches that returned candidates, in their order.
  abbrev pub successes : SearchScope → List (Task F) → List (ExecutedBranch F)
  successes scope [] = []
  successes scope (t ∷ ts) = success t (outcome_of scope t) ++ successes scope ts

  -- The failed branches: category and branch id, in their order.
  abbrev pub failures : SearchScope → List (Task F) → List (ErrorCategory × Str)
  failures scope [] = []
  failures scope (t ∷ ts) = failure (outcome_of scope t) ++ failures scope ts

  -- The failed branches with the category that a result reports.
  abbrev pub reported : List (ErrorCategory × Str) → List Degradation
  reported [] = []
  reported ((category, id) ∷ fs) = elim (error_to_degradation category) [
    | none ↦ reported fs
    | some d ↦ (record { branch_id = id; category = d }) ∷ reported fs
  ]

  fail_with-failed :
      (category : ErrorCategory) (id : Str)
      → is_branch_category category ≡ true
      → has_content id ≡ true
      → fail_with F category id ≡ ok (failed category id)
  unfolding fail_with make_branch_error
  fail_with-failed category id c h = ground arith

  classify-settle :
      (id : Str) (r : Result PyError (List (RankedCandidate F)))
      → has_content id ≡ true
      → ((category : ErrorCategory) (j : Str)
          → r ≡ err (branch_execution_error category j)
          → is_branch_category category ≡ true)
      → classify F id r ≡ ok (settle id r)
  unfolding classify is_branch_category
  classify-settle id (ok cs) h k = refl
  classify-settle id (err (branch_execution_error c j)) h k = fail_with-failed c id (k c j refl) h
  classify-settle id (err timeout_error) h k =
      fail_with-failed ErrorCategory.adapter_timeout id refl h
  classify-settle id (err PyError.value_error) h k =
      fail_with-failed ErrorCategory.adapter_error id refl h
  classify-settle id (err PyError.type_error) h k =
      fail_with-failed ErrorCategory.adapter_error id refl h
  classify-settle id (err PyError.key_error) h k =
      fail_with-failed ErrorCategory.adapter_error id refl h
  classify-settle id (err PyError.index_error) h k =
      fail_with-failed ErrorCategory.adapter_error id refl h
  classify-settle id (err PyError.assertion_error) h k =
      fail_with-failed ErrorCategory.adapter_error id refl h
  classify-settle id (err PyError.attribute_error) h k =
      fail_with-failed ErrorCategory.adapter_error id refl h
  classify-settle id (err PyError.overflow_error) h k =
      fail_with-failed ErrorCategory.adapter_error id refl h
  classify-settle id (err PyError.zero_division_error) h k =
      fail_with-failed ErrorCategory.adapter_error id refl h
  classify-settle id (err PyError.other_error) h k =
      fail_with-failed ErrorCategory.adapter_error id refl h
  classify-settle id (err (PyError.core_error c)) h k =
      fail_with-failed ErrorCategory.adapter_error id refl h
  classify-settle id (err (PyError.catalog_execution_error c)) h k =
      fail_with-failed ErrorCategory.adapter_error id refl h

  validate_loop-error :
      (id : Str) (items : List (PortItem F)) (rank : ℕ) (seen : List Str) (category : ErrorCategory)
      (j : Str)
      → ¬ (validate_loop F id items rank seen ≡ err (branch_execution_error category j))
  unfolding validate_loop
  validate_loop-error id [] rank seen category j h = cc
  validate_loop-error id (foreign ∷ items) rank seen category j h = cc
  validate_loop-error id (candidate c ∷ items) rank seen category j h =
      ground (arith, validate_loop-error id items (rank + 1) (c.unit_id ∷ seen) category j)

  proper-bind :
      (id : Str) (limit : ℕ) (r : Result PyError (PortReply F))
      → IsProper r
      → (category : ErrorCategory) (j : Str)
      → (r >>= validate_candidates F id limit) ≡ err (branch_execution_error category j)
      → is_branch_category category ≡ true
  unfolding validate_candidates
  proper-bind id limit (ok not_a_list) p category j h = cc
  proper-bind id limit (ok (listed items)) p category j h =
      absurd (validate_loop-error id (take limit items) 1 [] category j h)
  proper-bind id limit (err e) p category j h =
      let same : e ≡ branch_execution_error category j = cc in
      subst IsProper (ap (λ e. err e) same) p

  pub task_outcome-outcome_of :
      (scope : SearchScope) (t : Task F)
      → IsSound t
      → task_outcome F scope t ≡ ok (outcome_of scope t)
  unfolding task_outcome execute_branch
  task_outcome-outcome_of scope t sound = pick (effective_scope scope t.scope_override)
    where
      pick :
          (e : Option SearchScope)
          → ◌≡◌ {A = Result PyError (BranchOutcome F)}
              (elim e [
                | none ↦ ok (returned [])
                | some s ↦ execute_branch F t.branch_id t.candidate_limit (t.operation s)
              ])
              (ok (elim e [
                | none ↦ returned []
                | some s ↦
                    settle t.branch_id
                      (t.operation s >>= validate_candidates F t.branch_id t.candidate_limit)
              ]))
      pick none = refl
      pick (some s) =
          classify-settle t.branch_id _ sound.0
            (proper-bind t.branch_id t.candidate_limit (t.operation s) (sound.1 s))

  -- A failure that `collect_result` can report.
  abbrev pub IsReportable : Task F → BranchOutcome F → Type 0
  IsReportable t (returned candidates) = Unit
  IsReportable t (failed category id) = (is_branch_category category ≡ true) × (id ≡ t.branch_id)

  settle-IsReportable :
      (t : Task F) (r : Result PyError (List (RankedCandidate F)))
      → ((category : ErrorCategory) (j : Str)
          → r ≡ err (branch_execution_error category j)
          → is_branch_category category ≡ true)
      → IsReportable t (settle t.branch_id r)
  unfolding is_branch_category
  settle-IsReportable t (ok cs) k = tt
  settle-IsReportable t (err (branch_execution_error c j)) k = (k c j refl, refl)
  settle-IsReportable t (err timeout_error) k = (refl, refl)
  settle-IsReportable t (err PyError.value_error) k = (refl, refl)
  settle-IsReportable t (err PyError.type_error) k = (refl, refl)
  settle-IsReportable t (err PyError.key_error) k = (refl, refl)
  settle-IsReportable t (err PyError.index_error) k = (refl, refl)
  settle-IsReportable t (err PyError.assertion_error) k = (refl, refl)
  settle-IsReportable t (err PyError.attribute_error) k = (refl, refl)
  settle-IsReportable t (err PyError.overflow_error) k = (refl, refl)
  settle-IsReportable t (err PyError.zero_division_error) k = (refl, refl)
  settle-IsReportable t (err PyError.other_error) k = (refl, refl)
  settle-IsReportable t (err (PyError.core_error c)) k = (refl, refl)
  settle-IsReportable t (err (PyError.catalog_execution_error c)) k = (refl, refl)

  pub outcome_of-IsReportable :
      (scope : SearchScope) (t : Task F) → IsSound t → IsReportable t (outcome_of scope t)
  outcome_of-IsReportable scope t sound = pick (effective_scope scope t.scope_override)
    where
      pick :
          (e : Option SearchScope)
          → IsReportable t (elim e [
            | none ↦ returned []
            | some s ↦
                settle t.branch_id
                  (t.operation s >>= validate_candidates F t.branch_id t.candidate_limit)
          ])
      pick none = tt
      pick (some s) =
          settle-IsReportable t _
            (proper-bind t.branch_id t.candidate_limit (t.operation s) (sound.1 s))
