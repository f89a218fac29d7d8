-- ===== src/Core/Retrieval/Runs.antt =====
-- `search` as a function of what each branch returned: which branches are fused, which are
-- reported as degraded, and which failure is raised.
use mathlib.Core.List.{append-nil, append_assoc}
use mdrack.Base.{
  ◌≡◌, refl, sym, ap, ◌∙◌, Bool, true, false, List, [], ◌∷◌, ◌++◌, map, All, arith, if◌then◌else◌,
}
use mdrack.Base.Results.{Result, ok, err, ◌>>=◌, bind_assoc, bind_cong}
use mdrack.Base.Text.{Str}
use mdrack.Base.Floats.{Floats}
use mdrack.Core.Errors.{
  PyError, ErrorCategory, index_error, branch_execution_error, error_to_degradation,
  is_branch_category,
}
use mdrack.Core.Search.{SearchScope, SearchRequest, SearchResult}
use mdrack.Core.Retrieval.Branches.{SearchPort, BranchOutcome, returned, failed}
use mdrack.Core.Retrieval.Service.{
  ExecutedBranch, Progress, no_progress, collect_result, raise_first, stop_on_failure, Task,
  lexical_task, vector_task, run_task, run_tasks, fuse_branches, finish_search, search_request,
}
use mdrack.Core.Retrieval.Outcomes.{
  IsSound, outcome_of, success, failure, successes, failures, reported, IsReportable,
  task_outcome-outcome_of, outcome_of-IsReportable,
}

module _ (F : Floats) where
  -- The lists of `search` after some branches, over those before.
  abbrev extend :
      Bool → List (ExecutedBranch F) → List (ErrorCategory × Str) → Progress F → Progress F
  extend allow_partial done fs p = record {
    successful = p.successful ++ done;
    degradations = p.degradations ++ (if allow_partial then reported F fs else []);
    failures = p.failures ++ fs;
  }

  collect_result-extend :
      (allow_partial : Bool) (t : Task F) (o : BranchOutcome F) (p : Progress F)
      → IsReportable F t o
      → collect_result F allow_partial t.branch_id t.weight o p
        ≡ ok (extend allow_partial (success F t o) (failure F o) p)
  unfolding collect_result error_to_degradation is_branch_category
  collect_result-extend true t (returned candidates) p h = simp append-nil
  collect_result-extend false t (returned candidates) p h = simp append-nil
  collect_result-extend false t (failed category id) p h = simp append-nil
  collect_result-extend true t (failed ErrorCategory.branch_unavailable id) p h =
      simp (append-nil, h.1)
  collect_result-extend true t (failed ErrorCategory.incompatible_vector_space id) p h =
      simp (append-nil, h.1)
  collect_result-extend true t (failed ErrorCategory.adapter_timeout id) p h =
      simp (append-nil, h.1)
  collect_result-extend true t (failed ErrorCategory.adapter_error id) p h = simp (append-nil, h.1)
  collect_result-extend true t (failed ErrorCategory.validation id) p h = cc
  collect_result-extend true t (failed ErrorCategory.catalog_error id) p h = cc
  collect_result-extend true t (failed ErrorCategory.internal_error id) p h = cc

  reported-append :
      (fs gs : List (ErrorCategory × Str)) → reported F (fs ++ gs) ≡ reported F fs ++ reported F gs
  reported-append [] gs = refl
  reported-append ((category, id) ∷ fs) gs = ground (arith, reported-append fs gs)

  extend-extend :
      (allow_partial : Bool) (done more : List (ExecutedBranch F))
      (fs gs : List (ErrorCategory × Str)) (p : Progress F)
      → extend allow_partial more gs (extend allow_partial done fs p)
        ≡ extend allow_partial (done ++ more) (fs ++ gs) p
  extend-extend true done more fs gs p = simp (append_assoc, reported-append)
  extend-extend false done more fs gs p = simp (append_assoc, append-nil)

  run_tasks-partial :
      (scope : SearchScope) (ts : List (Task F)) (p : Progress F)
      → All (IsSound F) ts
      → run_tasks F scope true ts p
        ≡ ok (extend true (successes F scope ts) (failures F scope ts) p)
  unfolding run_tasks run_task stop_on_failure
  run_tasks-partial scope [] p h = simp append-nil
  run_tasks-partial scope (t ∷ ts) p h =
      let o = outcome_of F scope t in
      rw (task_outcome-outcome_of F scope t h.0, run_task)
        (rw
          (collect_result-extend true t (outcome_of F scope t) p
            (outcome_of-IsReportable F scope t h.0))
          (run_tasks-partial scope ts (extend true (success F t o) (failure F o) p) h.1
            ∙ ap ok (
                extend-extend true (success F t o) (successes F scope ts) (failure F o)
                  (failures F scope ts) p)))

  -- Without partial results the first failure ends the loop.
  abbrev strict : List (ErrorCategory × Str) → Progress F → Result PyError (Progress F)
  strict [] p = ok p
  strict (f ∷ fs) p = err (branch_execution_error f.0 f.1)

  stop_clear : (q : Progress F) → q.failures ≡ [] → stop_on_failure F false q ≡ ok q
  unfolding stop_on_failure
  stop_clear q e = simp (e, stop_on_failure)

  stop_raise :
      (q : Progress F) (f : ErrorCategory × Str)
      → q.failures ≡ f ∷ []
      → stop_on_failure F false q ≡ err (branch_execution_error f.0 f.1)
  unfolding stop_on_failure raise_first
  stop_raise q f e = rw (e, stop_on_failure)

  strict_step :
      (t : Task F) (o : BranchOutcome F) (p : Progress F)
      (rest : Progress F → Result PyError (Progress F)) (more : List (ExecutedBranch F))
      (gs : List (ErrorCategory × Str))
      → p.failures ≡ []
      → ((q : Progress F) → q.failures ≡ [] → rest q ≡ strict gs (extend false more gs q))
      → (stop_on_failure F false (extend false (success F t o) (failure F o) p) >>= rest)
        ≡ strict (failure F o ++ gs) (extend false (success F t o ++ more) (failure F o ++ gs) p)
  strict_step t (returned candidates) p rest more gs e ih =
      let q = extend false (success F t (returned candidates)) [] p in
      let clear : q.failures ≡ [] = append-nil p.failures ∙ e in
      rw (stop_clear q clear) (
        ih q clear
        ∙ ap (strict gs) (extend-extend false (success F t (returned candidates)) more [] gs p))
  strict_step t (failed category id) p rest more gs e ih = rw (
      stop_raise (extend false [] ((category, id) ∷ []) p) (category, id)
        (ap (λ l. l ++ ((category, id) ∷ [])) e))

  run_tasks-strict :
      (scope : SearchScope) (ts : List (Task F)) (p : Progress F)
      → p.failures ≡ []
      → All (IsSound F) ts
      → run_tasks F scope false ts p
        ≡ strict (failures F scope ts) (extend false (successes F scope ts) (failures F scope ts) p)
  unfolding run_tasks run_task
  run_tasks-strict scope [] p e h = simp append-nil
  run_tasks-strict scope (t ∷ ts) p e h =
      let o = outcome_of F scope t in
      rw (task_outcome-outcome_of F scope t h.0, run_task)
        (rw (collect_result-extend false t o p (outcome_of-IsReportable F scope t h.0)) (
          strict_step t o p (λ q. run_tasks F scope false ts q) (successes F scope ts)
            (failures F scope ts) e (λ q clear. run_tasks-strict scope ts q clear h.1)))

  run_tasks-append :
      (scope : SearchScope) (allow_partial : Bool) (ts us : List (Task F)) (p : Progress F)
      → (run_tasks F scope allow_partial ts p >>= run_tasks F scope allow_partial us)
        ≡ run_tasks F scope allow_partial (ts ++ us) p
  unfolding run_tasks
  run_tasks-append scope allow_partial [] us p = refl
  run_tasks-append scope allow_partial (t ∷ ts) us p =
      bind_assoc (run_task F scope allow_partial t p) (λ q. run_tasks F scope allow_partial ts q)
        (run_tasks F scope allow_partial us)
      ∙ bind_cong (run_task F scope allow_partial t p)
          (λ q. run_tasks F scope allow_partial ts q >>= run_tasks F scope allow_partial us)
          (λ q. run_tasks F scope allow_partial (ts ++ us) q)
          (run_tasks-append scope allow_partial ts us)

  -- The lexical branches, then the vector branches.
  abbrev pub tasks : SearchPort F → SearchRequest F → List (Task F)
  tasks port r =
      map (lexical_task F port) r.lexical_branches ++ map (vector_task F port) r.vector_branches

  -- What `search` does with the outcomes of all branches.
  abbrev pub conclude :
      Bool
      → SearchRequest F
      → List (ExecutedBranch F)
      → List (ErrorCategory × Str)
      → Result PyError (SearchResult F)
  conclude true r (b ∷ done) fs = fuse_branches F r (reported F fs) (b ∷ done)
  conclude true r [] (f ∷ fs) = err (branch_execution_error f.0 f.1)
  conclude true r [] [] = err index_error
  conclude false r (b ∷ done) [] = fuse_branches F r [] (b ∷ done)
  conclude false r [] [] = err index_error
  conclude false r done (f ∷ fs) = err (branch_execution_error f.0 f.1)

  conclude-partial :
      (r : SearchRequest F) (done : List (ExecutedBranch F)) (fs : List (ErrorCategory × Str))
      → finish_search F r
          (record { successful = done; degradations = reported F fs; failures = fs })
        ≡ conclude true r done fs
  unfolding finish_search raise_first
  conclude-partial r [] [] = refl
  conclude-partial r [] (f ∷ fs) = refl
  conclude-partial r (b ∷ done) fs = refl

  conclude-strict :
      (r : SearchRequest F) (done : List (ExecutedBranch F)) (fs : List (ErrorCategory × Str))
      → (strict fs (extend false done fs (no_progress F)) >>= finish_search F r)
        ≡ conclude false r done fs
  unfolding finish_search raise_first
  conclude-strict r [] [] = refl
  conclude-strict r (b ∷ done) [] = refl
  conclude-strict r [] (f ∷ fs) = refl
  conclude-strict r (b ∷ done) (f ∷ fs) = refl

  run_tasks-conclude :
      (allow_partial : Bool) (r : SearchRequest F) (ts : List (Task F))
      → All (IsSound F) ts
      → (run_tasks F r.scope allow_partial ts (no_progress F) >>= finish_search F r)
        ≡ conclude allow_partial r (successes F r.scope ts) (failures F r.scope ts)
  run_tasks-conclude true r ts h =
      ap (λ m. m >>= finish_search F r) (run_tasks-partial r.scope ts (no_progress F) h)
      ∙ conclude-partial r (successes F r.scope ts) (failures F r.scope ts)
  run_tasks-conclude false r ts h =
      ap (λ m. m >>= finish_search F r) (run_tasks-strict r.scope ts (no_progress F) refl h)
      ∙ conclude-strict r (successes F r.scope ts) (failures F r.scope ts)

  -- For a port whose branch errors have accepted categories and branches with non-blank ids, a
  -- search is a function of the outcome of each branch: with partial results allowed it fuses
  -- every branch that returned and reports every failed one in request order, or raises the first
  -- failure when none returned; else it raises the first failure, and fuses all branches when
  -- there is none.
  pub search_request-conclude :
      (port : SearchPort F) (r : SearchRequest F)
      → All (IsSound F) (tasks port r)
      → search_request F port r
        ≡ conclude r.allow_partial r
            (successes F r.scope (tasks port r))
            (failures F r.scope (tasks port r))
  unfolding search_request
  search_request-conclude port r h =
      let lex = map (lexical_task F port) r.lexical_branches in
      let vec = map (vector_task F port) r.vector_branches in
      sym (
        bind_assoc (run_tasks F r.scope r.allow_partial lex (no_progress F))
          (run_tasks F r.scope r.allow_partial vec) (finish_search F r))
      ∙ ap (λ m. m >>= finish_search F r)
          (run_tasks-append r.scope r.allow_partial lex vec (no_progress F))
      ∙ run_tasks-conclude r.allow_partial r (tasks port r) h
