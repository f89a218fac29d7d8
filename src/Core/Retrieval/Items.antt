-- ===== src/Core/Retrieval/Items.antt =====
-- The items of a search result.
use mdrack.Base.{
  ℕ, ◌+◌, ◌≤◌, ◌≡◌, refl, sym, ap, subst, true, List, [], ◌∷◌, map, take, length, length-take,
  length-map, map-take, Distinct, Distinct-take, arith, if◌then◌else◌, ◌==◌,
}
use mdrack.Base.Results.{Result, ok, ◌>>=◌, >>=-eq-ok, traverse}
use mdrack.Base.Text.{Str, str_eq}
use mdrack.Base.Floats.{Floats}
use mdrack.Core.Errors.{PyError, ErrorCategory}
use mdrack.Core.Search.{
  target_resource, SearchRequest, SearchResult, SearchResultItem, Degradation, make_item,
  make_search_result,
}
use mdrack.Core.Fusion.{FusedCandidate, weighted_rrf}
use mdrack.Core.Fusion.Ids.{weighted_rrf-Distinct}
use mdrack.Core.Retrieval.Branches.{SearchPort}
use mdrack.Core.Retrieval.Service.{
  ExecutedBranch, Progress, no_progress, lexical_task, vector_task, run_tasks,
  prepare_fusion_branch, project_item, project_items, finish_search, fuse_branches, raise_first,
  search_request,
}

module _ (F : Floats) where
  -- The ranks are `rank`, `rank + 1`, …, and every score is finite.
  abbrev pub ItemsFrom : ℕ → List (SearchResultItem F) → Type 0
  ItemsFrom rank [] = Unit
  ItemsFrom rank (i ∷ is) = (i.rank ≡ rank) × (F.is_finite i.score ≡ true) × ItemsFrom (rank + 1) is

  make_item-ok :
      (i j : SearchResultItem F) → make_item F i ≡ ok j → (i ≡ j) × (F.is_finite i.score ≡ true)
  unfolding make_item
  make_item-ok i j h = (ground arith, ground arith)

  -- The items of the fused candidates `fs`, from a rank on.
  project_items-ok :
      (r : SearchRequest F) (rank : ℕ) (fs : List (FusedCandidate F))
      (is : List (SearchResultItem F))
      → project_items F r rank fs ≡ ok is
      → ItemsFrom rank is
        × (map (λ (i : SearchResultItem F). i.logical_id) is
            ≡ map (λ (f : FusedCandidate F). f.logical_id) fs)
  unfolding project_items
  project_items-ok r rank [] [] h = (tt, refl)
  project_items-ok r rank [] (i ∷ is) h = cc
  project_items-ok r rank (f ∷ fs) is h =
      let (i, p, q) =
        >>=-eq-ok (make_item F (project_item F r rank f))
          (λ item. do items ← project_items F r (rank + 1) fs; ok (item ∷ items)) h in
      let (js, u, v) = >>=-eq-ok (project_items F r (rank + 1) fs) (λ items. ok (i ∷ items)) q in
      let (same, finite) = make_item-ok (project_item F r rank f) i p in
      let (items, ids) = project_items-ok r (rank + 1) fs js u in
      let e : i ∷ js ≡ is = cc in
      subst
        (λ l.
          ItemsFrom rank l
          × (map (λ (i : SearchResultItem F). i.logical_id) l
              ≡ map (λ (f : FusedCandidate F). f.logical_id) (f ∷ fs)))
        e (rw (← same) ((refl, finite, items), ap (◌∷◌ f.logical_id) ids))

  -- What a result promises for its request.
  pub record IsResultFor (r : SearchRequest F) (res : SearchResult F) : Type 0 where
    pub target : res.target ≡ r.target
    pub bounded : length res.items ≤ r.limit
    pub ranked : ItemsFrom 1 res.items
    pub distinct : Distinct (map (λ (i : SearchResultItem F). i.logical_id) res.items)

  make_search_result-ok :
      (x y : SearchResult F)
      → make_search_result F x ≡ ok y
      → (y.target ≡ x.target) × (y.items ≡ x.items) × (y.degradations ≡ x.degradations)
  unfolding make_search_result
  make_search_result-ok x y h = (ground arith, ground arith, ground arith)

  -- The items of the first `r.limit` fused candidates make a result.
  project_items-IsResultFor :
      (r : SearchRequest F) (ds : List Degradation) (fused : List (FusedCandidate F))
      (items : List (SearchResultItem F)) (res : SearchResult F)
      → Distinct (map (λ (f : FusedCandidate F). f.logical_id) fused)
      → project_items F r 1 (take r.limit fused) ≡ ok items
      → make_search_result F (record {
        target = r.target;
        items = items;
        degradations = ds;
        request_id = r.request_id;
      })
        ≡ ok res
      → IsResultFor r res × (res.degradations ≡ ds)
  project_items-IsResultFor r ds fused items res distinct projected made =
      let (target, same, degraded) = make_search_result-ok _ res made in
      let (ranked, ids) = project_items-ok r 1 (take r.limit fused) items projected in
      let bound : length items ≤ r.limit =
        let a = ap length ids in
        let b = length-map (λ (i : SearchResultItem F). i.logical_id) items in
        let c = length-map (λ (f : FusedCandidate F). f.logical_id) (take r.limit fused) in
        let d = length-take r.limit fused in omega arith in
      let distinct' : Distinct (map (λ (i : SearchResultItem F). i.logical_id) items) =
        rw (ids, map-take)
          (Distinct-take r.limit (map (λ (f : FusedCandidate F). f.logical_id) fused) distinct) in
      (
        record {
          target = target;
          bounded = subst (λ l. length l ≤ r.limit) (sym same) bound;
          ranked = subst (λ l. ItemsFrom 1 l) (sym same) ranked;
          distinct =
              subst (λ l. Distinct (map (λ (i : SearchResultItem F). i.logical_id) l)) (sym same)
                distinct';
        },
        degraded,
      )

  fuse_branches-IsResultFor :
      (r : SearchRequest F) (ds : List Degradation) (bs : List (ExecutedBranch F))
      (res : SearchResult F)
      → fuse_branches F r ds bs ≡ ok res
      → IsResultFor r res × (res.degradations ≡ ds)
  unfolding fuse_branches
  fuse_branches-IsResultFor r ds bs res h =
      let n : ℕ =
        if r.target == target_resource then r.evidence_limit_per_resource else length bs in
      let (branches, p, q) = >>=-eq-ok (traverse (prepare_fusion_branch F r) bs) _ h in
      let (fused, u, v) = >>=-eq-ok (weighted_rrf F branches r.rrf_k n) _ q in
      let (items, w, x) = >>=-eq-ok (project_items F r 1 (take r.limit fused)) _ v in
      project_items-IsResultFor r ds fused items res (weighted_rrf-Distinct F branches r.rrf_k n u)
        w x

  raise_first-err :
      {A : Type 0} (fs : List (ErrorCategory × Str)) (a : A) → ¬ (raise_first F fs ≡ ok a)
  unfolding raise_first
  raise_first-err [] a e = cc
  raise_first-err (f ∷ fs) a e = cc

  finish_search-IsResultFor :
      (r : SearchRequest F) (p : Progress F) (res : SearchResult F)
      → finish_search F r p ≡ ok res
      → IsResultFor r res × (res.degradations ≡ p.degradations)
  unfolding finish_search
  finish_search-IsResultFor r p res h = finished p.successful h
    where
      finished :
          (l : List (ExecutedBranch F))
          → ◌≡◌ {A = Result PyError (SearchResult F)}
              (elim l [
                | [] ↦ raise_first F p.failures
                | b ∷ bs ↦ fuse_branches F r p.degradations (b ∷ bs)
              ])
              (ok res)
          → IsResultFor r res × (res.degradations ≡ p.degradations)
      finished [] e = absurd (raise_first-err p.failures res e)
      finished (b ∷ bs) e = fuse_branches-IsResultFor r p.degradations (b ∷ bs) res e

  -- When a search returns, its result repeats the target, has at most limit items, ranks them 1,
  -- 2 and so on with finite scores, and names no logical id twice.
  pub search_request-IsResultFor :
      (port : SearchPort F) (r : SearchRequest F) (res : SearchResult F)
      → search_request F port r ≡ ok res
      → IsResultFor r res
  unfolding search_request
  search_request-IsResultFor port r res h =
      let (p, _, q) =
        >>=-eq-ok
          (run_tasks F r.scope r.allow_partial (map (lexical_task F port) r.lexical_branches)
            (no_progress F))
          _ h in
      let (p', _, f) =
        >>=-eq-ok
          (run_tasks F r.scope r.allow_partial (map (vector_task F port) r.vector_branches) p) _
          q in
      (finish_search-IsResultFor r p' res f).0
