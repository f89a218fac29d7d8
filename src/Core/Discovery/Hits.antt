-- ===== src/Core/Discovery/Hits.antt =====
-- `similar` over a port that ranks hits: its loop ends, and finds what there is to find.
use mdrack.Base.{
  ℕ, zero, suc, ◌+◌, ◌*◌, ◌≤◌, ◌<◌, ◌≡◌, refl, ap, Bool, true, false, not, ◌||◌, ◌==◌, some, List,
  [], ◌∷◌, map, take, length, keep_if, ltb, leb, eqb, if◌then◌else◌, arith, Distinct, Distinct-take,
  length-take, length-map, map-take, take_of_length-le, Bool-cases, inl, inr,
}
use mdrack.Base.Results.{ok}
use mdrack.Base.Text.{Str, str_eq}
use mdrack.Base.Floats.{Floats}
use mdrack.Core.Common.{require_integer}
use mdrack.Core.Records.{SearchUnitRecord, VectorRecord}
use mdrack.Core.Search.{SearchScope, RankedCandidate, SimilarityRequest, check_vector_branch}
use mdrack.Core.Retrieval.Branches.{SearchPort, PortItem, candidate, listed}
use mdrack.Core.Retrieval.Candidates.{RankedFrom, unit_ids, validate_candidates_iff}
use mdrack.Core.Discovery.{ResourceReadPort}
use mdrack.Core.Discovery.Similar.{
  similarity_branch, similarity_query, similar_page, select, is_selected, similar_loop,
  whole_resource_scope, read_query, finish_similar, similar,
}

-- Once `k` members were found among the first `c`, no more of the list is needed.
take-keep_if :
    {A : Type 0} (p : A → Bool) (k c : ℕ) (xs : List A)
    → length (take k (keep_if p (take c xs))) ≡ k
    → take k (keep_if p (take c xs)) ≡ take k (keep_if p xs)
take-keep_if p zero c xs h = refl
take-keep_if p (suc k) zero xs h = absurd (omega arith)
take-keep_if p (suc k) (suc c) [] h = refl
take-keep_if p (suc k) (suc c) (x ∷ xs) h =
    ground (arith, take-keep_if p k c xs, take-keep_if p (suc k) c xs)

keep_if-all : {A : Type 0} (xs : List A) → keep_if (λ (x : A). true) xs ≡ xs
keep_if-all [] = refl
keep_if-all (x ∷ xs) = ap (◌∷◌ x) (keep_if-all xs)

module _ (F : Floats) where
  -- The hits of other resources, where those of this one are excluded; else all
  abbrev pub allowed_hits : Bool → Str → List (RankedCandidate F) → List (RankedCandidate F)
  allowed_hits true resource hits =
      keep_if (λ (c : RankedCandidate F). not (c.resource_id == resource)) hits
  allowed_hits false resource hits = hits

  keep_if-allowed_hits :
      (exclude : Bool) (resource : Str) (hits : List (RankedCandidate F))
      → keep_if (λ (c : RankedCandidate F). not exclude || not (c.resource_id == resource)) hits
        ≡ allowed_hits exclude resource hits
  keep_if-allowed_hits true resource hits = refl
  keep_if-allowed_hits false resource hits = keep_if-all hits

  RankedFrom-take :
      (b : Str) (rank n : ℕ) (cs : List (RankedCandidate F))
      → RankedFrom F b rank cs
      → RankedFrom F b rank (take n cs)
  RankedFrom-take b rank zero cs h = tt
  RankedFrom-take b rank (suc n) [] h = tt
  RankedFrom-take b rank (suc n) (c ∷ cs) h = (h.0, h.1, RankedFrom-take b (rank + 1) n cs h.2)

  module _ (port : SearchPort F) (request : SimilarityRequest F) (unit : SearchUnitRecord F)
      (vector : VectorRecord F) (scope : SearchScope) (hits : List (RankedCandidate F)) where
    -- The port ranks `hits` for the query, and answers with as many as it is asked for.
    pub record Ranks : Type 0 where
      pub query : check_vector_branch F (similarity_query F request vector 1) ≡ ok tt
      pub answer :
          (n : ℕ)
          → port.search_vector (similarity_query F request vector n) scope
            ≡ ok (listed (map candidate (take n hits)))
      pub ranked : RankedFrom F similarity_branch 1 hits
      pub distinct : Distinct (unit_ids F hits)

    query_ok :
        (n : ℕ)
        → 1 ≤ n
        → check_vector_branch F (similarity_query F request vector 1) ≡ ok tt
        → check_vector_branch F (similarity_query F request vector n) ≡ ok tt
    unfolding check_vector_branch require_integer
    query_ok n h q = let e : leb 1 n ≡ true = ground arith in rw e q

    similar_page-hits :
        Ranks → (n : ℕ) → 1 ≤ n → similar_page F port request vector scope n ≡ ok (take n hits)
    unfolding similar_page
    similar_page-hits r n h =
        let page = take n hits in
        let short : length page ≤ n = omega (arith, length-take n hits) in
        let items : length (map {B = PortItem F} candidate page) ≤ n =
          omega (arith, length-map {B = PortItem F} candidate page) in
        let units : Distinct (unit_ids F page) =
          rw (map-take (λ (c : RankedCandidate F). c.unit_id))
            (Distinct-take n (unit_ids F hits) r.distinct) in
        let accepted = (validate_candidates_iff F similarity_branch n (map candidate page) page).1 (
          take_of_length-le n (map candidate page) items,
          RankedFrom-take similarity_branch 1 n hits r.ranked,
          units,
        ) in
        rw (query_ok n h r.query, r.answer n) accepted

    -- The test that ends the loop, for the page of the first `n` hits
    abbrev is_last : ℕ → Bool
    is_last n =
        eqb (length (select F request unit (take n hits))) request.limit
        || ltb (length (take n hits)) n

    last_page :
        (n : ℕ)
        → is_last n ≡ true
        → select F request unit (take n hits) ≡ select F request unit hits
    last_page n h = elim (Bool-cases (ltb (length (take n hits)) n)) [
      | inl p ↦
          let short : length hits ≤ n = ground (arith, length-take n hits) in
          ap (select F request unit) (take_of_length-le n hits short)
      | inr p ↦ take-keep_if (is_selected F request unit) request.limit n hits (ground arith)
    ]

    more_pages : (n : ℕ) → is_last n ≡ false → n ≤ length hits
    more_pages n h = ground (arith, length-take n hits)

    similar_loop-hits :
        Ranks
        → (fuel n : ℕ) → 1 ≤ n
        → length hits < n + fuel
        → similar_loop F port request unit vector scope (suc fuel) n
          ≡ some (ok (select F request unit hits))
    unfolding similar_loop
    similar_loop-hits r zero n h bound = elim (Bool-cases (is_last n)) [
      | inl p ↦
          rw (similar_page-hits r n h, similar_loop) (rw p (ap (λ s. some (ok s)) (last_page n p)))
      | inr p ↦ absurd (omega (arith, more_pages n p))
    ]
    similar_loop-hits r (suc fuel) n h bound = elim (Bool-cases (is_last n)) [
      | inl p ↦
          rw (similar_page-hits r n h, similar_loop) (rw p (ap (λ s. some (ok s)) (last_page n p)))
      | inr p ↦
          rw (similar_page-hits r n h, similar_loop)
            (rw p (similar_loop-hits r fuel (n * 2) (omega arith) (omega arith)))
    ]

    -- For a whole-resource unit with a vector, a scope that admits whole resources, a positive
    -- limit, a port that ranks some hits and more rounds of fuel than there are hits, similar
    -- ends with the first limit hits, without those of the unit's own resource where the request
    -- excludes them.
    pub similar-hits :
        (catalog : ResourceReadPort F)
        → read_query F catalog request ≡ ok (some (unit, vector))
        → whole_resource_scope request.scope ≡ some scope
        → Ranks
        → 1 ≤ request.limit
        → (fuel : ℕ) → length hits < fuel
        → similar F fuel catalog port request
          ≡ some (
              finish_similar F request (
                ok (
                  take request.limit
                    (allowed_hits request.exclude_same_resource unit.resource_id hits))))
    unfolding similar
    similar-hits catalog found whole r positive zero bound = absurd (omega arith)
    similar-hits catalog found whole r positive (suc fuel) bound =
        let start : ℕ = request.limit + (if request.exclude_same_resource then 1 else 0) in
        let run = similar_loop-hits r fuel start (ground arith) (ground arith) in
        rw (found, similar)
          (rw (whole, similar)
            (rw (run, similar)
              (ap
                (λ (l : List (RankedCandidate F)).
                  some (finish_similar F request (ok (take request.limit l))))
                (keep_if-allowed_hits request.exclude_same_resource unit.resource_id hits))))
