-- ===== src/Host/Scoring/Ranks.antt =====
-- The fused results are the chunks of both lists, each once, with their first ranks.
use mdrack.Base.{
  ℕ, zero, suc, subst, Bool, ◌≡◌, refl, sym, ap, ap₂, ◌∙◌, ◌||◌, Option, none, some, List, [], ◌∷◌,
  ◌++◌, map, length, All, contains, contains-append, contains-add_key, Distinct, Distinct-add_key,
  add_key, arith,
}
use mdrack.Base.Dict.{Dict, keys, lookup, set_default, keys-set_default}
use mdrack.Base.Int.{ℤ, pos, negsuc, add_ℕ}
use mdrack.Base.Results.{ok, >>=-eq-ok, traverse, Each, Each-map, traverse-Each}
use mdrack.Base.Order.{sort_by, sort_by-All, contains-sort_by, sort_by-Distinct}
use mdrack.Base.Places.{place_of, or_else, or_else-none, or_else-set_default}
use mdrack.Base.Text.{Str, str_eq}
use mdrack.Base.Floats.{Floats}
use mdrack.Host.Scoring.{
  RankedResult, reciprocal, first_places, from_keys, add_rank, ranked_result, result_before,
  number_results, reciprocal_rank_fusion,
}

pub lookup-first_places :
    (start : ℕ) (ids : List Str) (places : Dict Str ℕ) (x : Str)
    → lookup x (first_places start ids places) ≡ or_else (lookup x places) (place_of start ids x)
unfolding first_places or_else place_of
lookup-first_places start [] places x = sym (or_else-none (lookup x places))
lookup-first_places start (y ∷ ys) places x =
    lookup-first_places (suc start) ys (set_default y start places) x
    ∙ or_else-set_default y x start places (place_of (suc start) ys x)

contains-first_places :
    (x : Str) (start : ℕ) (ids : List Str) (places : Dict Str ℕ)
    → contains x (keys (first_places start ids places))
      ≡ (contains x (keys places) || contains x ids)
unfolding first_places
contains-first_places x start [] places = ground arith
contains-first_places x start (y ∷ ys) places = ground (
  arith,
  contains-first_places x (suc start) ys (set_default y start places),
  ap (λ (ks : List Str). contains x ks) (keys-set_default y start places),
  contains-add_key x y (keys places),
)

contains-from_keys :
    (x : Str) (seen ids : List Str)
    → contains x (from_keys seen ids) ≡ (contains x seen || contains x ids)
unfolding from_keys
contains-from_keys x seen [] = ground arith
contains-from_keys x seen (y ∷ ys) =
    ground (arith, contains-from_keys x (add_key y seen) ys, contains-add_key x y seen)

from_keys-Distinct : (seen ids : List Str) → Distinct seen → Distinct (from_keys seen ids)
unfolding from_keys
from_keys-Distinct seen [] d = d
from_keys-Distinct seen (y ∷ ys) d =
    from_keys-Distinct (add_key y seen) ys (Distinct-add_key y seen d)

module _ (F : Floats) where
  abbrev pub chunk_ids : List (RankedResult F) → List Str
  chunk_ids = map (λ (r : RankedResult F). r.chunk_id)

  chunk_ids-number_results :
      (rank : ℕ) (rs : List (RankedResult F)) → chunk_ids (number_results F rank rs) ≡ chunk_ids rs
  unfolding number_results
  chunk_ids-number_results rank [] = refl
  chunk_ids-number_results rank (r ∷ rs) =
      ap (◌∷◌ r.chunk_id) (chunk_ids-number_results (suc rank) rs)

  -- A score and the quotient for a rank, where there is one: `1.0 / (k + rank)`
  abbrev quotient : ℤ → F.Float
  quotient (pos n) = F.div_int F.one_float n
  quotient (negsuc n) = F.div_negative F.one_float n

  abbrev pub plus_quotient : ℤ → Option ℕ → F.Float → F.Float
  plus_quotient k none score = score
  plus_quotient k (some rank) score = F.add score (quotient (add_ℕ k rank))

  reciprocal-quotient : (n : ℤ) {x : F.Float} → reciprocal F n ≡ ok x → x ≡ quotient n
  unfolding reciprocal
  reciprocal-quotient (pos zero) h = absurd (cc)
  reciprocal-quotient (pos (suc n)) h = ground arith
  reciprocal-quotient (negsuc n) h = ground arith

  add_rank-plus_quotient :
      (k : ℤ) (rank : Option ℕ) (score : F.Float) {x : F.Float}
      → add_rank F k rank score ≡ ok x
      → x ≡ plus_quotient k rank score
  unfolding add_rank
  add_rank-plus_quotient k none score h = cc
  add_rank-plus_quotient k (some rank) score h =
      let (part, p, q) = >>=-eq-ok (reciprocal F (add_ℕ k rank)) (λ y. ok (F.add score y)) h in
      let e = reciprocal-quotient (add_ℕ k rank) p in cc

  -- The ranks and the score of a result
  abbrev pub IsRanked : List Str → List Str → ℤ → RankedResult F → Type 0
  IsRanked text semantic k r =
      (r.text_rank ≡ place_of 1 text r.chunk_id)
      × (r.semantic_rank ≡ place_of 1 semantic r.chunk_id)
      × (r.combined_score
          ≡ plus_quotient k (place_of 1 semantic r.chunk_id)
              (plus_quotient k (place_of 1 text r.chunk_id) F.zero_float))

  -- What `ranked_result` makes of a chunk id
  abbrev IsResultOf : List Str → List Str → ℤ → Str → RankedResult F → Type 0
  IsResultOf text semantic k id r = (r.chunk_id ≡ id) × IsRanked text semantic k r

  ranked_result-IsResultOf :
      (text semantic : List Str) (k : ℤ) (id : Str) (r : RankedResult F)
      → ranked_result F k (first_places 1 text []) (first_places 1 semantic []) id ≡ ok r
      → IsResultOf text semantic k id r
  unfolding ranked_result or_else lookup
  ranked_result-IsResultOf text semantic k id r h =
      let t = lookup-first_places 1 text [] id in
      let s = lookup-first_places 1 semantic [] id in
      let (x, p, q) =
        >>=-eq-ok (add_rank F k (lookup id (first_places 1 text [])) F.zero_float) _ h in
      let (y, p', q') = >>=-eq-ok (add_rank F k (lookup id (first_places 1 semantic [])) x) _ q in
      let e = add_rank-plus_quotient k (lookup id (first_places 1 text [])) F.zero_float p in
      let e' = add_rank-plus_quotient k (lookup id (first_places 1 semantic [])) x p' in
      let same : record {
        chunk_id = id;
        combined_score = y;
        text_rank = lookup id (first_places 1 text []);
        semantic_rank = lookup id (first_places 1 semantic []);
        rrf_rank = 0;
      }
          ≡ r =
        cc in
      subst (IsResultOf text semantic k id) same (
        refl,
        (
          t,
          s,
          e'
              ∙ ap₂ (λ (o : Option ℕ) z. plus_quotient k o z) s
                  (e ∙ ap (λ (o : Option ℕ). plus_quotient k o F.zero_float) t),
        ),
      )

  chunk_ids-Each :
      (text semantic : List Str) (k : ℤ) (ids : List Str) (rs : List (RankedResult F))
      → Each (IsResultOf text semantic k) ids rs
      → (chunk_ids rs ≡ ids) × All (IsRanked text semantic k) rs
  chunk_ids-Each text semantic k [] [] h = (refl, tt)
  chunk_ids-Each text semantic k [] (r ∷ rs) h = absurd h
  chunk_ids-Each text semantic k (id ∷ ids) [] h = absurd h
  chunk_ids-Each text semantic k (id ∷ ids) (r ∷ rs) h =
      let (same, ranked) = chunk_ids-Each text semantic k ids rs h.1 in
      (ap₂ ◌∷◌ h.0.0 same, (h.0.1, ranked))

  number_results-All :
      (text semantic : List Str) (k : ℤ) (rank : ℕ) (rs : List (RankedResult F))
      → All (IsRanked text semantic k) rs
      → All (IsRanked text semantic k) (number_results F rank rs)
  unfolding number_results
  number_results-All text semantic k rank [] h = tt
  number_results-All text semantic k rank (r ∷ rs) h =
      (h.0, number_results-All text semantic k (suc rank) rs h.1)

  -- The order of the results
  abbrev pub order : List Str → List Str → RankedResult F → RankedResult F → Bool
  order text semantic =
      result_before F (first_places (length text) semantic (first_places 0 text []))

  -- The ids over which the results are computed
  abbrev pub all_chunk_ids : List Str → List Str → List Str
  all_chunk_ids text semantic =
      from_keys [] (keys (first_places 1 text []) ++ keys (first_places 1 semantic []))

  -- A returned result numbers and sorts one result for each of these ids.
  reciprocal_rank_fusion-results :
      (text semantic : List Str) (k : ℤ) {out : List (RankedResult F)}
      → reciprocal_rank_fusion F text semantic k ≡ ok out
      → (rs : List (RankedResult F)) × (out ≡ number_results F 1 (sort_by (order text semantic) rs))
        × (chunk_ids rs ≡ all_chunk_ids text semantic)
        × All (IsRanked text semantic k) rs
  unfolding reciprocal_rank_fusion
  reciprocal_rank_fusion-results text semantic k h =
      let one = ranked_result F k (first_places 1 text []) (first_places 1 semantic []) in
      let ids = all_chunk_ids text semantic in
      let (rs, p, q) =
        >>=-eq-ok (traverse one ids)
          (λ rs. ok (number_results F 1 (sort_by (order text semantic) rs))) h in
      let (same, ranked) = chunk_ids-Each text semantic k ids rs (
        Each-map (λ id r. one id ≡ ok r) (IsResultOf text semantic k) ids rs
          (ranked_result-IsResultOf text semantic k) (traverse-Each one ids p)) in
      (rs, cc, same, ranked)

  -- When it returns, the fusion of two lists holds a chunk exactly when one of the lists holds
  -- it, and no chunk twice.
  pub reciprocal_rank_fusion-ids :
      (text semantic : List Str) (k : ℤ) (x : Str) {out : List (RankedResult F)}
      → reciprocal_rank_fusion F text semantic k ≡ ok out
      → (contains x (chunk_ids out) ≡ (contains x text || contains x semantic))
        × Distinct (chunk_ids out)
  reciprocal_rank_fusion-ids text semantic k x h =
      let t = first_places 1 text [] in
      let s = first_places 1 semantic [] in
      let before = order text semantic in
      let (rs, made, same, ranked) = reciprocal_rank_fusion-results text semantic k h in
      let known = contains-from_keys x [] (keys t ++ keys s) in
      let both = contains-append x (keys t) (keys s) in
      rw (made, chunk_ids-number_results 1 (sort_by before rs))
        (
          contains-sort_by before (λ (r : RankedResult F). r.chunk_id) x rs
              ∙ ap (λ (l : List Str). contains x l) same
              ∙ ground (
                arith,
                known,
                both,
                contains-first_places x 1 text [],
                contains-first_places x 1 semantic [],
              ),
          sort_by-Distinct before (λ (r : RankedResult F). r.chunk_id) rs
              (rw same (from_keys-Distinct [] (keys t ++ keys s) tt)),
        )

  -- When the fusion of two lists returns, every result carries as ranks the places of the first
  -- occurrence of its chunk in the two lists, counted from one, and as score 0.0 plus 1.0 / (k +
  -- rank) for the text rank and then for the semantic rank, where there is one; k may be below
  -- zero.
  pub reciprocal_rank_fusion-ranks :
      (text semantic : List Str) (k : ℤ) {out : List (RankedResult F)}
      → reciprocal_rank_fusion F text semantic k ≡ ok out
      → All (IsRanked text semantic k) out
  reciprocal_rank_fusion-ranks text semantic k h =
      let (rs, made, same, ranked) = reciprocal_rank_fusion-results text semantic k h in
      rw made (
        number_results-All text semantic k 1 (sort_by (order text semantic) rs)
          (sort_by-All (order text semantic) (IsRanked text semantic k) rs ranked))
