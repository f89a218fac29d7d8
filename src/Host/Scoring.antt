-- ===== src/Host/Scoring.antt =====
-- src/mdrack/search/scoring.py: reciprocal rank fusion of the text and the semantic results, each
-- given by its chunk ids.
pub mod Ranks
pub mod Total
use mdrack.Base.{
  ℕ, zero, suc, ◌+◌, ◌-◌, Bool, true, false, not, ◌&&◌, ◌||◌, Option, none, some, List, [], ◌∷◌,
  ◌++◌, map, length, add_key, ltb, eqb, ◌==◌, if◌then◌else◌,
}
use mdrack.Base.Dict.{Dict, keys, lookup, set_default, get_or}
use mdrack.Base.Int.{ℤ, pos, negsuc, add_ℕ}
use mdrack.Base.Results.{Result, ok, err, ◌>>=◌, ◌>>◌, require, traverse}
use mdrack.Core.Errors.{PyError, overflow_error, zero_division_error}
use mdrack.Base.Order.{sort_by}
use mdrack.Base.Text.{Str, str_eq, str_lt}
use mdrack.Base.Floats.{Floats}

pub record RankedResult (F : Floats) : Type 0 where
  pub chunk_id : Str
  pub combined_score : F.Float
  pub text_rank : Option ℕ
  pub semantic_rank : Option ℕ
  pub rrf_rank : ℕ

-- A loop over a result list: the place of the first occurrence of each id, counted from `start`
unfoldable pub first_places : ℕ → List Str → Dict Str ℕ → Dict Str ℕ
unfolding set_default
first_places start [] places = places
first_places start (id ∷ ids) places = first_places (suc start) ids (set_default id start places)

-- `dict.fromkeys(ids)`
unfoldable pub from_keys : List Str → List Str → List Str
from_keys seen [] = seen
from_keys seen (id ∷ ids) = from_keys (add_key id seen) ids

module _ (F : Floats) where
  -- `1.0 / n`
  unfoldable pub reciprocal : ℤ → Result PyError F.Float
  reciprocal (pos zero) = err zero_division_error
  reciprocal (pos (suc n)) = do
    require (F.fits_float (suc n)) overflow_error
    ok (F.div_int F.one_float (suc n))
  reciprocal (negsuc n) = do
    require (F.fits_float (suc n)) overflow_error
    ok (F.div_negative F.one_float n)

  -- `score += 1.0 / (k + rank)` where there is a rank
  unfoldable pub add_rank : ℤ → Option ℕ → F.Float → Result PyError F.Float
  unfolding reciprocal
  add_rank k none score = ok score
  add_rank k (some rank) score = do part ← reciprocal (add_ℕ k rank); ok (F.add score part)

  unfoldable pub ranked_result : ℤ → Dict Str ℕ → Dict Str ℕ → Str → Result PyError (RankedResult F)
  unfolding add_rank lookup
  ranked_result k text_ranks semantic_ranks id = do
    let text_rank = lookup id text_ranks
    let semantic_rank = lookup id semantic_ranks
    text_score ← add_rank k text_rank F.zero_float
    score ← add_rank k semantic_rank text_score
    ok (record {
      chunk_id = id;
      combined_score = score;
      text_rank = text_rank;
      semantic_rank = semantic_rank;
      rrf_rank = 0;
    })

  -- The order of the sort key `(-score, first_seen, chunk_id)`
  unfoldable pub result_before : Dict Str ℕ → RankedResult F → RankedResult F → Bool
  unfolding get_or str_lt
  result_before first_seen a b =
      F.lt b.combined_score a.combined_score
      || (F.feq a.combined_score b.combined_score
          && (ltb (get_or a.chunk_id 0 first_seen) (get_or b.chunk_id 0 first_seen)
              || (eqb (get_or a.chunk_id 0 first_seen) (get_or b.chunk_id 0 first_seen)
                  && str_lt a.chunk_id b.chunk_id)))

  -- `result.rrf_rank = rank` from `rank` on
  unfoldable pub number_results : ℕ → List (RankedResult F) → List (RankedResult F)
  number_results rank [] = []
  number_results rank (r ∷ results) =
      record r { rrf_rank = rank } ∷ number_results (suc rank) results

  unfoldable pub reciprocal_rank_fusion :
      List Str → List Str → ℤ → Result PyError (List (RankedResult F))
  unfolding first_places from_keys ranked_result result_before sort_by number_results traverse
  reciprocal_rank_fusion text_results semantic_results k = do
    let text_ranks = first_places 1 text_results []
    let semantic_ranks = first_places 1 semantic_results []
    let first_seen =
        first_places (length text_results) semantic_results (first_places 0 text_results [])
    let all_chunk_ids = from_keys [] (keys text_ranks ++ keys semantic_ranks)
    results ← traverse (ranked_result k text_ranks semantic_ranks) all_chunk_ids
    ok (number_results 1 (sort_by (result_before first_seen) results))
