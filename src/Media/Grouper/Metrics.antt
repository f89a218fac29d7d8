-- ===== src/Media/Grouper/Metrics.antt =====
-- `_build_metrics` of packages/mdrack-media/src/mdrack_media/grouper.py, on records and metadata
-- that the constructors returned.
use Prim.Native.Nat.{max}
use mdrack.Base.{
  ℕ, suc, ◌+◌, ◌-◌, Bool, false, List, [], ◌∷◌, ◌++◌, map, length, ltb, add_key, if◌then◌else◌,
  ◌==◌,
}
use mdrack.Base.Results.{Result, ok, err, ◌>>=◌, traverse}
use mdrack.Base.Order.{sort_by}
use mdrack.Base.Text.{Str, codes, str_eq, str_lt}
use mdrack.Base.Floats.{Floats}
use mdrack.Core.Errors.{key_error}
use mdrack.Core.Json.{Json, Fields}
use mdrack.Media.Identifiers.{Codec}
use mdrack.Media.Records.{TimedTextAtom, TimedPassage}
use mdrack.Media.Grouper.{GroupingError}

pub record GroupingMetrics : Type 0 where
  pub source_atom_count : ℕ
  pub passage_count : ℕ
  pub source_atom_reference_count : ℕ
  pub duplicate_source_atom_count : ℕ
  pub input_overlap_count : ℕ
  pub output_overlap_count : ℕ
  pub hard_limit_exceeded_count : ℕ
  pub unsplittable_passage_count : ℕ
  pub token_count_total : ℕ
  pub max_passage_tokens : ℕ
  pub max_passage_duration_ms : ℕ
  pub boundary_reason_counts : List (Str × ℕ)

-- `sum(test(x) for x in l)` of Booleans
unfoldable pub count_if {ℓ} : {A : Type ℓ} → (A → Bool) → List A → ℕ
count_if test [] = 0
count_if test (x ∷ xs) = (if test x then 1 else 0) + count_if test xs

unfoldable pub sum : List ℕ → ℕ
sum [] = 0
sum (n ∷ ns) = n + sum ns

-- `max(l, default=0)`
unfoldable pub greatest : List ℕ → ℕ
greatest [] = 0
greatest (n ∷ ns) = max n (greatest ns)

-- The members of `set(l)`
unfoldable pub members : List Str → List Str
members [] = []
members (x ∷ xs) = add_key x (members xs)

-- One more of `x` in a `Counter`
unfoldable pub count_one : Str → List (Str × ℕ) → List (Str × ℕ)
count_one x [] = (x, 1) ∷ []
count_one x (p ∷ counts) = if p.0 == x then (p.0, suc p.1) ∷ counts else p ∷ count_one x counts

unfoldable pub counter_from : List (Str × ℕ) → List Str → List (Str × ℕ)
unfolding count_one
counter_from counts [] = counts
counter_from counts (x ∷ xs) = counter_from (count_one x counts) xs

-- `GroupingMetrics.__post_init__`: `dict(sorted(counts.items()))`
unfoldable pub make_grouping_metrics : GroupingMetrics → GroupingMetrics
make_grouping_metrics m = record m {
  boundary_reason_counts = sort_by (λ (p q : Str × ℕ). str_lt p.0 q.0) m.boundary_reason_counts;
}

module _ (F : Floats) (c : Codec F) where
  -- `metadata[key]`
  unfoldable pub metadata_at : Str → Fields F → Result GroupingError (Json F)
  metadata_at key Fields.end = err (GroupingError.raised key_error)
  metadata_at key (Fields.field name value rest) =
      let later = metadata_at key rest in if name == key then ok value else later

  -- `str(value)`
  unfoldable pub text_of : Json F → Str
  text_of (Json.str s) = s
  text_of value = c.str_of value

  -- `value is True`
  unfoldable pub is_true : Json F → Bool
  is_true (Json.bool b) = b
  is_true value = false

  -- The loop over the atoms, where `prior` is the latest end so far
  unfoldable pub input_overlaps : ℕ → List (TimedTextAtom F) → ℕ
  input_overlaps prior [] = 0
  input_overlaps prior (a ∷ atoms) =
      (if ltb a.start_ms prior then 1 else 0) + input_overlaps (max prior a.end_ms) atoms

  unfoldable pub output_overlaps : List (TimedPassage F) → ℕ
  output_overlaps [] = 0
  output_overlaps (p ∷ []) = 0
  output_overlaps (p ∷ q ∷ rest) =
      (if ltb q.start_ms p.end_ms then 1 else 0) + output_overlaps (q ∷ rest)

  -- The ids of all passages, one passage after the other
  unfoldable pub references : List (TimedPassage F) → List Str
  references [] = []
  references (p ∷ passages) = p.source_atom_ids ++ references passages

  -- `item.metadata[key]` of every passage
  unfoldable pub all_metadata : Str → List (TimedPassage F) → Result GroupingError (List (Json F))
  unfolding traverse metadata_at
  all_metadata key = traverse (λ (p : TimedPassage F). metadata_at key p.metadata)

  -- `_build_metrics`
  unfoldable pub build_metrics :
      List (TimedTextAtom F) → List (TimedPassage F) → Result GroupingError GroupingMetrics
  unfolding references input_overlaps output_overlaps all_metadata counter_from members count_if
      is_true text_of sum greatest make_grouping_metrics
  build_metrics atoms passages = do
    let refs = references passages
    reasons ← all_metadata (codes "boundary_reason") passages
    exceeded ← all_metadata (codes "hard_limit_exceeded") passages
    unsplittable ← all_metadata (codes "unsplittable") passages
    ok (
        make_grouping_metrics (record {
          source_atom_count = length atoms;
          passage_count = length passages;
          source_atom_reference_count = length refs;
          duplicate_source_atom_count = length refs - length (members refs);
          input_overlap_count = input_overlaps 0 atoms;
          output_overlap_count = output_overlaps passages;
          hard_limit_exceeded_count = count_if is_true exceeded;
          unsplittable_passage_count = count_if is_true unsplittable;
          token_count_total = sum (map (λ (p : TimedPassage F). p.token_count.count) passages);
          max_passage_tokens =
              greatest (map (λ (p : TimedPassage F). p.token_count.count) passages);
          max_passage_duration_ms =
              greatest (map (λ (p : TimedPassage F). p.end_ms - p.start_ms) passages);
          boundary_reason_counts = counter_from [] (map text_of reasons);
        }))
