-- ===== src/Media/Grouper/Boundary.antt =====
-- `_candidate`, `_next_would_exceed_hard_limit` and `_find_boundary` of
-- packages/mdrack-media/src/mdrack_media/grouper.py. `atoms` is the slice `atoms[start_index:]`, and
-- an index counts from its start. An atom ends after it starts, so no duration is below zero.
use Prim.Native.Nat.{max}
use mdrack.Base.{
  ℕ, suc, ◌-◌, Bool, true, false, not, ◌&&◌, ◌||◌, Option, none, some, List, [], ◌∷◌, ◌++◌, leb,
  ltb, if◌then◌else◌, get_elem?, take, ◌==◌,
}
use mdrack.Base.Results.{Result, ok, err, ◌>>=◌}
use mdrack.Base.Text.{Str, codes, str_eq}
use mdrack.Base.Floats.{Floats}
use mdrack.Core.Errors.{assertion_error}
use mdrack.Media.Policies.{TimedChunkingPolicy}
use mdrack.Media.Records.{TimedTextAtom}
use mdrack.Media.Grouper.{
  GroupingError, at, TokenCounter, count_tokens, BoundaryCandidate, SelectedBoundary,
  select_candidate, join_atom_texts, boundary_score,
}

abbrev pub unsplittable_reject : Str
unsplittable_reject = codes "reject"

abbrev pub unsplittable_flag : Str
unsplittable_flag = codes "flag"

abbrev pub unsplittable_policies : List Str
unsplittable_policies = unsplittable_reject ∷ unsplittable_flag ∷ []

-- The last of a list, and what stands before it
unfoldable pub split_last : {A : Type 0} → List A → Option (List A × A)
split_last [] = none
split_last (x ∷ xs) = elim (split_last xs) [ none ↦ some ([], x) | some (ys, y) ↦ some (x ∷ ys, y) ]

-- How one round of the loop ends: with a `return`, or with its `candidates` and
-- `hard_exceeded_without_safe_boundary` for the next.
pub data Round : Type 0 where
  found : SelectedBoundary → Round
  onward : List BoundaryCandidate → Bool → Round

unfoldable pub select_found : List BoundaryCandidate → Str → Result GroupingError Round
unfolding select_candidate
select_found candidates reason = do s ← select_candidate candidates reason; ok (found s)

-- `value is None`
unfoldable pub is_none : {A : Type 0} → Option A → Bool
is_none none = true
is_none (some a) = false

module _ (F : Floats) where
  -- `next_atom is None or next_atom.start_ms >= end_ms`
  unfoldable pub safe_boundary : Option (TimedTextAtom F) → ℕ → Bool
  safe_boundary none end_ms = true
  safe_boundary (some next) end_ms = leb end_ms next.start_ms

module _ (F : Floats) (policy : TimedChunkingPolicy) (counter : TokenCounter) where
  -- `_candidate`
  unfoldable pub candidate :
      List (TimedTextAtom F) → ℕ → ℕ → Bool → Result GroupingError BoundaryCandidate
  unfolding join_atom_texts count_tokens at boundary_score
  candidate atoms end_index end_ms hard_limit_risk = do
    text ← join_atom_texts F (take (suc end_index) atoms)
    token_count ← count_tokens counter text
    first ← at atoms 0
    let duration_ms = end_ms - first.start_ms
    current ← at atoms end_index
    scores ←
        boundary_score F current (get_elem? atoms (suc end_index)) token_count duration_ms end_ms
          policy hard_limit_risk
    ok (record {
      end_index = end_index;
      text = text;
      token_count = token_count;
      end_ms = end_ms;
      score = scores.0;
      token_distance = scores.1;
      duration_distance = scores.2;
    })

  -- `_next_would_exceed_hard_limit`
  unfoldable pub next_would_exceed_hard_limit :
      List (TimedTextAtom F) → ℕ → ℕ → Result GroupingError Bool
  unfolding join_atom_texts count_tokens at
  next_would_exceed_hard_limit atoms end_index end_ms = elim (get_elem? atoms (suc end_index)) [
    | none ↦ ok false
    | some next ↦ do
      text ← join_atom_texts F (take (suc (suc end_index)) atoms)
      token_count ← count_tokens counter text
      first ← at atoms 0
      ok (
          ltb policy.hard_max_tokens token_count
          || ltb policy.hard_max_duration_ms (max end_ms next.end_ms - first.start_ms))
  ]

  -- `current` if it is kept among the candidates, scored again with the risk
  unfoldable pub keep_candidate :
      List (TimedTextAtom F)
      → ℕ
      → ℕ
      → Bool
      → List BoundaryCandidate
      → Bool
      → Result GroupingError (List BoundaryCandidate)
  unfolding candidate
  keep_candidate atoms end_index end_ms hard_risk candidates kept = elim kept [
    | false ↦ ok candidates
    | true ↦ do c ← candidate atoms end_index end_ms hard_risk; ok (candidates ++ (c ∷ []))
  ]

  -- The part of the loop's body for a safe boundary within the hard limits
  unfoldable pub within_limits :
      List (TimedTextAtom F)
      → ℕ
      → ℕ
      → ℕ
      → ℕ
      → List BoundaryCandidate
      → Bool
      → Result GroupingError Round
  unfolding next_would_exceed_hard_limit keep_candidate select_found is_none
  within_limits atoms end_index end_ms token_count duration_ms candidates exceeded = do
    let eligible =
        leb policy.soft_min_tokens token_count && leb policy.soft_min_duration_ms duration_ms
    hard_risk ← next_would_exceed_hard_limit atoms end_index end_ms
    let soft_max_reached =
        leb policy.soft_max_tokens token_count || leb policy.soft_max_duration_ms duration_ms
    let at_end = is_none (get_elem? atoms (suc end_index))
    kept ←
        keep_candidate atoms end_index end_ms hard_risk candidates
          (eligible || hard_risk || soft_max_reached || at_end)
    if hard_risk
        then select_found kept (codes "hard_limit")
        else if soft_max_reached
        then select_found kept (codes "soft_max")
        else if at_end
        then select_found kept (codes "end_of_input")
        else ok (onward kept exceeded)

module _ (F : Floats) (policy : TimedChunkingPolicy) (counter : TokenCounter) (unsplittable : Str)
    (atoms : List (TimedTextAtom F)) where
  -- `beyond_limits`, with the last candidate and those before it
  unfoldable pub beyond_with :
      BoundaryCandidate
      → Bool
      → List BoundaryCandidate
      → Option (List BoundaryCandidate × BoundaryCandidate)
      → Result GroupingError Round
  unfolding candidate select_found
  beyond_with current safe candidates (some (earlier, last)) = do
    boosted ← candidate F policy counter atoms last.end_index last.end_ms true
    select_found (earlier ++ (boosted ∷ [])) (codes "hard_limit")
  beyond_with current false candidates none = ok (onward candidates true)
  beyond_with current true candidates none =
      if unsplittable == unsplittable_reject
      then err (GroupingError.grouping (codes "unsplittable_hard_limit"))
      else ok (
          found (record {
            candidate = current;
            reason = codes "unsplittable";
            hard_limit_exceeded = true;
            unsplittable = true;
          }))

  -- The part of the loop's body for `current` beyond a hard limit
  unfoldable pub beyond_limits :
      BoundaryCandidate → Bool → List BoundaryCandidate → Result GroupingError Round
  unfolding beyond_with split_last
  beyond_limits current safe candidates =
      beyond_with current safe candidates (split_last candidates)

  -- The body of the loop of `_find_boundary`
  unfoldable pub boundary_round : ℕ → ℕ → List BoundaryCandidate → Bool → Result GroupingError Round
  unfolding candidate at safe_boundary beyond_limits within_limits
  boundary_round end_index end_ms candidates exceeded = do
    current ← candidate F policy counter atoms end_index end_ms false
    first ← at atoms 0
    let duration_ms = end_ms - first.start_ms
    let hard_exceeded =
        ltb policy.hard_max_tokens current.token_count
        || ltb policy.hard_max_duration_ms duration_ms
    let safe = safe_boundary F (get_elem? atoms (suc end_index)) end_ms
    if hard_exceeded
        then beyond_limits current safe candidates
        else if not safe
        then ok (onward candidates exceeded)
        else within_limits F policy counter atoms end_index end_ms current.token_count duration_ms
            candidates exceeded

  -- The loop of `_find_boundary`, where `rest` is `atoms[end_index:]`. Both ways to leave it
  -- without a `return` are an `AssertionError`.
  unfoldable pub find_from :
      List (TimedTextAtom F)
      → ℕ
      → ℕ
      → List BoundaryCandidate
      → Bool
      → Result GroupingError SelectedBoundary
  unfolding boundary_round
  find_from [] end_index end_ms candidates exceeded = err (GroupingError.raised assertion_error)
  find_from (a ∷ rest) end_index end_ms candidates exceeded = do
    r ← boundary_round end_index (max end_ms a.end_ms) candidates exceeded
    elim r [
      | found s ↦ ok s
      | onward kept more ↦ find_from rest (suc end_index) (max end_ms a.end_ms) kept more
    ]

  -- `_find_boundary`
  unfoldable pub find_boundary : Result GroupingError SelectedBoundary
  unfolding find_from at
  find_boundary = do first ← at atoms 0; find_from atoms 0 first.end_ms [] false
