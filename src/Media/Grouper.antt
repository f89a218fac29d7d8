-- ===== src/Media/Grouper.antt =====
-- packages/mdrack-media/src/mdrack_media/grouper.py: the texts, the score and the choice of a
-- boundary.
pub mod Boundary
pub mod Metrics
pub mod Input
pub mod Outcomes
pub mod Texts
pub mod Candidates
pub mod Select
pub mod Transcripts
pub mod Places
pub mod Rounds
pub mod Find
pub mod Passages
pub mod Cover
pub mod Payload
pub mod Total
pub mod Made
pub mod Grouped
pub mod Run
pub mod Variants
use mdrack.Base.{
  ℕ, zero, suc, ◌+◌, ◌-◌, ◌*◌, ◌/◌, Bool, true, false, not, ◌&&◌, ◌||◌, Option, none, some, List,
  [], ◌∷◌, ◌++◌, contains, leb, ltb, eqb, nat_eq, if◌then◌else◌, get_elem?, take, ◌==◌,
}
use mdrack.Base.Results.{Result, ok, err, ◌>>=◌, ◌>>◌, require}
use mdrack.Base.Text.{Str, codes, is_space, str_eq}
use mdrack.Base.Int.{ℤ, sub_ℕ, ltb_ℤ, eqb_ℤ}
use mdrack.Base.Floats.{Floats}
use mdrack.Core.Errors.{PyError, index_error, assertion_error, value_error}
use mdrack.Media.Policies.{TimedChunkingPolicy}
use mdrack.Media.Records.{TimedTextAtom}

-- `TimedGroupingError(code)`, another exception, and the end of the rounds that the model gives to
-- the loop, which no run reaches.
pub data GroupingError : Type 0 where
  grouping : Str → GroupingError
  raised : PyError → GroupingError
  no_rounds : GroupingError

-- A call of a constructor that raises.
unfoldable pub lift : {A : Type 0} → Result PyError A → Result GroupingError A
lift (ok a) = ok a
lift (err e) = err (GroupingError.raised e)

-- `l[i]`
unfoldable pub at : {A : Type 0} → List A → ℕ → Result GroupingError A
at [] i = err (GroupingError.raised index_error)
at (x ∷ xs) zero = ok x
at (x ∷ xs) (suc i) = at xs i

-- `s[-1]`
unfoldable pub last_char : Str → Result GroupingError ℕ
last_char [] = err (GroupingError.raised index_error)
last_char (c ∷ []) = ok c
last_char (c ∷ d ∷ s) = last_char (d ∷ s)

-- The text with a space before it, unless white space stands on one side
unfoldable pub spaced : Bool → Str → Result GroupingError Str
unfolding at
spaced true text = ok text
spaced false text = do d ← at text 0; ok (if is_space d then text else b' ' ∷ text)

-- What the loop of `_join_atom_texts` appends to `value`
unfoldable pub separated : Str → Str → Result GroupingError Str
unfolding last_char spaced
separated value text = do c ← last_char value; spaced (is_space c) text

-- `s.rstrip()[-1]`, where `found` is the last visible character so far
unfoldable pub last_visible : Str → Option ℕ → Option ℕ
last_visible [] found = found
last_visible (c ∷ s) found = last_visible s (if is_space c then found else some c)

unfoldable pub rstripped_last : Str → Result GroupingError ℕ
unfolding last_visible
rstripped_last s = elim (last_visible s none) [
  | none ↦ err (GroupingError.raised index_error)
  | some c ↦ ok c
]

-- `_SENTENCE_ENDINGS`
abbrev pub sentence_endings : List ℕ
sentence_endings = codes ".!?。！？…"

-- The protocol `TokenCounter`: `none` is a count that is no natural number.
pub record TokenCounter : Type 0 where
  pub count : Str → Option ℕ
  pub fingerprint : Str

unfoldable pub count_tokens : TokenCounter → Str → Result GroupingError ℕ
count_tokens counter text = elim (counter.count text) [
  | none ↦ err (GroupingError.grouping (codes "invalid_token_count"))
  | some n ↦ ok n
]

-- `_distance`
unfoldable pub distance : ℕ → ℕ → ℕ
distance value target = ((value - target) + (target - value)) * 10 / target

-- `_BoundaryCandidate`; `end_index` counts from `start_index`.
pub record BoundaryCandidate : Type 0 where
  pub end_index : ℕ
  pub text : Str
  pub token_count : ℕ
  pub end_ms : ℕ
  pub score : ℤ
  pub token_distance : ℕ
  pub duration_distance : ℕ

-- `_SelectedBoundary`
pub record SelectedBoundary : Type 0 where
  pub candidate : BoundaryCandidate
  pub reason : Str
  pub hard_limit_exceeded : Bool
  pub unsplittable : Bool

-- `a < b` of the keys that `max` compares in `_select_candidate`
unfoldable pub key_lt : BoundaryCandidate → BoundaryCandidate → Bool
key_lt a b =
    ltb_ℤ a.score b.score
    || (eqb_ℤ a.score b.score
        && (ltb b.token_distance a.token_distance
            || (eqb a.token_distance b.token_distance
                && (ltb b.duration_distance a.duration_distance
                    || (eqb a.duration_distance b.duration_distance
                        && ltb b.end_index a.end_index)))))

-- `max(best, *candidates)`: the first of the greatest
unfoldable pub max_from : BoundaryCandidate → List BoundaryCandidate → BoundaryCandidate
unfolding key_lt
max_from best [] = best
max_from best (c ∷ candidates) = max_from (if key_lt best c then c else best) candidates

-- `_select_candidate`; `max` of nothing is a `ValueError`.
unfoldable pub select_candidate :
    List BoundaryCandidate → Str → Result GroupingError SelectedBoundary
unfolding max_from
select_candidate [] reason = err (GroupingError.raised value_error)
select_candidate (c ∷ candidates) reason = ok (record {
  candidate = max_from c candidates;
  reason = reason;
  hard_limit_exceeded = false;
  unsplittable = false;
})

module _ (F : Floats) where
  unfoldable pub join_from : Str → List (TimedTextAtom F) → Result GroupingError Str
  unfolding separated
  join_from value [] = ok value
  join_from value (a ∷ atoms) = do more ← separated value a.text; join_from (value ++ more) atoms

  -- `_join_atom_texts`
  unfoldable pub join_atom_texts : List (TimedTextAtom F) → Result GroupingError Str
  unfolding join_from
  join_atom_texts [] = err (GroupingError.raised assertion_error)
  join_atom_texts (a ∷ atoms) = join_from a.text atoms

  -- Both atoms have a speaker, and not the same.
  unfoldable pub speaker_changes : Option Str → Option Str → Bool
  speaker_changes (some s) (some t) = not (s == t)
  speaker_changes s t = false

  -- What the atom after the boundary adds to the score
  unfoldable pub following_score :
      TimedTextAtom F → Option (TimedTextAtom F) → ℕ → TimedChunkingPolicy → ℕ
  unfolding speaker_changes
  following_score current none end_ms policy = 0
  following_score current (some following) end_ms policy =
      (if speaker_changes current.speaker following.speaker then 45 else 0)
      + (if leb (end_ms + policy.strong_pause_ms) following.start_ms
          then 35
          else if leb (end_ms + policy.medium_pause_ms) following.start_ms
          then 15
          else 0)

  -- `_boundary_score`
  unfoldable pub boundary_score :
      TimedTextAtom F
      → Option (TimedTextAtom F)
      → ℕ
      → ℕ
      → ℕ
      → TimedChunkingPolicy
      → Bool
      → Result GroupingError (ℤ × ℕ × ℕ)
  unfolding following_score rstripped_last distance
  boundary_score current following token_count duration_ms end_ms policy hard_limit_risk = do
    ending ← rstripped_last current.text
    let score =
        (if hard_limit_risk then 100 else 0)
        + following_score current following end_ms policy
        + (if contains ending sentence_endings then 40 else 0)
        + (if contains 10 current.text then 15 else 0)
        + (if leb policy.soft_max_tokens token_count || leb policy.soft_max_duration_ms duration_ms
            then 20
            else 0)
        + (if leb policy.target_tokens token_count then 10 else 0)
        + (if leb policy.target_duration_ms duration_ms then 10 else 0)
    let token_distance = distance token_count policy.target_tokens
    let duration_distance = distance duration_ms policy.target_duration_ms
    ok (sub_ℕ score (token_distance + duration_distance), token_distance, duration_distance)
