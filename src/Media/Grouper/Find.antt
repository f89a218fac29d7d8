-- ===== src/Media/Grouper/Find.antt =====
-- `_find_boundary` returns a boundary or raises a `TimedGroupingError`.
use Prim.Native.Nat.{max}
use mdrack.Base.{
  ℕ, zero, suc, ◌<◌, ◌≡◌, refl, ap, Bool, false, some, List, [], ◌∷◌, All, length, length-drop,
  get_elem?, take, drop, arith,
}
use mdrack.Base.Results.{ok}
use mdrack.Base.Text.{Str}
use mdrack.Base.Floats.{Floats}
use mdrack.Media.Policies.{TimedChunkingPolicy}
use mdrack.Media.Records.{TimedTextAtom}
use mdrack.Media.Grouper.{at, TokenCounter, BoundaryCandidate, SelectedBoundary}
use mdrack.Media.Grouper.Boundary.{found, onward, boundary_round, find_from, find_boundary}
use mdrack.Media.Grouper.Metrics.{greatest}
use mdrack.Media.Grouper.Outcomes.{Ensures, returns, bind-Ensures}
use mdrack.Media.Grouper.Texts.{IsSpan}
use mdrack.Media.Grouper.Candidates.{latest}
use mdrack.Media.Grouper.Rounds.{AfterRound, IsKept, IsBoundary, boundary_round-Ensures}

pub drop-cons :
    {A : Type 0} (i : ℕ) (xs : List A) {x : A} {rest : List A}
    → drop i xs ≡ x ∷ rest
    → (get_elem? xs i ≡ some x) × (drop (suc i) xs ≡ rest) × (i < length xs)
drop-cons zero [] e = absurd (cc)
drop-cons zero (y ∷ xs) e = (cc, cc, omega arith)
drop-cons (suc i) [] e = absurd (cc)
drop-cons (suc i) (y ∷ xs) e = let (p, q, r) = drop-cons i xs e in (p, q, omega arith)

module _ (F : Floats) where
  latest-take-suc :
      (i : ℕ) (xs : List (TimedTextAtom F)) {x : TimedTextAtom F}
      → get_elem? xs i ≡ some x
      → max (latest F (take i xs)) x.end_ms ≡ latest F (take (suc i) xs)
  unfolding latest greatest
  latest-take-suc i [] e = absurd (cc)
  latest-take-suc zero (y ∷ xs) {x} e = let h : y ≡ x = cc in rw h (omega arith)
  latest-take-suc (suc i) (y ∷ xs) e = omega (arith, latest-take-suc i xs e)

module _ (F : Floats) (policy : TimedChunkingPolicy) (counter : TokenCounter) (unsplittable : Str)
    (first : TimedTextAtom F) (others : List (TimedTextAtom F)) where
  abbrev Found : SelectedBoundary → Type 0
  Found = IsBoundary F policy counter unsplittable first others

  find_from-Ensures :
      (rest : List (TimedTextAtom F)) (i end_ms : ℕ) (cs : List BoundaryCandidate) (exceeded : Bool)
      → All (IsSpan F) (first ∷ others)
      → drop i (first ∷ others) ≡ rest
      → i < length (first ∷ others)
      → ((x : TimedTextAtom F)
          → get_elem? (first ∷ others) i ≡ some x
          → max end_ms x.end_ms ≡ latest F (take (suc i) (first ∷ others)))
      → All (IsKept F policy counter unsplittable first others) cs
      → Ensures Found
          (find_from F policy counter unsplittable (first ∷ others) rest i end_ms cs exceeded)
  unfolding find_from
  find_from-Ensures [] i end_ms cs exceeded h place below ends all =
      absurd (omega (arith, length-drop i (first ∷ others), ap length place))
  find_from-Ensures (a ∷ rest) i end_ms cs exceeded h place below ends all =
      let (p, q, r) = drop-cons i (first ∷ others) place in
      bind-Ensures _ _
        (boundary_round F policy counter unsplittable (first ∷ others) i (max end_ms a.end_ms) cs
          exceeded)
        _
        (boundary_round-Ensures F policy counter unsplittable first others i (max end_ms a.end_ms)
          cs exceeded h below (ends a p) all)
        (λ r'.
          elim r'
            as (λ r'.
              AfterRound F policy counter unsplittable first others i r'
              → Ensures Found (elim r' [
                | found s ↦ ok s
                | onward kept more ↦
                    find_from F policy counter unsplittable (first ∷ others) rest (suc i)
                      (max end_ms a.end_ms) kept more
              ])) [
                | found s ↦ λ k. returns s k
                | onward kept more ↦ λ k.
                    find_from-Ensures rest (suc i) (max end_ms a.end_ms) kept more h q k.1
                      (λ x e. rw (ends a p) (latest-take-suc F (suc i) (first ∷ others) e)) k.0
              ])

  -- The boundary of the next passage
  pub find_boundary-Ensures :
      All (IsSpan F) (first ∷ others)
      → Ensures Found (find_boundary F policy counter unsplittable (first ∷ others))
  unfolding find_boundary at latest greatest
  find_boundary-Ensures h =
      find_from-Ensures (first ∷ others) 0 first.end_ms [] false h refl (omega arith)
        (λ x e. let h : first ≡ x = cc in rw (← h) (omega arith)) tt
