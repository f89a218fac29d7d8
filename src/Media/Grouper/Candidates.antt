-- ===== src/Media/Grouper/Candidates.antt =====
-- The candidates of `_find_boundary` stand for the atoms that they take, and `_select_candidate`
-- returns one of them.
use mdrack.Base.{
  ℕ, zero, suc, ◌-◌, ◌<◌, ◌≤◌, ◌≡◌, refl, subst, Bool, Option, some, List, [], ◌∷◌, map, All,
  All-take, inl, inr, length, get_elem?, take, Bool-cases, arith,
}
use mdrack.Base.Results.{ok}
use mdrack.Base.Floats.{Floats}
use mdrack.Media.Policies.{TimedChunkingPolicy}
use mdrack.Media.Records.{TimedTextAtom}
use mdrack.Media.Grouper.{
  at, TokenCounter, count_tokens, BoundaryCandidate, key_lt, max_from, join_atom_texts,
  boundary_score, rstripped_last,
}
use mdrack.Media.Grouper.Boundary.{candidate}
use mdrack.Media.Grouper.Metrics.{greatest}
use mdrack.Media.Grouper.Outcomes.{
  Ensures, returns, bind-Ensures, eq-Ensures, at-Ensures, count_tokens-Ensures,
}
use mdrack.Media.Grouper.Texts.{IsText, IsSpan, rstripped_last-Ensures, join_atom_texts-Ensures}

pub get_elem?-All :
    {A : Type 0} (P : A → Type 0) (xs : List A) (i : ℕ) {x : A}
    → All P xs
    → get_elem? xs i ≡ some x
    → P x
get_elem?-All P [] i h e = absurd (cc)
get_elem?-All P (y ∷ xs) zero h e = subst P (cc) h.0
get_elem?-All P (y ∷ xs) (suc i) h e = get_elem?-All P xs i h.1 e

pub max_from-All :
    (P : BoundaryCandidate → Type 0) (best : BoundaryCandidate) (cs : List BoundaryCandidate)
    → P best
    → All P cs
    → P (max_from best cs)
unfolding max_from
max_from-All P best [] p h = p
max_from-All P best (c ∷ cs) p h = elim (Bool-cases (key_lt best c)) [
  | inl e ↦ rw e (max_from-All P c cs h.0 h.1)
  | inr e ↦ rw e (max_from-All P best cs p h.1)
]

module _ (F : Floats) where
  -- The latest end of the atoms
  unfoldable pub latest : List (TimedTextAtom F) → ℕ
  unfolding greatest
  latest atoms = greatest (map (λ (a : TimedTextAtom F). a.end_ms) atoms)

  -- The candidate is the passage of the first `end_index + 1` atoms.
  pub record IsPart (counter : TokenCounter) (atoms : List (TimedTextAtom F))
      (c : BoundaryCandidate) : Type 0 where
    pub within : c.end_index < length atoms
    pub ends : c.end_ms ≡ latest (take (suc c.end_index) atoms)
    pub joined : join_atom_texts F (take (suc c.end_index) atoms) ≡ ok c.text
    pub counted : counter.count c.text ≡ some c.token_count
    pub readable : IsText c.text

-- The candidate keeps within the hard limits of the policy.
pub record IsLimited (policy : TimedChunkingPolicy) (start_ms : ℕ) (c : BoundaryCandidate)
    : Type 0 where
  pub tokens : c.token_count ≤ policy.hard_max_tokens
  pub duration : c.end_ms - start_ms ≤ policy.hard_max_duration_ms

module _ (F : Floats) (policy : TimedChunkingPolicy) (counter : TokenCounter) where
  boundary_score-Ensures :
      (current : TimedTextAtom F) (following : Option (TimedTextAtom F))
      (token_count duration_ms end_ms : ℕ) (risk : Bool)
      → IsSpan F current
      → Ensures
          (λ _. Unit {0})
          (boundary_score F current following token_count duration_ms end_ms policy risk)
  unfolding boundary_score
  boundary_score-Ensures current following token_count duration_ms end_ms risk h =
      bind-Ensures _ _ (rstripped_last current.text) _
        (rstripped_last-Ensures current.text h.readable.0) (λ _ _. returns _ tt)

  -- A candidate for the first `suc i` atoms
  pub candidate-Ensures :
      (atoms : List (TimedTextAtom F)) (i end_ms : ℕ) (risk : Bool)
      → All (IsSpan F) atoms
      → i < length atoms
      → end_ms ≡ latest F (take (suc i) atoms)
      → Ensures
          (λ c. IsPart F counter atoms c × (c.end_index ≡ i) × (c.end_ms ≡ end_ms))
          (candidate F policy counter atoms i end_ms risk)
  unfolding candidate at
  candidate-Ensures [] i end_ms risk h below latest_end = absurd (omega arith)
  candidate-Ensures (a ∷ atoms) i end_ms risk h below latest_end =
      bind-Ensures _ _ (join_atom_texts F (a ∷ take i atoms)) _
        (eq-Ensures _ _
          (join_atom_texts-Ensures F a (take i atoms) (h.0, All-take (IsSpan F) i atoms h.1)))
        (λ text p.
          bind-Ensures _ _ (count_tokens counter text) _ (count_tokens-Ensures counter text)
            (λ n counted.
              bind-Ensures _ _ (at (a ∷ atoms) i) _ (at-Ensures (a ∷ atoms) i below) (λ current e.
                bind-Ensures _ _ (boundary_score F current _ n _ end_ms policy risk) _
                  (boundary_score-Ensures current _ n _ end_ms risk
                    (get_elem?-All (IsSpan F) (a ∷ atoms) i h e))
                  (λ scores _. returns _ (
                    record {
                      within = below;
                      ends = latest_end;
                      joined = p.0;
                      counted = counted;
                      readable = p.1;
                    },
                    refl,
                    refl,
                  )))))
