-- ===== src/Core/Fusion/Rounds.antt =====
-- The loops of `weighted_rrf` when each divisor fits a `float`; else they raise `OverflowError`.
use mdrack.Base.{
  ℕ, ◌+◌, ◌≡◌, refl, ◌⊎◌, inl, inr, true, false, List, [], ◌∷◌, ◌++◌, contains, Bool-cases,
}
use mdrack.Base.Results.{Result, ok, err}
use mdrack.Base.Text.{Str, str_eq}
use mdrack.Base.Floats.{Floats}
use mdrack.Core.Errors.{PyError, overflow_error}
use mdrack.Core.Fusion.{
  FusionCandidate, FusionBranch, Tally, divide, record_candidate, tally_candidate, tally_candidates,
  tally_branches,
}

module _ (F : Floats) where
  -- One round whose divisor fits
  unfoldable pub tallied_candidate : F.Float → ℕ → ℕ → FusionCandidate F → Tally F → Tally F
  unfolding record_candidate
  tallied_candidate w k r c t = record_candidate F (F.div_int w (k + r)) c t

  -- The inner loop, each of whose divisors fits
  unfoldable pub tallied_candidates :
      F.Float → ℕ → List (FusionCandidate F) → List Str → ℕ → Tally F → Tally F
  unfolding tallied_candidate
  tallied_candidates w k [] seen r t = t
  tallied_candidates w k (c ∷ cs) seen r t = elim (contains c.logical_id seen) [
    | true ↦ tallied_candidates w k cs seen r t
    | false ↦
        tallied_candidates w k cs (seen ++ (c.logical_id ∷ [])) (r + 1)
          (tallied_candidate w k (r + 1) c t)
  ]

  -- The loop over the branches, each of whose divisors fits
  unfoldable pub tallied_branches : ℕ → List (FusionBranch F) → Tally F → Tally F
  unfolding tallied_candidates
  tallied_branches k [] t = t
  tallied_branches k (b ∷ bs) t =
      tallied_branches k bs (tallied_candidates b.weight k b.candidates [] 0 t)

  -- A step that leaves the tally `t`, or raises `OverflowError`
  abbrev Leaves : Tally F → Result PyError (Tally F) → Type 0
  Leaves t run = (run ≡ ok t) ⊎ (run ≡ err overflow_error)

  tally_candidate-Leaves :
      (w : F.Float) (k r : ℕ) (c : FusionCandidate F) (t : Tally F)
      → Leaves (tallied_candidate w k r c t) (tally_candidate F w k r c t)
  unfolding tally_candidate tallied_candidate divide
  tally_candidate-Leaves w k r c t = elim (Bool-cases (F.fits_float (k + r))) [
    | inl e ↦ inl (rw (e, tally_candidate, divide) refl)
    | inr e ↦ inr (rw (e, tally_candidate, divide) refl)
  ]

  tally_candidates-Leaves :
      (w : F.Float) (k : ℕ) (cs : List (FusionCandidate F)) (seen : List Str) (r : ℕ) (t : Tally F)
      → Leaves (tallied_candidates w k cs seen r t) (tally_candidates F w k cs seen r t)
  unfolding tally_candidates tallied_candidates
  tally_candidates-Leaves w k [] seen r t = inl refl
  tally_candidates-Leaves w k (c ∷ cs) seen r t = elim (Bool-cases (contains c.logical_id seen)) [
    | inl e ↦ rw (e, tally_candidates, tallied_candidates) (tally_candidates-Leaves w k cs seen r t)
    | inr e ↦ elim (tally_candidate-Leaves w k (r + 1) c t) [
      | inl q ↦
          rw (e, tally_candidates, tallied_candidates)
            (rw q (
              tally_candidates-Leaves w k cs (seen ++ (c.logical_id ∷ [])) (r + 1)
                (tallied_candidate w k (r + 1) c t)))
      | inr q ↦ rw (e, tally_candidates, tallied_candidates) (inr (rw q refl))
    ]
  ]

  pub tally_branches-Leaves :
      (k : ℕ) (bs : List (FusionBranch F)) (t : Tally F)
      → Leaves (tallied_branches k bs t) (tally_branches F k bs t)
  unfolding tally_branches tallied_branches
  tally_branches-Leaves k [] t = inl refl
  tally_branches-Leaves k (b ∷ bs) t =
      elim (tally_candidates-Leaves b.weight k b.candidates [] 0 t) [
        | inl q ↦
            rw (q, tally_branches)
              (tally_branches-Leaves k bs (tallied_candidates b.weight k b.candidates [] 0 t))
        | inr q ↦ inr (rw (q, tally_branches) refl)
      ]
