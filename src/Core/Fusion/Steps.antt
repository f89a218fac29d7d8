-- ===== src/Core/Fusion/Steps.antt =====
-- One round of the inner loop of `weighted_rrf`, for an id that is or is not new in its branch.
use mdrack.Base.{ℕ, ◌+◌, ◌≡◌, true, false, List, [], ◌∷◌, ◌++◌, contains}
use mdrack.Base.Text.{Str, str_eq}
use mdrack.Base.Floats.{Floats}
use mdrack.Core.Fusion.{FusionCandidate, Tally}
use mdrack.Core.Fusion.Rounds.{tallied_candidate, tallied_candidates}

module _ (F : Floats) (w : F.Float) (k : ℕ) (c : FusionCandidate F) (cs : List (FusionCandidate F))
    (seen : List Str) (r : ℕ) (t : Tally F) where
  pub tallied_candidates_old :
      contains c.logical_id seen ≡ true
      → tallied_candidates F w k (c ∷ cs) seen r t ≡ tallied_candidates F w k cs seen r t
  unfolding tallied_candidates
  tallied_candidates_old h = rw (h, tallied_candidates)

  pub tallied_candidates_new :
      contains c.logical_id seen ≡ false
      → tallied_candidates F w k (c ∷ cs) seen r t
        ≡ tallied_candidates F w k cs
            (seen ++ (c.logical_id ∷ []))
            (r + 1)
            (tallied_candidate F w k (r + 1) c t)
  unfolding tallied_candidates
  tallied_candidates_new h = rw (h, tallied_candidates)
