-- ===== src/Core/Fusion/Ranking.antt =====
-- The order of the result of `weighted_rrf`.
use mdrack.Base.{
  ℕ, some, ◌∙◌, ◌⊎◌, ◌<◌, ◌≤◌, ◌+◌, ◌≡◌, sym, subst, true, false, List, [], ◌∷◌, All, arith,
  Bool-cases, inl, inr, contains, ◌==◌,
}
use mdrack.Base.Results.{ok, All-Each}
use mdrack.Base.Order.{Sorted, IsOrderOn, sort_by, sort_by-All, sort_by-Sorted}
use mdrack.Base.Places.{place_of, or_else}
use mdrack.Base.Dict.{Dict, lookup, get_or, insert}
use mdrack.Base.Text.{Str, str_eq, str_lt, str_lt_asymm, str_lt_chain}
use mdrack.Base.Floats.{Floats, Nonneg, IsIeee}
use mdrack.Core.Fusion.{
  record_candidate, FusionCandidate, FusionBranch, FusedCandidate, Tally, empty_tally, weighted_rrf,
  fused_before,
}
use mdrack.Core.Fusion.Rounds.{tallied_candidate, tallied_candidates, tallied_branches}
use mdrack.Core.Fusion.FirstSeen.{counted_ids, tallied_branches-first_seen}
use mdrack.Core.Fusion.Steps.{tallied_candidates_old, tallied_candidates_new}
use mdrack.Core.Fusion.Ids.{IsFused, weighted_rrf-Each}

module _ (F : Floats) (I : IsIeee F) where
  abbrev HasScore : FusedCandidate F → Type 0
  HasScore f = Nonneg F f.score

  fused_before_asymm :
      (a b : FusedCandidate F)
      → HasScore a
      → HasScore b
      → fused_before F a b ≡ true
      → fused_before F b a ≡ false
  unfolding fused_before
  fused_before_asymm a b ha hb h = ground (
    arith,
    I.feq_iff a.score b.score ha hb,
    I.feq_iff b.score a.score hb ha,
    I.lt_asymm a.score b.score,
    I.lt_asymm b.score a.score,
    str_lt_asymm a.logical_id b.logical_id,
  )

  fused_before_chain :
      (x y z : FusedCandidate F)
      → HasScore x
      → HasScore y
      → HasScore z
      → fused_before F y x ≡ false
      → fused_before F z y ≡ false
      → fused_before F z x ≡ false
  unfolding fused_before
  fused_before_chain x y z hx hy hz h k = ground (
    arith,
    I.feq_iff y.score x.score hy hx,
    I.feq_iff z.score y.score hz hy,
    I.feq_iff z.score x.score hz hx,
    I.lt_chain x.score y.score z.score hx hy hz,
    I.lt_chain z.score y.score x.score hz hy hx,
    I.lt_chain z.score x.score y.score hz hx hy,
    I.lt_chain y.score x.score z.score hy hx hz,
    I.lt_chain y.score z.score x.score hy hz hx,
    I.lt_chain x.score z.score y.score hx hz hy,
    str_lt_chain x.logical_id y.logical_id z.logical_id,
  )

  fused_order : IsOrderOn (fused_before F) HasScore
  fused_order = record { asymm = fused_before_asymm; chain = fused_before_chain }

  -- The scores so far are sums of terms that are not negative.
  abbrev ScoresNonneg : Dict Str F.Float → Type 0
  ScoresNonneg d = All (λ p. Nonneg F p.1) d

  ScoresNonneg-insert :
      (k : Str) (v : F.Float) (d : Dict Str F.Float)
      → Nonneg F v
      → ScoresNonneg d
      → ScoresNonneg (insert k v d)
  unfolding insert
  ScoresNonneg-insert k v [] p h = (p, tt)
  ScoresNonneg-insert k v ((j, w) ∷ d) p h = elim (Bool-cases (j == k)) [
    | inl q ↦ rw q (p, h.1)
    | inr q ↦ rw q (h.0, ScoresNonneg-insert k v d p h.1)
  ]

  ScoresNonneg-get_or :
      (k : Str) (d : Dict Str F.Float) → ScoresNonneg d → Nonneg F (get_or k F.zero_float d)
  unfolding get_or lookup
  ScoresNonneg-get_or k [] h = I.zero_nonneg
  ScoresNonneg-get_or k ((j, w) ∷ d) h = elim (Bool-cases (j == k)) [
    | inl q ↦ rw (q, get_or, lookup) h.0
    | inr q ↦ rw (q, get_or, lookup) (ScoresNonneg-get_or k d h.1)
  ]

  tallied_candidate-Nonneg :
      (w : F.Float) (k r : ℕ) (c : FusionCandidate F) (t : Tally F)
      → 1 ≤ r
      → Nonneg F w
      → ScoresNonneg t.scores
      → ScoresNonneg (tallied_candidate F w k r c t).scores
  unfolding tallied_candidate record_candidate
  tallied_candidate-Nonneg w k r c t positive hw h =
      ScoresNonneg-insert c.logical_id _ t.scores
        (I.add_nonneg _ _ (ScoresNonneg-get_or c.logical_id t.scores h)
          (I.div_nonneg w (k + r) (omega arith) hw))
        h

  tallied_candidates-Nonneg :
      (w : F.Float) (k : ℕ) (cs : List (FusionCandidate F)) (seen : List Str) (r : ℕ) (t : Tally F)
      → Nonneg F w
      → ScoresNonneg t.scores
      → ScoresNonneg (tallied_candidates F w k cs seen r t).scores
  unfolding tallied_candidates
  tallied_candidates-Nonneg w k [] seen r t hw h = h
  tallied_candidates-Nonneg w k (c ∷ cs) seen r t hw h =
      elim (Bool-cases (contains c.logical_id seen)) [
        | inl old ↦
            rw (tallied_candidates_old F w k c cs seen r t old)
              (tallied_candidates-Nonneg w k cs seen r t hw h)
        | inr new ↦ rw (tallied_candidates_new F w k c cs seen r t new) (
            tallied_candidates-Nonneg w k cs _ _ (tallied_candidate F w k (r + 1) c t) hw
              (tallied_candidate-Nonneg w k (r + 1) c t (omega arith) hw h))
      ]

  -- What `FusionBranch.__post_init__` has checked of a weight.
  abbrev pub HasWeight : FusionBranch F → Type 0
  HasWeight b = (F.is_finite b.weight ≡ true) × (F.lt F.zero_float b.weight ≡ true)

  tallied_branches-Nonneg :
      (k : ℕ) (bs : List (FusionBranch F)) (t : Tally F)
      → All HasWeight bs
      → ScoresNonneg t.scores
      → ScoresNonneg (tallied_branches F k bs t).scores
  unfolding tallied_branches
  tallied_branches-Nonneg k [] t hw h = h
  tallied_branches-Nonneg k (b ∷ bs) t hw h =
      tallied_branches-Nonneg k bs (tallied_candidates F b.weight k b.candidates [] 0 t) hw.1 (
        tallied_candidates-Nonneg b.weight k b.candidates [] 0 t
          (I.finite_not_nan b.weight hw.0.0, I.lt_asymm F.zero_float b.weight hw.0.1) h)

  -- `a` stands before `b`: by a greater score, else by an earlier first sight, else by its id.
  abbrev pub Precedes : FusedCandidate F → FusedCandidate F → Type 0
  Precedes a b =
      (F.lt b.score a.score ≡ true)
      ⊎ ((F.feq a.score b.score ≡ true)
          × ((a.first_seen < b.first_seen)
              ⊎ ((a.first_seen ≡ b.first_seen) × (str_lt b.logical_id a.logical_id ≡ false))))

  abbrev pub Ordered : List (FusedCandidate F) → Type 0
  Ordered [] = Unit
  Ordered (a ∷ fs) = All (Precedes a) fs × Ordered fs

  before-Precedes :
      (a b : FusedCandidate F) → HasScore a → HasScore b → fused_before F b a ≡ false → Precedes a b
  unfolding fused_before
  before-Precedes a b ha hb h =
      ground (arith, I.feq_iff a.score b.score ha hb, I.feq_iff b.score a.score hb ha)

  All-Precedes :
      (a : FusedCandidate F) (fs : List (FusedCandidate F))
      → HasScore a
      → All HasScore fs
      → All (λ b. fused_before F b a ≡ false) fs
      → All (Precedes a) fs
  All-Precedes a [] ha hs h = tt
  All-Precedes a (b ∷ fs) ha hs h = (before-Precedes a b ha hs.0 h.0, All-Precedes a fs ha hs.1 h.1)

  Sorted-Ordered :
      (fs : List (FusedCandidate F)) → All HasScore fs → Sorted (fused_before F) fs → Ordered fs
  Sorted-Ordered [] hs s = tt
  Sorted-Ordered (a ∷ fs) hs s = (All-Precedes a fs hs.0 hs.1 s.0, Sorted-Ordered fs hs.1 s.1)

  -- The place at which the loops count the id first, among the distinct ids of each branch
  abbrev pub IsSeenAt : List (FusionBranch F) → FusedCandidate F → Type 0
  IsSeenAt bs f = place_of 0 (counted_ids F bs) f.logical_id ≡ some f.first_seen

  -- With floats that follow IEEE 754 and finite positive weights, every earlier member of a
  -- returned result has a greater score than a later one, or the same score and an earlier first
  -- sight, or the same of both and no greater id; and the first sight of each is the place of its
  -- id in the distinct ids of the branches, one branch after the other.
  pub weighted_rrf-Sorted :
      (bs : List (FusionBranch F)) (k n : ℕ) {out : List (FusedCandidate F)}
      → All HasWeight bs
      → weighted_rrf F bs k n ≡ ok out
      → Ordered out × All (IsSeenAt bs) out
  unfolding lookup or_else
  weighted_rrf-Sorted bs k n hw h =
      let t = tallied_branches F k bs (empty_tally F) in
      let (fused, p, each) = weighted_rrf-Each F bs k n h in
      let nonneg = tallied_branches-Nonneg k bs (empty_tally F) hw tt in
      let scored =
        All-Each (λ s. Nonneg F s.1) HasScore (IsFused F n t) t.scores fused
          (λ s f ok_score is. rw is.score ok_score) nonneg each in
      let seen =
        All-Each (λ s. Nonneg F s.1) (IsSeenAt bs) (IsFused F n t) t.scores fused
          (λ s f ok_score is.
            rw is.logical_id
              (sym (tallied_branches-first_seen F k bs (empty_tally F) s.0) ∙ is.first_seen))
          nonneg each in
      subst (λ l. Ordered l × All (IsSeenAt bs) l) (sym p)
        (
          Sorted-Ordered (sort_by (fused_before F) fused)
              (sort_by-All (fused_before F) HasScore fused scored)
              (sort_by-Sorted (fused_before F) fused_order fused scored),
          sort_by-All (fused_before F) (IsSeenAt bs) fused seen,
        )
