-- ===== src/Core/Fusion/Scores.antt =====
-- The scores of `weighted_rrf`, against the formula: for each branch that holds an id, its weight
-- divided by `rrf_k` plus the id's rank among the branch's distinct ids.
use mathlib.Core.Option
use mdrack.Base.{
  ℕ, ◌+◌, ◌≡◌, refl, sym, subst, ap, ap₂, ◌∙◌, true, false, Option, none, some, List, [], ◌∷◌, ◌++◌,
  contains, contains-append, ◌⊎◌, arith, Bool-cases, inl, inr, if◌then◌else◌, ◌==◌, Eq, All,
  Distinct,
}
use mdrack.Base.Results.{ok, All-Each}
use mdrack.Base.Order.{sort_by-All}
use mdrack.Base.Dict.{lookup, get_or, keys, lookup-insert, items-lookup}
use mdrack.Base.Text.{Str, str_eq}
use mdrack.Base.Floats.{Floats}
use mdrack.Core.Fusion.{
  record_candidate, FusionCandidate, FusionBranch, FusedCandidate, Tally, empty_tally, weighted_rrf,
  fused_before,
}
use mdrack.Core.Fusion.Rounds.{tallied_candidate, tallied_candidates, tallied_branches}
use mdrack.Core.Fusion.Steps.{tallied_candidates_old, tallied_candidates_new}
use mdrack.Core.Fusion.Ids.{
  distinct_from, ids, IsFused, weighted_rrf-Each, tally-HasKeys, distinct_from-Distinct, all_ids,
}

module _ {ℓ} {A : Type ℓ} ⦃e : Eq A⦄ where
  -- The place of a value in a list, from 0.
  abbrev pub position : A → List A → Option ℕ
  position a [] = none
  position a (x ∷ xs) = if x == a then some 0 else Option.map (λ (p : ℕ). p + 1) (position a xs)

  position-distinct_from :
      (a : A) (seen xs : List A)
      → contains a seen ≡ true
      → position a (distinct_from seen xs) ≡ none
  position-distinct_from a seen [] h = refl
  position-distinct_from a seen (x ∷ xs) h = elim (Bool-cases (contains x seen)) [
    | inl p ↦ rw p (position-distinct_from a seen xs h)
    | inr p ↦ rw p (
        ground (
          arith,
          e.beq_iff x a,
          contains-append a seen (x ∷ []),
          position-distinct_from a (seen ++ (x ∷ [])) xs,
        ))
  ]

module _ (F : Floats) where
  abbrev or_zero : Option F.Float → F.Float
  or_zero none = F.zero_float
  or_zero (some x) = x

  -- What a branch adds to a score, for the id's place `p` among its distinct ids. `start` of
  -- these stand in front.
  abbrev contribute : F.Float → ℕ → ℕ → Option ℕ → Option F.Float → Option F.Float
  contribute w k start none acc = acc
  contribute w k start (some p) acc = some (F.add (or_zero acc) (F.div_int w (k + (start + p + 1))))

  -- The fused score of an id, over `acc` from the branches before; `none` when none holds it.
  abbrev pub rrf_score : ℕ → Str → Option F.Float → List (FusionBranch F) → Option F.Float
  rrf_score k id acc [] = acc
  rrf_score k id acc (b ∷ bs) =
      rrf_score k id
        (contribute b.weight k 0 (position id (distinct_from [] (ids F b.candidates))) acc) bs

  contribute-shift :
      (w : F.Float) (k r : ℕ) (p : Option ℕ) (acc : Option F.Float)
      → contribute w k (r + 1) p acc ≡ contribute w k r (Option.map (λ (p : ℕ). p + 1) p) acc
  contribute-shift w k r none acc = refl
  contribute-shift w k r (some p) acc =
      ap (λ (n : ℕ). some (F.add (or_zero acc) (F.div_int w n))) (omega arith)

  score-tallied_candidate :
      (w : F.Float) (k r : ℕ) (c : FusionCandidate F) (t : Tally F) (id : Str)
      → lookup id (tallied_candidate F w k r c t).scores ≡ (
          if c.logical_id == id
          then some (F.add (or_zero (lookup c.logical_id t.scores)) (F.div_int w (k + r)))
          else lookup id t.scores)
  unfolding tallied_candidate record_candidate get_or
  score-tallied_candidate w k r c t id = ground (
    arith,
    lookup-insert c.logical_id id
        (F.add (get_or c.logical_id F.zero_float t.scores) (F.div_int w (k + r))) t.scores,
  )

  tallied_candidates-score :
      (w : F.Float) (k : ℕ) (cs : List (FusionCandidate F)) (seen : List Str) (r : ℕ) (t : Tally F)
      (id : Str)
      → lookup id (tallied_candidates F w k cs seen r t).scores
        ≡ contribute w k r (position id (distinct_from seen (ids F cs))) (lookup id t.scores)
  unfolding tallied_candidates
  tallied_candidates-score w k [] seen r t id = refl
  tallied_candidates-score w k (c ∷ cs) seen r t id =
      elim (Bool-cases (contains c.logical_id seen)) [
        | inl old ↦
            rw (tallied_candidates_old F w k c cs seen r t old)
              (rw old (tallied_candidates-score w k cs seen r t id))
        | inr new ↦ rw (tallied_candidates_new F w k c cs seen r t new) (
            rw new (
              tallied_candidates-score w k cs (seen ++ (c.logical_id ∷ [])) (r + 1)
                (tallied_candidate F w k (r + 1) c t) id
              ∙ rest (Bool-cases (c.logical_id == id))))
      ]
    where
      t' : Tally F
      t' = tallied_candidate F w k (r + 1) c t

      later : List Str
      later = distinct_from (seen ++ (c.logical_id ∷ [])) (ids F cs)

      member : (c.logical_id == id) ≡ true → contains id (seen ++ (c.logical_id ∷ [])) ≡ true
      member p =
          ground
            (arith, contains-append id seen (c.logical_id ∷ []), str_eq.beq_iff c.logical_id id)

      place : k + (r + 1) ≡ k + (r + 0 + 1)
      place = omega arith

      rest :
          ((c.logical_id == id) ≡ true) ⊎ ((c.logical_id == id) ≡ false)
          → contribute w k (r + 1) (position id later) (lookup id t'.scores)
            ≡ contribute w k r (position id (c.logical_id ∷ later)) (lookup id t.scores)
      rest (inl p) =
          let same : c.logical_id ≡ id = (str_eq.beq_iff c.logical_id id).0 p in
          rw (p, position-distinct_from id (seen ++ (c.logical_id ∷ [])) (ids F cs) (member p))
            (score-tallied_candidate w k (r + 1) c t id
              ∙ rw p (
                  ap₂ (λ i (n : ℕ). some (F.add (or_zero (lookup i t.scores)) (F.div_int w n))) same
                    place))
      rest (inr p) =
          rw (score-tallied_candidate w k (r + 1) c t id)
            (rw p (contribute-shift w k r (position id later) (lookup id t.scores)))

  tallied_branches-score :
      (k : ℕ) (bs : List (FusionBranch F)) (t : Tally F) (id : Str)
      → lookup id (tallied_branches F k bs t).scores ≡ rrf_score k id (lookup id t.scores) bs
  unfolding tallied_branches
  tallied_branches-score k [] t id = refl
  tallied_branches-score k (b ∷ bs) t id =
      tallied_branches-score k bs (tallied_candidates F b.weight k b.candidates [] 0 t) id
      ∙ ap (λ acc. rrf_score k id acc bs)
          (tallied_candidates-score b.weight k b.candidates [] 0 t id)

  -- When the fusion returns, each fused score is the weighted reciprocal-rank sum over the
  -- branches that hold the id, in their order, with ranks counted among the branch's distinct
  -- ids.
  pub weighted_rrf-score :
      (bs : List (FusionBranch F)) (k n : ℕ) {out : List (FusedCandidate F)}
      → weighted_rrf F bs k n ≡ ok out
      → All (λ f. rrf_score k f.logical_id none bs ≡ some f.score) out
  unfolding lookup
  weighted_rrf-score bs k n {out} h =
      let t = tallied_branches F k bs (empty_tally F) in
      let (fused, p, each) = weighted_rrf-Each F bs k n h in
      let distinct : Distinct (keys t.scores) =
        subst (λ l. Distinct l) (sym (tally-HasKeys F k bs).0)
          (distinct_from-Distinct (all_ids F bs)) in
      subst (λ l. All (λ f. rrf_score k f.logical_id none bs ≡ some f.score) l) (sym p)
        (sort_by-All (fused_before F) (λ f. rrf_score k f.logical_id none bs ≡ some f.score) fused
          (All-Each (λ s. lookup s.0 t.scores ≡ some s.1)
            (λ f. rrf_score k f.logical_id none bs ≡ some f.score) (IsFused F n t) t.scores fused
            (λ s f found is.
              rw (is.logical_id, is.score)
                (sym (tallied_branches-score k bs (empty_tally F) s.0) ∙ found))
            (items-lookup t.scores distinct) each))
