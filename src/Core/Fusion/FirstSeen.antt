-- ===== src/Core/Fusion/FirstSeen.antt =====
-- `first_seen` of `weighted_rrf` against the order in which its loops count the ids.
use mdrack.Base.{
  ℕ, suc, ◌+◌, ◌≡◌, refl, sym, ap, ◌∙◌, List, [], ◌∷◌, ◌++◌, contains, length, Bool-cases, inl, inr,
  arith,
}
use mdrack.Base.Places.{
  place_of, or_else, or_else-none, or_else-set_default, or_else_assoc, place_of-append,
}
use mdrack.Base.Dict.{lookup, set_default}
use mdrack.Base.Text.{Str, str_eq}
use mdrack.Base.Floats.{Floats}
use mdrack.Core.Fusion.{FusionCandidate, FusionBranch, Tally, record_candidate}
use mdrack.Core.Fusion.Rounds.{tallied_candidate, tallied_candidates, tallied_branches}
use mdrack.Core.Fusion.Steps.{tallied_candidates_old, tallied_candidates_new}
use mdrack.Core.Fusion.Ids.{ids, distinct_from}

module _ (F : Floats) where
  -- The distinct ids of each branch, branch after branch
  abbrev pub counted_ids : List (FusionBranch F) → List Str
  counted_ids [] = []
  counted_ids (b ∷ bs) = distinct_from [] (ids F b.candidates) ++ counted_ids bs

  tallied_candidate-first_seen :
      (w : F.Float) (k r : ℕ) (c : FusionCandidate F) (t : Tally F)
      → (tallied_candidate F w k r c t).first_seen
        ≡ set_default c.logical_id t.candidate_ordinal t.first_seen
  unfolding tallied_candidate record_candidate
  tallied_candidate-first_seen w k r c t = refl

  tallied_candidate-ordinal :
      (w : F.Float) (k r : ℕ) (c : FusionCandidate F) (t : Tally F)
      → (tallied_candidate F w k r c t).candidate_ordinal ≡ suc t.candidate_ordinal
  unfolding tallied_candidate record_candidate
  tallied_candidate-ordinal w k r c t = omega arith

  tallied_candidates-ordinal :
      (w : F.Float) (k : ℕ) (cs : List (FusionCandidate F)) (seen : List Str) (r : ℕ) (t : Tally F)
      → (tallied_candidates F w k cs seen r t).candidate_ordinal
        ≡ t.candidate_ordinal + length (distinct_from seen (ids F cs))
  unfolding tallied_candidates
  tallied_candidates-ordinal w k [] seen r t = omega arith
  tallied_candidates-ordinal w k (c ∷ cs) seen r t =
      elim (Bool-cases (contains c.logical_id seen)) [
        | inl old ↦
            rw (tallied_candidates_old F w k c cs seen r t old)
              (rw old (tallied_candidates-ordinal w k cs seen r t))
        | inr new ↦ rw (tallied_candidates_new F w k c cs seen r t new) (
            rw new (
              tallied_candidates-ordinal w k cs (seen ++ (c.logical_id ∷ [])) (r + 1)
                (tallied_candidate F w k (r + 1) c t)
              ∙ ap (λ n. n + length (distinct_from (seen ++ (c.logical_id ∷ [])) (ids F cs)))
                  (tallied_candidate-ordinal w k (r + 1) c t)
              ∙ omega arith))
      ]

  tallied_candidates-first_seen :
      (w : F.Float) (k : ℕ) (cs : List (FusionCandidate F)) (seen : List Str) (r : ℕ) (t : Tally F)
      (id : Str)
      → lookup id (tallied_candidates F w k cs seen r t).first_seen
        ≡ or_else
            (lookup id t.first_seen)
            (place_of t.candidate_ordinal (distinct_from seen (ids F cs)) id)
  unfolding tallied_candidates place_of or_else
  tallied_candidates-first_seen w k [] seen r t id = sym (or_else-none (lookup id t.first_seen))
  tallied_candidates-first_seen w k (c ∷ cs) seen r t id =
      elim (Bool-cases (contains c.logical_id seen)) [
        | inl old ↦
            rw (tallied_candidates_old F w k c cs seen r t old)
              (rw old (tallied_candidates-first_seen w k cs seen r t id))
        | inr new ↦ rw (tallied_candidates_new F w k c cs seen r t new) (
            rw new (
              tallied_candidates-first_seen w k cs (seen ++ (c.logical_id ∷ [])) (r + 1)
                (tallied_candidate F w k (r + 1) c t) id
              ∙ rw
                  (
                    tallied_candidate-first_seen w k (r + 1) c t,
                    tallied_candidate-ordinal w k (r + 1) c t,
                  )
                  (or_else-set_default c.logical_id id t.candidate_ordinal t.first_seen (
                    place_of (suc t.candidate_ordinal)
                      (distinct_from (seen ++ (c.logical_id ∷ [])) (ids F cs)) id))))
      ]

  -- After all branches an id has the place at which its branch counted it first.
  pub tallied_branches-first_seen :
      (k : ℕ) (bs : List (FusionBranch F)) (t : Tally F) (id : Str)
      → lookup id (tallied_branches F k bs t).first_seen
        ≡ or_else (lookup id t.first_seen) (place_of t.candidate_ordinal (counted_ids bs) id)
  unfolding tallied_branches place_of
  tallied_branches-first_seen k [] t id = sym (or_else-none (lookup id t.first_seen))
  tallied_branches-first_seen k (b ∷ bs) t id =
      let here = distinct_from [] (ids F b.candidates) in
      tallied_branches-first_seen k bs (tallied_candidates F b.weight k b.candidates [] 0 t) id
      ∙ rw
          (
            tallied_candidates-first_seen b.weight k b.candidates [] 0 t id,
            tallied_candidates-ordinal b.weight k b.candidates [] 0 t,
            place_of-append t.candidate_ordinal here (counted_ids bs) id,
          )
          (or_else_assoc (lookup id t.first_seen) (place_of t.candidate_ordinal here id)
            (place_of (t.candidate_ordinal + length here) (counted_ids bs) id))
