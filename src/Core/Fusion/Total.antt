-- ===== src/Core/Fusion/Total.antt =====
-- `weighted_rrf` never misses a key of its own dicts.
use mdrack.Base.{
  ℕ, ◌⊎◌, ◌+◌, ◌++◌, length, refl, Bool-cases, inl, inr, ◌≤◌, ◌≡◌, sym, subst, true, List, [], ◌∷◌,
  All, All-map, contains, arith, eq_refl, leb,
}
use mdrack.Base.Results.{Result, ok, err, traverse-returns}
use mdrack.Base.Dict.{Dict, keys, lookup-some}
use mdrack.Base.Order.{sort_by}
use mdrack.Base.Text.{Str, str_eq}
use mdrack.Base.Floats.{Floats, FitsUpTo}
use mdrack.Core.Errors.{PyError, value_error, overflow_error}
use mdrack.Core.Fusion.{
  divide, tally_candidate, tally_candidates, tally_branches, FusionCandidate, FusionBranch,
  FusedCandidate, Tally, empty_tally, fuse, fuse_all, weighted_rrf, index, fused_candidate,
  fused_before,
}
use mdrack.Core.Fusion.Rounds.{
  tally_branches-Leaves, tallied_candidate, tallied_candidates, tallied_branches,
}
use mdrack.Core.Fusion.Ids.{HasKeys, tally-HasKeys}

module _ {V : Type 0} where
  All-weaken :
      (a : Str) (ks : List Str) (d : Dict Str V)
      → All (λ p. contains p.0 ks ≡ true) d
      → All (λ p. contains p.0 (a ∷ ks) ≡ true) d
  All-weaken a ks d h =
      All-map (λ p. contains p.0 ks ≡ true) (λ p. contains p.0 (a ∷ ks) ≡ true) d
        (λ p q. ground arith) h

  keys_present : (d : Dict Str V) → All (λ p. contains p.0 (keys d) ≡ true) d
  keys_present [] = tt
  keys_present ((k, v) ∷ d) = (rw (eq_refl k), All-weaken k (keys d) d (keys_present d))

ok-not-err : {A : Type 0} {a : A} {e : PyError} → ◌≡◌ {A = Result PyError A} (ok a) (err e) → ⊥
ok-not-err h = cc

raised : {A : Type 0} {d e : PyError} → ◌≡◌ {A = Result PyError A} (err d) (err e) → e ≡ d
raised h = cc

module _ (F : Floats) where
  fuse-returns :
      (n : ℕ) (t : Tally F) (ks : List Str)
      → HasKeys F t ks
      → (p : Str × F.Float) → contains p.0 ks ≡ true
      → (f : FusedCandidate F) × (fuse F n t p ≡ ok f)
  unfolding fuse index
  fuse-returns n t ks h (id, score) m =
      let (seen, q) = lookup-some id t.first_seen (subst (λ l. contains id l ≡ true) (sym h.1) m) in
      let (rep, r) =
        lookup-some id t.representatives (subst (λ l. contains id l ≡ true) (sym h.2) m) in
      (fused_candidate F n t (id, score) seen rep, rw (q, r))

  fuse_all-returns :
      (n : ℕ) (t : Tally F) (ks : List Str)
      → HasKeys F t ks
      → (out : List (FusedCandidate F)) × (fuse_all F n t ≡ ok out)
  unfolding fuse_all
  fuse_all-returns n t ks h =
      let (fused, p) = traverse-returns (fuse F n t) t.scores (
        All-map (λ p. contains p.0 (keys t.scores) ≡ true)
          (λ p. (f : FusedCandidate F) × (fuse F n t p ≡ ok f)) t.scores
          (λ p m. fuse-returns n t ks h p (subst (λ l. contains p.0 l ≡ true) h.0 m))
          (keys_present t.scores)) in
      (sort_by (fused_before F) fused, rw p)

  tally_candidate-fits :
      (w : F.Float) (k r : ℕ) (c : FusionCandidate F) (t : Tally F)
      → F.fits_float (k + r) ≡ true
      → tally_candidate F w k r c t ≡ ok (tallied_candidate F w k r c t)
  unfolding tally_candidate tallied_candidate divide
  tally_candidate-fits w k r c t h = rw (h, tally_candidate, divide) refl

  tally_candidates-fits :
      (w : F.Float) (k : ℕ) (cs : List (FusionCandidate F)) (seen : List Str) (r : ℕ) (t : Tally F)
      → FitsUpTo F k (r + length cs)
      → tally_candidates F w k cs seen r t ≡ ok (tallied_candidates F w k cs seen r t)
  unfolding tally_candidates tallied_candidates
  tally_candidates-fits w k [] seen r t h = refl
  tally_candidates-fits w k (c ∷ cs) seen r t h = elim (Bool-cases (contains c.logical_id seen)) [
    | inl e ↦
        rw (e, tally_candidates, tallied_candidates)
          (tally_candidates-fits w k cs seen r t (λ i a b. h i a (omega arith)))
    | inr e ↦
        rw (e, tally_candidates, tallied_candidates)
          (rw (tally_candidate-fits w k (r + 1) c t (h (r + 1) (omega arith) (omega arith))) (
            tally_candidates-fits w k cs (seen ++ (c.logical_id ∷ [])) (r + 1)
              (tallied_candidate F w k (r + 1) c t) (λ i a b. h i a (omega arith))))
  ]

  tally_branches-fits :
      (k : ℕ) (bs : List (FusionBranch F)) (t : Tally F)
      → All (λ b. FitsUpTo F k (length b.candidates)) bs
      → tally_branches F k bs t ≡ ok (tallied_branches F k bs t)
  unfolding tally_branches tallied_branches
  tally_branches-fits k [] t h = refl
  tally_branches-fits k (b ∷ bs) t h =
      rw
        (
          tally_candidates-fits b.weight k b.candidates [] 0 t (λ i a b. h.0 i a (omega arith)),
          tally_branches,
        )
        (tally_branches-fits k bs (tallied_candidates F b.weight k b.candidates [] 0 t) h.1)

  -- A fusion that raises raises ValueError, where a limit is 0, or OverflowError; never KeyError.
  pub weighted_rrf-err :
      (bs : List (FusionBranch F)) (k n : ℕ) (e : PyError)
      → weighted_rrf F bs k n ≡ err e
      → ((e ≡ value_error) × ((k ≡ 0) ⊎ (n ≡ 0))) ⊎ (e ≡ overflow_error)
  unfolding weighted_rrf
  weighted_rrf-err bs k n e h = elim (Bool-cases (leb 1 k)) [
    | inr p ↦ inl (ground arith, inl (ground arith))
    | inl p ↦ elim (Bool-cases (leb 1 n)) [
      | inr q ↦ inl (ground arith, inr (ground arith))
      | inl q ↦ elim (tally_branches-Leaves F k bs (empty_tally F)) [
        | inr o ↦ inr (raised (rw (p, q, o) at h))
        | inl o ↦
            let (out, r) =
              fuse_all-returns n (tallied_branches F k bs (empty_tally F)) _
                (tally-HasKeys F k bs) in
            absurd (ok-not-err (rw r at (rw (p, q, o) at h)))
      ]
    ]
  ]

  -- With both limits at least 1, and a float next to each sum of rrf_k and a rank up to the
  -- length of a branch, the fusion returns a result: no dict misses a key and no division
  -- overflows.
  pub weighted_rrf-returns :
      (bs : List (FusionBranch F)) (k n : ℕ)
      → 1 ≤ k
      → 1 ≤ n
      → All (λ b. FitsUpTo F k (length b.candidates)) bs
      → (out : List (FusedCandidate F)) × (weighted_rrf F bs k n ≡ ok out)
  unfolding weighted_rrf
  weighted_rrf-returns bs k n hk hn fits =
      let (out, p) =
        fuse_all-returns n (tallied_branches F k bs (empty_tally F)) _ (tally-HasKeys F k bs) in
      let a : leb 1 k ≡ true = ground arith in
      let b : leb 1 n ≡ true = ground arith in
      (out, rw (a, b) (rw (tally_branches-fits k bs (empty_tally F) fits) p))
