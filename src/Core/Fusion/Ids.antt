-- ===== src/Core/Fusion/Ids.antt =====
-- The logical ids that `weighted_rrf` fuses, against the order of first occurrences.
use mathlib.Core.List.{Perm}
use mathlib.Core.List.Perm
use mathlib.Core.List.{append-nil, append_assoc}
use mdrack.Base.{
  ℕ, ◌+◌, ◌≡◌, refl, sym, ap, ap₂, ◌∙◌, true, List, [], ◌∷◌, ◌++◌, map, contains, add_key, some,
  take, Distinct, Distinct-add_key, contains-append, contains-add_key, arith, Bool-cases, inl, inr,
  if◌then◌else◌, Eq, leb,
}
use mdrack.Core.Errors.{value_error}
use mdrack.Base.Results.{
  Result, err, require, ok, traverse, >>=-eq-ok, traverse-Each, Each, Each-map,
}
use mdrack.Base.Dict.{Dict, lookup, get_or, keys, keys-insert, keys-set_default}
use mdrack.Base.Order.{sort_by, sort_by-perm, sort_by-Distinct}
use mdrack.Base.Text.{Str, str_eq}
use mdrack.Base.Floats.{Floats}
use mdrack.Core.Fusion.Steps.{tallied_candidates_old, tallied_candidates_new}
use mdrack.Core.Fusion.{
  record_candidate, FusionCandidate, FusionBranch, FusedCandidate, Tally, empty_tally, fuse, index,
  fuse_all, weighted_rrf, entry_before, fused_before, Entry,
}
use mdrack.Core.Fusion.Rounds.{
  tally_branches-Leaves, tallied_candidate, tallied_candidates, tallied_branches,
}

module _ {ℓ} {A : Type ℓ} ⦃e : Eq A⦄ where
  -- The members of a list that are not in `seen`, at their first occurrences.
  abbrev pub distinct_from : List A → List A → List A
  distinct_from seen [] = []
  distinct_from seen (x ∷ xs) =
      if contains x seen then distinct_from seen xs else x ∷ distinct_from (seen ++ (x ∷ [])) xs

  pub distinct_from-append :
      (seen xs ys : List A)
      → distinct_from seen (xs ++ ys)
        ≡ distinct_from seen xs ++ distinct_from (seen ++ distinct_from seen xs) ys
  distinct_from-append seen [] ys = rw (append-nil seen)
  distinct_from-append seen (x ∷ xs) ys = elim (Bool-cases (contains x seen)) [
    | inl h ↦ rw h (distinct_from-append seen xs ys)
    | inr h ↦ rw h (ap (◌∷◌ x) (distinct_from-append (seen ++ (x ∷ [])) xs ys ∙ simp append_assoc))
  ]

  pub distinct_from-step :
      (x : A) (xs seen : List A)
      → seen ++ distinct_from seen (x ∷ xs) ≡ add_key x seen ++ distinct_from (add_key x seen) xs
  distinct_from-step x xs seen = elim (Bool-cases (contains x seen)) [
    | inl h ↦ rw h
    | inr h ↦ rw h (sym (append_assoc seen (x ∷ []) (distinct_from (seen ++ (x ∷ [])) xs)))
  ]

  Distinct-distinct_from :
      (seen xs : List A) → Distinct seen → Distinct (seen ++ distinct_from seen xs)
  Distinct-distinct_from seen [] d = rw (append-nil seen) d
  Distinct-distinct_from seen (x ∷ xs) d = elim (Bool-cases (contains x seen)) [
    | inl h ↦ rw h (Distinct-distinct_from seen xs d)
    | inr h ↦ rw h (
        rw (append_assoc seen (x ∷ []) (distinct_from (seen ++ (x ∷ [])) xs)) at
          (Distinct-distinct_from (seen ++ (x ∷ [])) xs (rw h at (Distinct-add_key x seen d))))
  ]

  pub distinct_from-Distinct : (xs : List A) → Distinct (distinct_from [] xs)
  distinct_from-Distinct xs = Distinct-distinct_from [] xs tt

err-not-ok : {E A : Type 0} {e : E} {a : A} → ◌≡◌ {A = Result E A} (err e) (ok a) → ⊥
err-not-ok h = cc

module _ (F : Floats) where
  abbrev pub ids : List (FusionCandidate F) → List Str
  ids = map (λ (c : FusionCandidate F). c.logical_id)

  -- Every candidate's id, branch after branch.
  abbrev pub all_ids : List (FusionBranch F) → List Str
  all_ids [] = []
  all_ids (b ∷ bs) = ids b.candidates ++ all_ids bs

  -- The three dicts that are indexed at the end have the same keys, in the same order.
  abbrev pub HasKeys : Tally F → List Str → Type 0
  HasKeys t ks = (keys t.scores ≡ ks) × (keys t.first_seen ≡ ks) × (keys t.representatives ≡ ks)

  tallied_candidate-HasKeys :
      (w : F.Float) (k r : ℕ) (c : FusionCandidate F) (t : Tally F) (ks : List Str)
      → HasKeys t ks
      → HasKeys (tallied_candidate F w k r c t) (add_key c.logical_id ks)
  unfolding tallied_candidate record_candidate
  tallied_candidate-HasKeys w k r c t ks h = (
    keys-insert _ _ t.scores ∙ ap (add_key c.logical_id) h.0,
    keys-set_default _ _ t.first_seen ∙ ap (add_key c.logical_id) h.1,
    keys-set_default _ _ t.representatives ∙ ap (add_key c.logical_id) h.2,
  )

  abbrev Within : List Str → List Str → Type 0
  Within seen ks = (id : Str) → contains id seen ≡ true → contains id ks ≡ true

  Within-add_key :
      (seen ks : List Str) (a : Str) → Within seen ks → Within (seen ++ (a ∷ [])) (add_key a ks)
  Within-add_key seen ks a w id m =
      ground (arith, w id, contains-append id seen (a ∷ []), contains-add_key id a ks)

  tallied_candidates-HasKeys :
      (w : F.Float) (k : ℕ) (cs : List (FusionCandidate F)) (seen : List Str) (r : ℕ) (t : Tally F)
      (ks : List Str)
      → Within seen ks
      → HasKeys t ks
      → HasKeys (tallied_candidates F w k cs seen r t) (ks ++ distinct_from ks (ids cs))
  unfolding tallied_candidates
  tallied_candidates-HasKeys w k [] seen r t ks s h = rw (append-nil ks) h
  tallied_candidates-HasKeys w k (c ∷ cs) seen r t ks s h =
      elim (Bool-cases (contains c.logical_id seen)) [
        | inl old ↦
            rw (tallied_candidates_old F w k c cs seen r t old)
              (rw (s c.logical_id old) (tallied_candidates-HasKeys w k cs seen r t ks s h))
        | inr new ↦ rw (tallied_candidates_new F w k c cs seen r t new) (
            rw (distinct_from-step c.logical_id (ids cs) ks) (
              tallied_candidates-HasKeys w k cs (seen ++ (c.logical_id ∷ [])) (r + 1)
                (tallied_candidate F w k (r + 1) c t) (add_key c.logical_id ks)
                (Within-add_key seen ks c.logical_id s)
                (tallied_candidate-HasKeys w k (r + 1) c t ks h)))
      ]

  tallied_branches-HasKeys :
      (k : ℕ) (bs : List (FusionBranch F)) (t : Tally F) (ks : List Str)
      → HasKeys t ks
      → HasKeys (tallied_branches F k bs t) (ks ++ distinct_from ks (all_ids bs))
  unfolding tallied_branches
  tallied_branches-HasKeys k [] t ks h = rw (append-nil ks) h
  tallied_branches-HasKeys k (b ∷ bs) t ks h =
      rw (distinct_from-append ks (ids b.candidates) (all_ids bs)) (
        rw
          (← append_assoc ks (distinct_from ks (ids b.candidates))
            (distinct_from (ks ++ distinct_from ks (ids b.candidates)) (all_ids bs)))
          (tallied_branches-HasKeys k bs (tallied_candidates F b.weight k b.candidates [] 0 t)
            (ks ++ distinct_from ks (ids b.candidates))
            (tallied_candidates-HasKeys b.weight k b.candidates [] 0 t ks (λ id m. cc) h)))

  -- After all branches the dicts hold each id once, at its first occurrence.
  pub tally-HasKeys :
      (k : ℕ) (bs : List (FusionBranch F))
      → HasKeys (tallied_branches F k bs (empty_tally F)) (distinct_from [] (all_ids bs))
  tally-HasKeys k bs = tallied_branches-HasKeys k bs (empty_tally F) [] (refl, refl, refl)

  -- What `fuse` makes of one key and score of the tally.
  pub record IsFused (n : ℕ) (t : Tally F) (p : Str × F.Float) (f : FusedCandidate F) : Type 0 where
    pub logical_id : f.logical_id ≡ p.0
    pub score : f.score ≡ p.1
    pub first_seen : lookup p.0 t.first_seen ≡ some f.first_seen
    pub representative : lookup p.0 t.representatives ≡ some f.representative
    pub evidence :
        f.evidence
        ≡ map
            (λ (e : Entry F). e.2)
            (take n (sort_by (entry_before F) (get_or p.0 [] t.evidence_by_id)))

  fuse-IsFused :
      (n : ℕ) (t : Tally F) (p : Str × F.Float) (f : FusedCandidate F)
      → fuse F n t p ≡ ok f
      → IsFused n t p f
  unfolding fuse index
  fuse-IsFused n t (id, score) f h = ground arith

  fuse_all-Each :
      (n : ℕ) (t : Tally F) {out : List (FusedCandidate F)}
      → fuse_all F n t ≡ ok out
      → (fused : List (FusedCandidate F)) × (out ≡ sort_by (fused_before F) fused)
        × Each (IsFused n t) t.scores fused
  unfolding fuse_all
  fuse_all-Each n t h =
      let (fused, p, q) =
        >>=-eq-ok (traverse (fuse F n t) t.scores) (λ fs. ok (sort_by (fused_before F) fs)) h in
      (
        fused,
        cc,
        Each-map (λ s f. fuse F n t s ≡ ok f) (IsFused n t) t.scores fused (fuse-IsFused n t)
            (traverse-Each (fuse F n t) t.scores p),
      )

  -- A fusion that returns has run both loops to their end.
  pub weighted_rrf-fuse_all :
      (bs : List (FusionBranch F)) (k n : ℕ) {out : List (FusedCandidate F)}
      → weighted_rrf F bs k n ≡ ok out
      → fuse_all F n (tallied_branches F k bs (empty_tally F)) ≡ ok out
  unfolding weighted_rrf
  weighted_rrf-fuse_all bs k n {out} h =
      let (u, p, q) = >>=-eq-ok (require (leb 1 k) value_error) _ h in
      let (v, p', q') = >>=-eq-ok (require (leb 1 n) value_error) _ q in
      elim (tally_branches-Leaves F k bs (empty_tally F)) [
        | inl e ↦ (rw e at q')
        | inr e ↦ absurd (err-not-ok (rw e at q'))
      ]

  -- The result before the last sort, with the tally's scores behind it.
  pub weighted_rrf-Each :
      (bs : List (FusionBranch F)) (k n : ℕ) {out : List (FusedCandidate F)}
      → weighted_rrf F bs k n ≡ ok out
      → let t = tallied_branches F k bs (empty_tally F) in
        (fused : List (FusedCandidate F)) × (out ≡ sort_by (fused_before F) fused)
        × Each (IsFused n t) t.scores fused
  weighted_rrf-Each bs k n h =
      fuse_all-Each n (tallied_branches F k bs (empty_tally F)) (weighted_rrf-fuse_all bs k n h)

  fused_ids :
      (n : ℕ) (t : Tally F) (scores : Dict Str F.Float) (fused : List (FusedCandidate F))
      → Each (IsFused n t) scores fused
      → map (λ (f : FusedCandidate F). f.logical_id) fused ≡ keys scores
  fused_ids n t [] [] h = refl
  fused_ids n t [] (f ∷ fs) h = absurd h
  fused_ids n t ((id, s) ∷ scores) [] h = absurd h
  fused_ids n t ((id, s) ∷ scores) (f ∷ fs) h = ap₂ ◌∷◌ h.0.logical_id (fused_ids n t scores fs h.1)

  -- When the fusion returns, its ids are a rearrangement of the distinct ids of all branches.
  pub weighted_rrf-ids :
      (bs : List (FusionBranch F)) (k n : ℕ) {out : List (FusedCandidate F)}
      → weighted_rrf F bs k n ≡ ok out
      → Perm (map (λ (f : FusedCandidate F). f.logical_id) out) (distinct_from [] (all_ids bs))
  weighted_rrf-ids bs k n h =
      let (fused, p, e) = weighted_rrf-Each bs k n h in
      rw p (
        Perm.trans
          (Perm.map (λ (f : FusedCandidate F). f.logical_id) (sort_by-perm (fused_before F) fused))
          (rw (fused_ids n _ _ fused e) (rw (tally-HasKeys k bs).0 Perm.rfl)))

  -- No id stands twice in the result.
  pub weighted_rrf-Distinct :
      (bs : List (FusionBranch F)) (k n : ℕ) {out : List (FusedCandidate F)}
      → weighted_rrf F bs k n ≡ ok out
      → Distinct (map (λ (f : FusedCandidate F). f.logical_id) out)
  weighted_rrf-Distinct bs k n h =
      let (fused, p, e) = weighted_rrf-Each bs k n h in
      rw p (
        sort_by-Distinct (fused_before F) (λ (f : FusedCandidate F). f.logical_id) fused
          (rw (fused_ids n _ _ fused e)
            (rw (tally-HasKeys k bs).0 (distinct_from-Distinct (all_ids bs)))))
