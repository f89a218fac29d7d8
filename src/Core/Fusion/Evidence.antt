-- ===== src/Core/Fusion/Evidence.antt =====
-- The evidence and the representative of each result of `weighted_rrf`.
use mathlib.Core.List.{map-append}
use mdrack.Base.{
  ℕ, ◌+◌, ◌≤◌, ◌≡◌, refl, sym, ap, ◌∙◌, subst, true, false, List, [], ◌∷◌, ◌++◌, map, take, length,
  length-take, length-map, map-take, All, arith, Bool-cases, inl, inr, contains, contains-append,
  Distinct, Distinct-take, ◌==◌, if◌then◌else◌, ◌⊎◌, All-Unit, Distinct-snoc,
}
use mdrack.Base.Results.{ok, All-Each}
use mdrack.Base.Order.{sort_by, sort_by-All, sort_by-Distinct}
use mdrack.Base.Dict.{lookup, get_or, get_or-insert}
use mdrack.Base.Text.{Str, str_eq}
use mdrack.Base.Floats.{Floats}
use mdrack.Core.Search.{RankedCandidate}
use mdrack.Core.Fusion.{
  record_candidate, FusionCandidate, FusionBranch, FusedCandidate, Tally, empty_tally, Entry,
  evidence_key, key_eq, add_evidence, weighted_rrf, fused_before, entry_before,
}
use mdrack.Core.Fusion.Rounds.{tallied_candidate, tallied_candidates, tallied_branches}
use mdrack.Core.Fusion.Steps.{tallied_candidates_old, tallied_candidates_new}
use mdrack.Core.Fusion.Ids.{IsFused, weighted_rrf-Each}

module _ (F : Floats) where
  abbrev key_of : Entry F → Str × Str
  key_of e = evidence_key F e.2

  -- No branch and unit stand twice.
  abbrev OnceEach : List (Entry F) → Type 0
  OnceEach entries = Distinct (map key_of entries)

  SameKeys : List (Str × Str) → List (Entry F) → Type 0
  SameKeys known entries = (k : Str × Str) → contains k known ≡ contains k (map key_of entries)

  SameKeys-add :
      (known : List (Str × Str)) (entries : List (Entry F)) (e : Entry F)
      → SameKeys known entries
      → SameKeys (key_of e ∷ known) (entries ++ (e ∷ []))
  unfolding SameKeys
  SameKeys-add known entries e h k =
      rw (map-append key_of entries (e ∷ []))
        (ground (arith, h k, contains-append k (map key_of entries) (key_of e ∷ [])))

  add_evidence-OnceEach :
      (items : List (RankedCandidate F)) (known : List (Str × Str)) (entries : List (Entry F))
      (n : ℕ)
      → SameKeys known entries
      → OnceEach entries
      → OnceEach (add_evidence F items known entries n).0
  unfolding add_evidence SameKeys
  add_evidence-OnceEach [] known entries n s d = d
  add_evidence-OnceEach (item ∷ items) known entries n s d =
      elim (Bool-cases (contains (evidence_key F item) known)) [
        | inl old ↦ rw (old, add_evidence) (add_evidence-OnceEach items known entries (n + 1) s d)
        | inr new ↦
            rw (new, add_evidence)
              (add_evidence-OnceEach items (evidence_key F item ∷ known)
                (entries ++ ((item.rank, n, item) ∷ [])) (n + 1)
                (SameKeys-add known entries (item.rank, n, item) s)
                (rw (map-append key_of entries ((item.rank, n, item) ∷ [])) (
                  Distinct-snoc (evidence_key F item) (map key_of entries)
                    (sym (s (evidence_key F item)) ∙ new) d)))
      ]

  -- Every id's evidence so far.
  abbrev AllOnce : Tally F → Type 0
  AllOnce t = (id : Str) → OnceEach (get_or id [] t.evidence_by_id)

  tallied_candidate-AllOnce :
      (w : F.Float) (k r : ℕ) (c : FusionCandidate F) (t : Tally F)
      → AllOnce t
      → AllOnce (tallied_candidate F w k r c t)
  unfolding tallied_candidate record_candidate SameKeys
  tallied_candidate-AllOnce w k r c t h id =
      rw (get_or-insert c.logical_id id _ [] t.evidence_by_id)
        (pick (Bool-cases (c.logical_id == id)))
    where
      old : List (Entry F)
      old = get_or c.logical_id [] t.evidence_by_id

      new : List (Entry F)
      new = (add_evidence F c.evidence (map key_of old) old t.evidence_ordinal).0

      pick :
          ((c.logical_id == id) ≡ true) ⊎ ((c.logical_id == id) ≡ false)
          → OnceEach (if c.logical_id == id then new else get_or id [] t.evidence_by_id)
      pick (inl p) = rw p (
          add_evidence-OnceEach c.evidence (map key_of old) old t.evidence_ordinal (λ k. refl)
            (h c.logical_id))
      pick (inr p) = rw p (h id)

  tallied_candidates-AllOnce :
      (w : F.Float) (k : ℕ) (cs : List (FusionCandidate F)) (seen : List Str) (r : ℕ) (t : Tally F)
      → AllOnce t
      → AllOnce (tallied_candidates F w k cs seen r t)
  unfolding tallied_candidates
  tallied_candidates-AllOnce w k [] seen r t h = h
  tallied_candidates-AllOnce w k (c ∷ cs) seen r t h =
      elim (Bool-cases (contains c.logical_id seen)) [
        | inl old ↦
            rw (tallied_candidates_old F w k c cs seen r t old)
              (tallied_candidates-AllOnce w k cs seen r t h)
        | inr new ↦ rw (tallied_candidates_new F w k c cs seen r t new) (
            tallied_candidates-AllOnce w k cs _ _ (tallied_candidate F w k _ c t)
              (tallied_candidate-AllOnce w k (r + 1) c t h))
      ]

  tallied_branches-AllOnce :
      (k : ℕ) (bs : List (FusionBranch F)) (t : Tally F)
      → AllOnce t
      → AllOnce (tallied_branches F k bs t)
  unfolding tallied_branches
  tallied_branches-AllOnce k [] t h = h
  tallied_branches-AllOnce k (b ∷ bs) t h =
      tallied_branches-AllOnce k bs (tallied_candidates F b.weight k b.candidates [] 0 t)
        (tallied_candidates-AllOnce b.weight k b.candidates [] 0 t h)

  -- What the evidence of a result promises for a limit `n`.
  abbrev pub HasBoundedEvidence : ℕ → FusedCandidate F → Type 0
  HasBoundedEvidence n f =
      (length f.evidence ≤ n)
      × Distinct (map (λ (c : RankedCandidate F). evidence_key F c) f.evidence)

  map-key_of :
      (entries : List (Entry F))
      → map (λ (c : RankedCandidate F). evidence_key F c) (map (λ (e : Entry F). e.2) entries)
        ≡ map key_of entries
  map-key_of [] = refl
  map-key_of (e ∷ entries) = ap (◌∷◌ (key_of e)) (map-key_of entries)

  bounded_evidence :
      (n : ℕ) (t : Tally F) (s : Str × F.Float) (f : FusedCandidate F)
      → AllOnce t
      → IsFused F n t s f
      → HasBoundedEvidence n f
  bounded_evidence n t s f once is =
      let sorted = sort_by (entry_before F) (get_or s.0 [] t.evidence_by_id) in
      rw is.evidence (
        rw (length-map (λ (e : Entry F). e.2) (take n sorted))
            (omega (arith, length-take n sorted)),
        rw (map-key_of (take n sorted)) (
            rw (map-take key_of n sorted) (
              Distinct-take n (map key_of sorted) (
                sort_by-Distinct (entry_before F) key_of (get_or s.0 [] t.evidence_by_id)
                  (once s.0)))),
      )

  -- When the fusion returns, each result carries at most evidence_limit pieces of evidence and no
  -- unit of a branch twice.
  pub weighted_rrf-HasBoundedEvidence :
      (bs : List (FusionBranch F)) (k n : ℕ) {out : List (FusedCandidate F)}
      → weighted_rrf F bs k n ≡ ok out
      → All (HasBoundedEvidence n) out
  unfolding get_or lookup
  weighted_rrf-HasBoundedEvidence bs k n h =
      let t = tallied_branches F k bs (empty_tally F) in
      let (fused, p, each) = weighted_rrf-Each F bs k n h in
      subst (All (HasBoundedEvidence n)) (sym p) (
        sort_by-All (fused_before F) (HasBoundedEvidence n) fused (
          All-Each (λ s. Unit {0}) (HasBoundedEvidence n) (IsFused F n t) t.scores fused
            (λ s f u is.
              bounded_evidence n t s f (tallied_branches-AllOnce k bs (empty_tally F) (λ id. tt))
                is)
            (All-Unit t.scores) each))
