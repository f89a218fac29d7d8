-- ===== src/Core/Retrieval/Candidates.antt =====
-- What `_validate_candidates` accepts, and how a branch fails.
use mdrack.Base.{
  ℕ, ◌+◌, ◌≡◌, refl, ap, subst, true, false, List, [], ◌∷◌, map, take, contains, Distinct, All,
  arith, ◌==◌, eqb, ◌↔◌,
}
use mdrack.Base.Results.{ok, ◌>>=◌, >>=-eq-ok}
use mdrack.Base.Text.{Str, str_eq}
use mdrack.Base.Floats.{Floats}
use mdrack.Core.Search.{RankedCandidate}
use mdrack.Core.Retrieval.Branches.{
  PortItem, candidate, foreign, listed, validate_loop, validate_candidates,
}

module _ (F : Floats) where
  -- The candidates of a branch, ranked from `rank` on without a gap.
  abbrev pub RankedFrom : Str → ℕ → List (RankedCandidate F) → Type 0
  RankedFrom branch_id rank [] = Unit
  RankedFrom branch_id rank (c ∷ cs) =
      (c.branch_id ≡ branch_id) × (c.rank ≡ rank) × RankedFrom branch_id (rank + 1) cs

  abbrev pub unit_ids : List (RankedCandidate F) → List Str
  unit_ids = map (λ (c : RankedCandidate F). c.unit_id)

  -- None of the candidates' units is in `seen`.
  abbrev pub Unseen : List Str → List (RankedCandidate F) → Type 0
  Unseen seen cs = All (λ (c : RankedCandidate F). contains c.unit_id seen ≡ false) cs

  Unseen-tail :
      (u : Str) (seen : List Str) (cs : List (RankedCandidate F))
      → Unseen (u ∷ seen) cs
      → Unseen seen cs × (contains u (unit_ids cs) ≡ false)
  Unseen-tail u seen [] h = (tt, refl)
  Unseen-tail u seen (c ∷ cs) h =
      let (rest, apart) = Unseen-tail u seen cs h.1 in
      ((ground arith, rest), ground (arith, str_eq.beq_iff u c.unit_id, str_eq.beq_iff c.unit_id u))

  pub Unseen-cons :
      (u : Str) (seen : List Str) (cs : List (RankedCandidate F))
      → Unseen seen cs
      → contains u (unit_ids cs) ≡ false
      → Unseen (u ∷ seen) cs
  Unseen-cons u seen [] h k = tt
  Unseen-cons u seen (c ∷ cs) h k = (
    ground (arith, h.0, str_eq.beq_iff u c.unit_id, str_eq.beq_iff c.unit_id u),
    Unseen-cons u seen cs h.1 (ground arith),
  )

  -- What the loop accepts from `rank` on.
  abbrev Accepted : Str → ℕ → List Str → List (PortItem F) → List (RankedCandidate F) → Type 0
  Accepted branch_id rank seen items cs =
      (items ≡ map candidate cs)
      × RankedFrom branch_id rank cs
      × Unseen seen cs
      × Distinct (unit_ids cs)

  -- The tests that the first item has passed, and what is left.
  validate_step :
      (b : Str) (c : RankedCandidate F) (items : List (PortItem F)) (rank : ℕ) (seen : List Str)
      (cs : List (RankedCandidate F))
      → validate_loop F b (candidate c ∷ items) rank seen ≡ ok cs
      → ((c.branch_id == b) ≡ true)
        × (c.rank ≡ rank)
        × (contains c.unit_id seen ≡ false)
        × ((validate_loop F b items (rank + 1) (c.unit_id ∷ seen) >>= λ rest. ok (c ∷ rest))
            ≡ ok cs)
  unfolding validate_loop
  validate_step b c items rank seen cs h = (ground arith, ground arith, ground arith, ground arith)

  validate_loop-Accepted :
      (b : Str) (items : List (PortItem F)) (rank : ℕ) (seen : List Str)
      (cs : List (RankedCandidate F))
      → validate_loop F b items rank seen ≡ ok cs
      → Accepted b rank seen items cs
  unfolding validate_loop
  validate_loop-Accepted b [] rank seen [] h = (refl, tt, tt, tt)
  validate_loop-Accepted b [] rank seen (c ∷ cs) h = cc
  validate_loop-Accepted b (foreign ∷ items) rank seen cs h = cc
  validate_loop-Accepted b (candidate c ∷ items) rank seen cs h =
      let (same, ranked, new, more) = validate_step b c items rank seen cs h in
      let (rest, p, q) =
        >>=-eq-ok (validate_loop F b items (rank + 1) (c.unit_id ∷ seen)) (λ rest. ok (c ∷ rest))
          more in
      let (ps, rs, us, ds) = validate_loop-Accepted b items (rank + 1) (c.unit_id ∷ seen) rest p in
      let (us', apart) = Unseen-tail c.unit_id seen rest us in
      let e : c ∷ rest ≡ cs = cc in
      subst (λ l. Accepted b rank seen (candidate c ∷ items) l) e
        (
          ap (◌∷◌ (candidate c)) ps,
          ((str_eq.beq_iff c.branch_id b).0 same, ranked, rs),
          (new, us'),
          (apart, ds),
        )

  Accepted-validate_loop :
      (b : Str) (items : List (PortItem F)) (rank : ℕ) (seen : List Str)
      (cs : List (RankedCandidate F))
      → Accepted b rank seen items cs
      → validate_loop F b items rank seen ≡ ok cs
  unfolding validate_loop
  Accepted-validate_loop b [] rank seen [] h = refl
  Accepted-validate_loop b [] rank seen (c ∷ cs) h = cc
  Accepted-validate_loop b (i ∷ items) rank seen [] h = cc
  Accepted-validate_loop b (foreign ∷ items) rank seen (c ∷ cs) h = cc
  Accepted-validate_loop b (candidate d ∷ items) rank seen (c ∷ cs)
        (p, (same, ranked, rs), (new, us), (apart, ds)) =
      let e : d ≡ c = cc in
      let tails : items ≡ map candidate cs = cc in
      let rest =
        Accepted-validate_loop b items (rank + 1) (c.unit_id ∷ seen) cs
          (tails, rs, Unseen-cons c.unit_id seen cs us apart, ds) in
      let same' : (c.branch_id == b) ≡ true = (str_eq.beq_iff c.branch_id b).1 same in
      let ranked' : eqb c.rank rank ≡ true = ground arith in rw e (rw (same', ranked', new, rest))

  -- A listed reply is accepted with some candidates exactly when its first candidate_limit items
  -- are those candidates, all of this branch, ranked 1, 2, 3 and so on, with distinct unit ids.
  pub validate_candidates_iff :
      (b : Str) (limit : ℕ) (items : List (PortItem F)) (cs : List (RankedCandidate F))
      → (validate_candidates F b limit (listed items) ≡ ok cs)
        ↔ ((take limit items ≡ map candidate cs) × RankedFrom b 1 cs × Distinct (unit_ids cs))
  unfolding validate_candidates
  validate_candidates_iff b limit items cs = (
    λ h. let (p, q, r, s) = validate_loop-Accepted b (take limit items) 1 [] cs h in (p, q, s),
    λ h. Accepted-validate_loop b (take limit items) 1 [] cs (h.0, h.1, unseen cs, h.2),
  )
    where
      unseen : (cs : List (RankedCandidate F)) → Unseen [] cs
      unseen [] = tt
      unseen (c ∷ cs) = (refl, unseen cs)
