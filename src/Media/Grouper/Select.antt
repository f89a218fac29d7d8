-- ===== src/Media/Grouper/Select.antt =====
-- `_select_candidate` of packages/mdrack-media/src/mdrack_media/grouper.py takes the greatest key.
use mdrack.Base.{
  ℕ, ◌<◌, ◌≤◌, ◌⊎◌, inl, inr, ◌≡◌, refl, subst, Bool, true, false, List, [], ◌∷◌, All, ◌||◌, ◌&&◌,
  ltb, eqb, arith, if◌then◌else◌,
}
use mdrack.Base.Results.{ok}
use mdrack.Base.Int.{ℤ, ltb_ℤ, eqb_ℤ}
use mdrack.Base.Text.{Str}
use mdrack.Media.Grouper.{BoundaryCandidate, SelectedBoundary, key_lt, max_from, select_candidate}

key_lt_irrefl : (a : BoundaryCandidate) → key_lt a a ≡ false
unfolding key_lt
key_lt_irrefl a = ground arith

-- One component of the key, where less is greater, before the components `p`, `q` and `r`
descending_chain :
    (a b c : ℕ) (p q r : Bool)
    → (p ≡ false → q ≡ true → r ≡ false)
    → (ltb a b || (eqb b a && p)) ≡ false
    → (ltb c b || (eqb b c && q)) ≡ true
    → (ltb a c || (eqb c a && r)) ≡ false
descending_chain a b c false true r rest h k = let e = rest refl refl in ground arith
descending_chain a b c true q r rest h k = ground arith
descending_chain a b c false false r rest h k = ground arith

score_chain :
    (a b c : ℤ) (p q r : Bool)
    → (p ≡ false → q ≡ true → r ≡ false)
    → (ltb_ℤ b a || (eqb_ℤ b a && p)) ≡ false
    → (ltb_ℤ b c || (eqb_ℤ b c && q)) ≡ true
    → (ltb_ℤ c a || (eqb_ℤ c a && r)) ≡ false
score_chain a b c false true r rest h k = let e = rest refl refl in ground arith
score_chain a b c true q r rest h k = ground arith
score_chain a b c false false r rest h k = ground arith

index_chain : (a b c : ℕ) → ltb a b ≡ false → ltb c b ≡ true → ltb a c ≡ false
index_chain a b c h k = ground arith

-- What is not greater than the old best is not greater than the new one.
key_lt_chain :
    (a b c : BoundaryCandidate) → key_lt b a ≡ false → key_lt b c ≡ true → key_lt c a ≡ false
unfolding key_lt
key_lt_chain a b c = score_chain a.score b.score c.score _ _ _ (
    descending_chain a.token_distance b.token_distance c.token_distance _ _ _ (
      descending_chain a.duration_distance b.duration_distance c.duration_distance _ _ _
        (index_chain a.end_index b.end_index c.end_index)))

-- `m` is not less than any of the candidates, nor than what `best` is not less than.
abbrev IsGreatest : BoundaryCandidate → List BoundaryCandidate → BoundaryCandidate → Type 0
IsGreatest best cs m =
    ((a : BoundaryCandidate) → key_lt best a ≡ false → key_lt m a ≡ false)
    × All (λ c. key_lt m c ≡ false) cs

max_from-IsGreatest :
    (best : BoundaryCandidate) (cs : List BoundaryCandidate) → IsGreatest best cs (max_from best cs)
unfolding max_from
max_from-IsGreatest best [] = (λ a h. h, tt)
max_from-IsGreatest best (c ∷ cs) =
    (elim (key_lt best c)
        as (λ b.
          key_lt best c ≡ b → IsGreatest best (c ∷ cs) (max_from (if b then c else best) cs)) [
            | true ↦ λ e.
                let (above, all) = max_from-IsGreatest c cs in
                (λ a h. above a (key_lt_chain a best c h e), (above c (key_lt_irrefl c), all))
            | false ↦
                λ e. let (above, all) = max_from-IsGreatest best cs in (above, (above c e, all))
          ])
      refl

-- No candidate beats `m`: its score is less, or the same and its token distance is greater, or the
-- same of both and its duration distance is greater, or the same of all and its index is no less.
abbrev pub Outdoes : BoundaryCandidate → BoundaryCandidate → Type 0
Outdoes m c =
    (ltb_ℤ c.score m.score ≡ true)
    ⊎ ((eqb_ℤ c.score m.score ≡ true)
        × ((m.token_distance < c.token_distance)
            ⊎ ((m.token_distance ≡ c.token_distance)
                × ((m.duration_distance < c.duration_distance)
                    ⊎ ((m.duration_distance ≡ c.duration_distance)
                        × (m.end_index ≤ c.end_index))))))

abbrev pub IsOneOf : BoundaryCandidate → List BoundaryCandidate → Type 0
IsOneOf m [] = ⊥
IsOneOf m (c ∷ cs) = (m ≡ c) ⊎ IsOneOf m cs

key_lt-Outdoes : (m c : BoundaryCandidate) → key_lt m c ≡ false → Outdoes m c
unfolding key_lt
key_lt-Outdoes m c h = ground arith

All-Outdoes :
    (m : BoundaryCandidate) (cs : List BoundaryCandidate)
    → All (λ c. key_lt m c ≡ false) cs
    → All (Outdoes m) cs
All-Outdoes m [] h = tt
All-Outdoes m (c ∷ cs) h = (key_lt-Outdoes m c h.0, All-Outdoes m cs h.1)

max_from-IsOneOf :
    (best : BoundaryCandidate) (cs : List BoundaryCandidate)
    → IsOneOf (max_from best cs) (best ∷ cs)
unfolding max_from
max_from-IsOneOf best [] = inl refl
max_from-IsOneOf best (c ∷ cs) =
    elim (key_lt best c) as (λ b. IsOneOf (max_from (if b then c else best) cs) (best ∷ c ∷ cs)) [
      | true ↦ inr (max_from-IsOneOf c cs)
      | false ↦ elim (max_from-IsOneOf best cs) [ inl p ↦ inl p | inr p ↦ inr (inr p) ]
    ]

-- A selected boundary is one of the candidates, and against each of them it has a greater score,
-- or the same score and a shorter token distance, or the same of both and a shorter duration
-- distance, or the same of all three and no later index.
pub select_candidate-greatest :
    (cs : List BoundaryCandidate) (reason : Str) {s : SelectedBoundary}
    → select_candidate cs reason ≡ ok s
    → IsOneOf s.candidate cs × All (Outdoes s.candidate) cs
unfolding select_candidate
select_candidate-greatest [] reason h = absurd (cc)
select_candidate-greatest (c ∷ cs) reason {s} h =
    let (above, all) = max_from-IsGreatest c cs in
    let e : record {
      candidate = max_from c cs;
      reason = reason;
      hard_limit_exceeded = false;
      unsplittable = false;
    }
        ≡ s =
      cc in
    subst
      (λ (t : SelectedBoundary). IsOneOf t.candidate (c ∷ cs) × All (Outdoes t.candidate) (c ∷ cs))
      e
      (max_from-IsOneOf c cs, All-Outdoes (max_from c cs) (c ∷ cs) (above c (key_lt_irrefl c), all))
