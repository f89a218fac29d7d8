-- ===== src/Media/Grouper/Cover.antt =====
-- The passages of a run take every atom once, in order, and do not overlap.
use mdrack.Base.{
  ℕ, zero, suc, ◌-◌, ◌<◌, ◌≤◌, ◌≡◌, refl, ap, ap₂, ◌∙◌, subst, true, false, some, List, [], ◌∷◌,
  ◌++◌, map, All, All-take, All-drop, All-map, length, length-drop, get_elem?, take, drop,
  contains-append, leb→le, ◌==◌, arith,
}
use mdrack.Base.Text.{Str, str_eq}
use mdrack.Base.Floats.{Floats}
use mdrack.Media.Identifiers.{Codec, IsSha256}
use mdrack.Media.Policies.{TimedChunkingPolicy}
use mdrack.Media.Records.{TimedTextAtom, TimedPassage, all_different, is_range_from}
use mdrack.Media.Grouper.{TokenCounter, SelectedBoundary}
use mdrack.Media.Grouper.Boundary.{unsplittable_reject, safe_boundary, find_boundary}
use mdrack.Media.Grouper.Metrics.{references, output_overlaps, greatest}
use mdrack.Media.Grouper.Run.{Grouping, passage_metadata, passage_of, group_from}
use mdrack.Media.Grouper.Outcomes.{Ensures, returns, bind-Ensures, ok-Ensures}
use mdrack.Media.Grouper.Texts.{IsSpan}
use mdrack.Media.Grouper.Candidates.{latest}
use mdrack.Media.Grouper.Rounds.{IsBoundary}
use mdrack.Media.Grouper.Find.{drop-cons, find_boundary-Ensures}
use mdrack.Media.Grouper.Passages.{IsAtom, IsGrouping, IsPassage, passage_of-returns}

all_different-append :
    (xs ys : List Str)
    → all_different (xs ++ ys) ≡ true
    → (all_different xs ≡ true) × (all_different ys ≡ true)
unfolding all_different
all_different-append [] ys h = (refl, h)
all_different-append (x ∷ xs) ys h =
    let k = all_different-append xs ys (ground arith) in
    (ground (arith, contains-append x xs ys, k.0), k.1)

map-take-drop :
    {A B : Type 0} (f : A → B) (n : ℕ) (xs : List A)
    → (map f (take n xs) ++ map f (drop n xs)) ≡ map f xs
map-take-drop f zero xs = refl
map-take-drop f (suc n) [] = refl
map-take-drop f (suc n) (x ∷ xs) = ap (◌∷◌ (f x)) (map-take-drop f n xs)

module _ (F : Floats) (c : Codec F) where
  abbrev pub ids_of : List (TimedTextAtom F) → List Str
  ids_of = map (λ (a : TimedTextAtom F). a.atom_id)

  -- The limits of a passage: within both hard limits, or flagged where the caller allows it
  pub record IsMeasured (policy : TimedChunkingPolicy) (counter : TokenCounter) (unsplittable : Str)
      (p : TimedPassage F) : Type 0 where
    pub selected : SelectedBoundary
    pub metadata : p.metadata ≡ passage_metadata F c selected
    pub counted : counter.count p.text ≡ some p.token_count.count
    pub tokens : selected.hard_limit_exceeded ≡ false → p.token_count.count ≤ policy.hard_max_tokens
    pub duration :
        selected.hard_limit_exceeded ≡ false → p.end_ms - p.start_ms ≤ policy.hard_max_duration_ms
    pub flagged :
        selected.hard_limit_exceeded ≡ true → (unsplittable == unsplittable_reject) ≡ false
    pub marked : selected.unsplittable ≡ selected.hard_limit_exceeded
    pub positive : p.start_ms < p.end_ms

  -- The first passage starts with the first atom.
  abbrev pub StartsWith : List (TimedTextAtom F) → List (TimedPassage F) → Type 0
  StartsWith [] [] = Unit
  StartsWith (a ∷ atoms) (p ∷ passages) = p.start_ms ≡ a.start_ms
  StartsWith _ _ = ⊥

  -- What holds of the passages that the loop makes of the atoms
  pub record IsCover (g : Grouping) (atoms : List (TimedTextAtom F)) (ordinal : ℕ)
      (passages : List (TimedPassage F)) : Type 0 where
    pub once : references F c passages ≡ ids_of atoms
    pub apart : output_overlaps F c passages ≡ 0
    pub starts : StartsWith atoms passages
    pub measured : All (IsMeasured g.policy g.token_counter g.unsplittable) passages
    pub numbered : is_range_from ordinal (map (λ (p : TimedPassage F). p.ordinal) passages) ≡ true

  -- A passage before passages that start where its boundary is safe
  output_overlaps-cons :
      (p : TimedPassage F) (rest : List (TimedTextAtom F)) (passages : List (TimedPassage F))
      → ((b : TimedTextAtom F) (more : List (TimedTextAtom F))
          → rest ≡ b ∷ more
          → p.end_ms ≤ b.start_ms)
      → StartsWith rest passages
      → output_overlaps F c passages ≡ 0
      → output_overlaps F c (p ∷ passages) ≡ 0
  unfolding output_overlaps
  output_overlaps-cons p rest [] h s e = refl
  output_overlaps-cons p [] (q ∷ passages) h s e = absurd s
  output_overlaps-cons p (b ∷ rest) (q ∷ passages) h s e =
      let k = h b rest refl in ground (arith, s, e, k)

  -- No atom after a safe boundary starts before it.
  safe-after :
      (atoms rest : List (TimedTextAtom F)) (i end_ms : ℕ) (b : TimedTextAtom F)
      → safe_boundary F (get_elem? atoms i) end_ms ≡ true
      → drop i atoms ≡ b ∷ rest
      → end_ms ≤ b.start_ms
  unfolding safe_boundary
  safe-after atoms rest i end_ms b safe e =
      let s : safe_boundary F (some b) end_ms ≡ true =
        subst (λ o. safe_boundary F o end_ms ≡ true) (drop-cons i atoms e).0 safe in
      leb→le end_ms b.start_ms s

  first-positive :
      (first : TimedTextAtom F) (others : List (TimedTextAtom F)) (i end_ms : ℕ)
      → IsSpan F first
      → end_ms ≡ latest F (take (suc i) (first ∷ others))
      → first.start_ms < end_ms
  unfolding latest greatest
  first-positive first others i end_ms h e = omega (arith, h.positive, e)

  -- One passage and the passages of the atoms after it
  IsCover-cons :
      (g : Grouping) (first : TimedTextAtom F) (others : List (TimedTextAtom F)) (ordinal : ℕ)
      (s : SelectedBoundary) (p : TimedPassage F) (passages : List (TimedPassage F))
      → IsSpan F first
      → IsBoundary F g.policy g.token_counter g.unsplittable first others s
      → IsPassage F c g first (take s.candidate.end_index others) ordinal s p
      → IsCover g (drop (suc s.candidate.end_index) (first ∷ others)) (suc ordinal) passages
      → IsCover g (first ∷ others) ordinal (p ∷ passages)
  unfolding references is_range_from
  IsCover-cons g first others ordinal s p passages span b made rest = record {
    once =
        ap₂ (λ (l r : List Str). l ++ r) made.ids rest.once
        ∙ map-take-drop (λ (a : TimedTextAtom F). a.atom_id) (suc s.candidate.end_index)
            (first ∷ others);
    apart =
        output_overlaps-cons p (drop (suc s.candidate.end_index) (first ∷ others)) passages
          (λ a more e. rw (made.ends) (
            safe-after (first ∷ others) more (suc s.candidate.end_index) s.candidate.end_ms a b.safe
              e))
          rest.starts rest.apart;
    starts = made.starts;
    measured = (
      record {
        selected = s;
        metadata = made.metadata;
        counted = rw (made.says, made.counts) b.part.counted;
        tokens = λ e. rw (made.counts) (b.limited e).tokens;
        duration = λ e. rw (made.ends, made.starts) (b.limited e).duration;
        flagged = b.flagged;
        marked = b.marked;
        positive =
            rw (made.ends, made.starts)
              (first-positive first others s.candidate.end_index s.candidate.end_ms span
                b.part.ends);
      },
      rest.measured,
    );
    numbered = ground (arith, made.numbered, rest.numbered);
  }

  -- The loop: with as many rounds as atoms it ends with a cover of the atoms, or with an error of
  -- the grouper.
  pub group_from-Ensures :
      (g : Grouping) (rounds : ℕ) (atoms : List (TimedTextAtom F)) (ordinal : ℕ)
      → IsSha256 F c
      → IsGrouping F c g
      → All (IsAtom F c) atoms
      → all_different (ids_of atoms) ≡ true
      → length atoms ≤ rounds
      → Ensures (IsCover g atoms ordinal) (group_from F c g rounds atoms ordinal)
  unfolding group_from references output_overlaps is_range_from
  group_from-Ensures g rounds [] ordinal sha known all d enough =
      returns [] (record { once = refl; apart = refl; starts = tt; measured = tt; numbered = refl })
  group_from-Ensures g zero (first ∷ others) ordinal sha known all d enough = absurd (omega arith)
  group_from-Ensures g (suc rounds) (first ∷ others) ordinal sha known all d enough =
      let spans = All-map (IsAtom F c) (IsSpan F) (first ∷ others) (λ a h. h.span) all in
      bind-Ensures _ _ (find_boundary F g.policy g.token_counter g.unsplittable (first ∷ others)) _
        (find_boundary-Ensures F g.policy g.token_counter g.unsplittable first others spans)
        (λ s b.
          let i : ℕ = s.candidate.end_index in
          let parts =
            all_different-append (ids_of (take (suc i) (first ∷ others)))
              (ids_of (drop (suc i) (first ∷ others)))
              (rw (map-take-drop (λ (a : TimedTextAtom F). a.atom_id) (suc i) (first ∷ others))
                d) in
          let (p, e, made) =
            passage_of-returns F c g first (take i others) ordinal s sha known
              (all.0, All-take (IsAtom F c) i others all.1) parts.0
              (first-positive first others i s.candidate.end_ms all.0.span b.part.ends)
              b.part.readable b.readable in
          bind-Ensures _ _ (passage_of F c g (first ∷ take i others) ordinal s) _
            (ok-Ensures (λ q. q ≡ p) _ p e refl)
            (λ q same.
              bind-Ensures _ _
                (group_from F c g rounds (drop (suc i) (first ∷ others)) (suc ordinal)) _
                (group_from-Ensures g rounds (drop (suc i) (first ∷ others)) (suc ordinal) sha known
                  (All-drop (IsAtom F c) (suc i) (first ∷ others) all) parts.1
                  (omega (arith, length-drop (suc i) (first ∷ others))))
                (λ passages rest. returns (q ∷ passages) (
                  IsCover-cons g first others ordinal s q passages all.0.span b (rw same made)
                    rest))))
