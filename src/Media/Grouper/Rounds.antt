-- ===== src/Media/Grouper/Rounds.antt =====
-- A round of the loop of `_find_boundary` ends with a boundary that is safe, or there is a next atom.
use mdrack.Base.{
  ℕ, suc, ◌<◌, ◌≡◌, refl, Bool, true, false, not, ◌&&◌, ◌||◌, Option, none, some, List, [], ◌∷◌,
  ◌++◌, All, All-take, All-append, inl, inr, length, length-append, get_elem?, take, if◌then◌else◌,
  Bool-cases, Option-cases, arith, leb, ◌==◌,
}
use mdrack.Base.Results.{ok}
use mdrack.Base.Text.{Str, codes, str_eq, utf8_encodable}
use mdrack.Base.Floats.{Floats}
use mdrack.Media.Policies.{TimedChunkingPolicy}
use mdrack.Media.Records.{TimedTextAtom}
use mdrack.Media.Grouper.{
  at, TokenCounter, count_tokens, BoundaryCandidate, SelectedBoundary, max_from, select_candidate,
  join_atom_texts,
}
use mdrack.Media.Grouper.Boundary.{
  unsplittable_reject, split_last, Round, found, onward, select_found, is_none, safe_boundary,
  candidate, next_would_exceed_hard_limit, keep_candidate, within_limits, beyond_limits,
  beyond_with, boundary_round,
}
use mdrack.Media.Grouper.Outcomes.{
  Ensures, returns, refuses, bind-Ensures, map-Ensures, count_tokens-Ensures,
}
use mdrack.Media.Grouper.Texts.{IsSpan, join_atom_texts-Ensures}
use mdrack.Media.Grouper.Places.{
  AllSplit, split_last-All, get_elem?-is_none, or_weaken, suc_lt, safe_boundary-false,
}
use mdrack.Media.Grouper.Candidates.{IsPart, IsLimited, latest, candidate-Ensures, max_from-All}

module _ (F : Floats) (policy : TimedChunkingPolicy) (counter : TokenCounter) (unsplittable : Str)
    (first : TimedTextAtom F) (others : List (TimedTextAtom F)) where
  abbrev atoms : List (TimedTextAtom F)
  atoms = first ∷ others

  -- What holds of every member of `candidates`
  pub record IsKept (c : BoundaryCandidate) : Type 0 where
    pub part : IsPart F counter (first ∷ others) c
    pub limited : IsLimited policy first.start_ms c
    pub safe : safe_boundary F (get_elem? (first ∷ others) (suc c.end_index)) c.end_ms ≡ true

  -- What holds of the boundary that is returned
  pub record IsBoundary (s : SelectedBoundary) : Type 0 where
    pub part : IsPart F counter (first ∷ others) s.candidate
    pub safe :
        safe_boundary F (get_elem? (first ∷ others) (suc s.candidate.end_index)) s.candidate.end_ms
        ≡ true
    pub limited : s.hard_limit_exceeded ≡ false → IsLimited policy first.start_ms s.candidate
    pub flagged : s.hard_limit_exceeded ≡ true → (unsplittable == unsplittable_reject) ≡ false
    pub marked : s.unsplittable ≡ s.hard_limit_exceeded
    pub readable : utf8_encodable s.reason ≡ true

  -- What holds after round `i`
  abbrev pub AfterRound : ℕ → Round → Type 0
  AfterRound i (found s) = IsBoundary s
  AfterRound i (onward kept exceeded) = All IsKept kept × (suc i < suc (length others))

  select_found-Ensures :
      (i : ℕ) (cs : List BoundaryCandidate) (reason : Str)
      → All IsKept cs
      → 0 < length cs
      → utf8_encodable reason ≡ true
      → Ensures (AfterRound i) (select_found cs reason)
  unfolding select_found select_candidate
  select_found-Ensures i [] reason h some_kept u = absurd (omega arith)
  select_found-Ensures i (c ∷ cs) reason h some_kept u =
      let k : IsKept (max_from c cs) = max_from-All IsKept c cs h.0 h.1 in
      returns _ (record {
        part = k.part;
        safe = k.safe;
        limited = λ e. k.limited;
        flagged = λ e. absurd (cc);
        marked = refl;
        readable = u;
      })

  same_tokens :
      (c d : BoundaryCandidate)
      → IsPart F counter atoms c
      → IsPart F counter atoms d
      → d.end_index ≡ c.end_index
      → d.token_count ≡ c.token_count
  same_tokens c d p q e =
      let t : d.text ≡ c.text = cc (p.joined, q.joined, e) in cc (p.counted, q.counted, t)

  -- A candidate that is scored again is the same passage.
  rescored-Ensures :
      (c : BoundaryCandidate) (risk : Bool)
      → All (IsSpan F) atoms
      → IsKept c
      → Ensures IsKept (candidate F policy counter atoms c.end_index c.end_ms risk)
  rescored-Ensures c risk h k =
      map-Ensures _ _ (candidate F policy counter atoms c.end_index c.end_ms risk)
        (λ d p.
          let t : d.token_count ≡ c.token_count = same_tokens c d k.part p.0 p.1 in
          record {
            part = p.0;
            limited = record {
              tokens = omega (arith, t, k.limited.tokens);
              duration = rw (p.2) k.limited.duration;
            };
            safe = rw (p.1, p.2) k.safe;
          })
        (candidate-Ensures F policy counter atoms c.end_index c.end_ms risk h k.part.within
          k.part.ends)

  next_would_exceed_hard_limit-Ensures :
      (i end_ms : ℕ)
      → All (IsSpan F) atoms
      → Ensures (λ _. Unit {0}) (next_would_exceed_hard_limit F policy counter atoms i end_ms)
  unfolding next_would_exceed_hard_limit at
  next_would_exceed_hard_limit-Ensures i end_ms h = elim (Option-cases (get_elem? others i)) [
    | inl e ↦ rw (e, next_would_exceed_hard_limit) (returns _ tt)
    | inr (next, e) ↦
        rw (e, next_would_exceed_hard_limit)
          (bind-Ensures _ _ (join_atom_texts F (first ∷ take (suc i) others)) _
            (join_atom_texts-Ensures F first (take (suc i) others)
              (h.0, All-take (IsSpan F) (suc i) others h.1))
            (λ text _.
              bind-Ensures _ _ (count_tokens counter text) _ (count_tokens-Ensures counter text)
                (λ n _. returns _ tt)))
  ]

  -- The candidates after a round, not empty where `current` was kept
  keep_candidate-Ensures :
      (c : BoundaryCandidate) (risk : Bool) (cs : List BoundaryCandidate) (kept : Bool)
      → All (IsSpan F) atoms
      → IsKept c
      → All IsKept cs
      → Ensures
          (λ ks. All IsKept ks × (kept ≡ true → 0 < length ks))
          (keep_candidate F policy counter atoms c.end_index c.end_ms risk cs kept)
  unfolding keep_candidate
  keep_candidate-Ensures c risk cs false h k all = returns cs (all, λ e. absurd (cc))
  keep_candidate-Ensures c risk cs true h k all =
      bind-Ensures _ _ (candidate F policy counter atoms c.end_index c.end_ms risk) _
        (rescored-Ensures c risk h k)
        (λ d kd. returns _ (
          All-append IsKept cs (d ∷ []) all (kd, tt),
          λ e. omega (arith, length-append cs (d ∷ [])),
        ))

  -- The last tests of the loop's body
  last_tests-Ensures :
      (i : ℕ) (risk soft at_end : Bool) (ks : List BoundaryCandidate) (exceeded : Bool)
      → All IsKept ks
      → ((risk || soft || at_end) ≡ true → 0 < length ks)
      → (at_end ≡ false → suc i < suc (length others))
      → Ensures (AfterRound i) (
          if risk
          then select_found ks (codes "hard_limit")
          else if soft
          then select_found ks (codes "soft_max")
          else if at_end
          then select_found ks (codes "end_of_input")
          else ok (onward ks exceeded))
  unfolding utf8_encodable
  last_tests-Ensures i true soft at_end ks exceeded all some_kept next =
      select_found-Ensures i ks (codes "hard_limit") all (some_kept refl) refl
  last_tests-Ensures i false true at_end ks exceeded all some_kept next =
      select_found-Ensures i ks (codes "soft_max") all (some_kept refl) refl
  last_tests-Ensures i false false true ks exceeded all some_kept next =
      select_found-Ensures i ks (codes "end_of_input") all (some_kept refl) refl
  last_tests-Ensures i false false false ks exceeded all some_kept next = returns _ (all, next refl)

  within_limits-Ensures :
      (c : BoundaryCandidate) (duration_ms : ℕ) (cs : List BoundaryCandidate) (exceeded : Bool)
      → All (IsSpan F) atoms
      → IsKept c
      → All IsKept cs
      → Ensures (AfterRound c.end_index) (
          within_limits F policy counter atoms c.end_index c.end_ms c.token_count duration_ms cs
            exceeded)
  unfolding within_limits
  within_limits-Ensures c duration_ms cs exceeded h k all =
      let eligible : Bool =
        leb policy.soft_min_tokens c.token_count && leb policy.soft_min_duration_ms duration_ms in
      let soft : Bool =
        leb policy.soft_max_tokens c.token_count || leb policy.soft_max_duration_ms duration_ms in
      let at_end : Bool = is_none (get_elem? others c.end_index) in
      bind-Ensures _ _ (next_would_exceed_hard_limit F policy counter atoms c.end_index c.end_ms) _
        (next_would_exceed_hard_limit-Ensures c.end_index c.end_ms h)
        (λ risk _.
          bind-Ensures _ _
            (keep_candidate F policy counter atoms c.end_index c.end_ms risk cs
              (eligible || risk || soft || at_end))
            _ (keep_candidate-Ensures c risk cs (eligible || risk || soft || at_end) h k all)
            (λ ks p.
              last_tests-Ensures c.end_index risk soft at_end ks exceeded p.0
                (λ e. p.1 (or_weaken eligible risk soft at_end e))
                (λ e. suc_lt (get_elem?-is_none others c.end_index e))))

  beyond_with-Ensures :
      (c : BoundaryCandidate) (b : Bool) (cs : List BoundaryCandidate)
      (o : Option (List BoundaryCandidate × BoundaryCandidate))
      → All (IsSpan F) atoms
      → IsPart F counter atoms c
      → safe_boundary F (get_elem? atoms (suc c.end_index)) c.end_ms ≡ b
      → All IsKept cs
      → AllSplit IsKept o
      → Ensures (AfterRound c.end_index) (beyond_with F policy counter unsplittable atoms c b cs o)
  unfolding beyond_with utf8_encodable
  beyond_with-Ensures c b cs (some (earlier, last)) h p e all k =
      bind-Ensures _ _ (candidate F policy counter atoms last.end_index last.end_ms true) _
        (rescored-Ensures last true h k.1)
        (λ d kd.
          select_found-Ensures c.end_index (earlier ++ (d ∷ [])) (codes "hard_limit")
            (All-append IsKept earlier (d ∷ []) k.0 (kd, tt))
            (omega (arith, length-append earlier (d ∷ []))) refl)
  beyond_with-Ensures c false cs none h p e all k =
      returns _ (all, suc_lt (safe_boundary-false others c.end_index c.end_ms e))
  beyond_with-Ensures c true cs none h p e all k =
      elim (Bool-cases (unsplittable == unsplittable_reject)) [
        | inl u ↦ rw u (refuses _)
        | inr u ↦ rw u (
            returns _ (record {
              part = p;
              safe = e;
              limited = λ f. absurd (cc);
              flagged = λ f. u;
              marked = refl;
              readable = refl;
            }))
      ]

  -- The tests of the loop's body, for a candidate with its two answers
  tests-Ensures :
      (c : BoundaryCandidate) (hard safe : Bool) (duration_ms : ℕ) (cs : List BoundaryCandidate)
      (exceeded : Bool)
      → All (IsSpan F) atoms
      → IsPart F counter atoms c
      → (hard ≡ false → IsLimited policy first.start_ms c)
      → safe_boundary F (get_elem? atoms (suc c.end_index)) c.end_ms ≡ safe
      → All IsKept cs
      → Ensures (AfterRound c.end_index) (
          if hard
          then beyond_limits F policy counter unsplittable atoms c safe cs
          else if not safe
          then ok (onward cs exceeded)
          else within_limits F policy counter atoms c.end_index c.end_ms c.token_count duration_ms
              cs exceeded)
  unfolding beyond_limits
  tests-Ensures c true safe duration_ms cs exceeded h p limited e all =
      beyond_with-Ensures c safe cs (split_last cs) h p e all (split_last-All IsKept cs all)
  tests-Ensures c false false duration_ms cs exceeded h p limited e all =
      returns _ (all, suc_lt (safe_boundary-false others c.end_index c.end_ms e))
  tests-Ensures c false true duration_ms cs exceeded h p limited e all =
      within_limits-Ensures c duration_ms cs exceeded h
        (record { part = p; limited = limited refl; safe = e }) all

  -- One round at index `i`, where `end_ms` is the latest end of the atoms up to it
  pub boundary_round-Ensures :
      (i end_ms : ℕ) (cs : List BoundaryCandidate) (exceeded : Bool)
      → All (IsSpan F) atoms
      → i < length atoms
      → end_ms ≡ latest F (take (suc i) atoms)
      → All IsKept cs
      → Ensures
          (AfterRound i)
          (boundary_round F policy counter unsplittable atoms i end_ms cs exceeded)
  unfolding boundary_round at
  boundary_round-Ensures i end_ms cs exceeded h below ends all =
      bind-Ensures _ _ (candidate F policy counter atoms i end_ms false) _
        (candidate-Ensures F policy counter atoms i end_ms false h below ends)
        (λ c p.
          rw (← p.1, ← p.2)
            (tests-Ensures c _ _ _ cs exceeded h p.0
              (λ e. record { tokens = ground arith; duration = ground arith }) refl all))
