-- ===== src/Media/Grouper/Grouped.antt =====
-- What `group_timed_atoms` promises: every atom once and in order, no overlap, the limits, and no
-- error but its own.
use mdrack.Base.{
  ◌-◌, ◌<◌, ◌≤◌, ◌≡◌, refl, true, false, Option, some, List, map, All, All-map, length, eqb, ◌==◌,
  arith, Bool-cases, ◌⊎◌, inl, inr,
}
use mdrack.Base.Results.{Result, ok}
use mdrack.Base.Text.{Str, codes, str_eq, str_beq, has_content, is_space, utf8_encodable}
use mdrack.Base.Floats.{Floats}
use mdrack.Core.Json.{Json, Fields}
use mdrack.Media.Common.{freeze_metadata, require_text, require_any_text}
use mdrack.Media.Identifiers.{Codec, IsSha256, is_fingerprint}
use mdrack.Media.Identifiers.Made.{IsReadable, representation_id-returns}
use mdrack.Media.Policies.{TimedChunkingPolicy}
use mdrack.Media.Records.{TimedTextAtom, TimedPassage, representation_timed_passage, is_range_from}
use mdrack.Media.Grouper.{GroupingError, TokenCounter, lift}
use mdrack.Media.Grouper.Boundary.{unsplittable_reject}
use mdrack.Media.Grouper.Metrics.{metadata_at, references, output_overlaps}
use mdrack.Media.Grouper.Input.{validate_atoms, fingerprint_payload, TimedGroupingResult}
use mdrack.Media.Grouper.Run.{
  passage_metadata, Grouping, group_from, effective_normalization, grouping_result,
  group_timed_atoms,
}
use mdrack.Media.Grouper.Outcomes.{Ensures, returns, bind-Ensures, expect-Ensures, Ensures-ok}
use mdrack.Media.Grouper.Payload.{
  fingerprint_payload-Freezes, freeze_metadata-returns, fingerprint_of-returns,
}
use mdrack.Media.Grouper.Passages.{IsAtom, IsGrouping}
use mdrack.Media.Grouper.Cover.{ids_of, IsMeasured, IsCover, group_from-Ensures}
use mdrack.Media.Grouper.Made.{IsMade, IsMade-IsAtom, is_fingerprint-IsReadable}
use mdrack.Media.Grouper.Total.{
  validate_atoms-Ensures, effective_normalization-Ensures, build_metrics-returns, same_texts_refl,
}

timed_passage-IsReadable : IsReadable representation_timed_passage
unfolding require_text require_any_text has_content is_space utf8_encodable
timed_passage-IsReadable = refl

module _ (F : Floats) (c : Codec F) where
  -- What holds of a result for its atoms
  pub record IsGrouped (policy : TimedChunkingPolicy) (counter : TokenCounter) (unsplittable : Str)
      (values : List (TimedTextAtom F)) (r : TimedGroupingResult F) : Type 0 where
    pub kept : r.atoms ≡ values
    pub once : references F c r.passages ≡ ids_of F c values
    pub apart : output_overlaps F c r.passages ≡ 0
    pub measured : All (IsMeasured F c policy counter unsplittable) r.passages
    pub numbered : is_range_from 0 (map (λ (p : TimedPassage F). p.ordinal) r.passages) ≡ true

  grouping_result-Ensures :
      (g : Grouping) (values : List (TimedTextAtom F)) (payload fs : Fields F)
      (passages : List (TimedPassage F))
      → freeze_metadata F payload ≡ ok fs
      → IsCover F c g values 0 passages
      → Ensures
          (IsGrouped g.policy g.token_counter g.unsplittable values)
          (grouping_result F c g values payload passages)
  unfolding grouping_result lift
  grouping_result-Ensures g values payload fs passages e k =
      let (m, p, q) =
        build_metrics-returns F c g.policy g.token_counter g.unsplittable values passages
          k.measured in
      let z : eqb m.output_overlap_count 0 ≡ true = ground (arith, q, k.apart) in
      rw (p, k.once, same_texts_refl (ids_of F c values), z, e)
        (returns _ (record {
          kept = refl;
          once = k.once;
          apart = k.apart;
          measured = k.measured;
          numbered = k.numbered;
        }))

  -- The caller's arguments that are not atoms: fingerprints that their constructors accepted.
  pub record IsCaller (counter : TokenCounter) (normalization : Option Str) : Type 0 where
    pub counts_as : is_fingerprint counter.fingerprint ≡ true
    pub normalizes_as : (n : Str) → normalization ≡ some n → is_fingerprint n ≡ true

  group_timed_atoms-Ensures :
      (values : List (TimedTextAtom F)) (policy : TimedChunkingPolicy) (counter : TokenCounter)
      (kind : Str) (resource_identifier normalization : Option Str) (unsplittable : Str)
      → IsSha256 F c
      → All (IsMade F c) values
      → IsCaller counter normalization
      → Ensures (IsGrouped policy counter unsplittable values) (
          group_timed_atoms F c values policy counter kind resource_identifier normalization
            unsplittable)
  unfolding group_timed_atoms lift
  group_timed_atoms-Ensures values policy counter kind ri normalization unsplittable sha made
        caller =
      let all = All-map (IsMade F c) (IsAtom F c) values (IsMade-IsAtom F c) made in
      expect-Ensures _ _ _ _ (λ _. expect-Ensures _ _ _ _ (λ u. expect-Ensures _ _ _ _ (λ k.
        bind-Ensures _ _ (validate_atoms F values ri) _ (validate_atoms-Ensures F c values ri)
          (λ id v.
            bind-Ensures _ _ (effective_normalization F c values normalization) _
              (effective_normalization-Ensures F c values normalization all
                (λ n e. is_fingerprint-IsReadable n (caller.normalizes_as n e)))
              (λ effective readable.
                let payload = fingerprint_payload F policy counter.fingerprint kind unsplittable in
                let (fs, fz) =
                  fingerprint_payload-Freezes F policy counter.fingerprint kind unsplittable
                    (is_fingerprint-IsReadable counter.fingerprint caller.counts_as) k u in
                let (fp, e1, _, rd) = fingerprint_of-returns F c payload fs sha fz in
                let (rep, e2, named) =
                  representation_id-returns F c id representation_timed_passage fp effective sha v.0
                    timed_passage-IsReadable rd readable in
                let g : Grouping = record {
                  policy = policy;
                  token_counter = counter;
                  token_count_kind = kind;
                  unsplittable = unsplittable;
                  resource_identifier = id;
                  grouper_fingerprint = fp;
                  passage_representation_id = rep;
                } in
                let known : IsGrouping F c g = record {
                  resource = v.0;
                  representation = named;
                  fingerprint = rd;
                  kind = k;
                } in
                rw (e1, e2)
                  (bind-Ensures _ _ (group_from F c g (length values) values 0) _
                    (group_from-Ensures F c g (length values) values 0 sha known all v.1
                      (omega arith))
                    (λ passages cover.
                      grouping_result-Ensures g values payload fs passages
                        (freeze_metadata-returns F payload fs fz.0) cover)))))))

  module _ (values : List (TimedTextAtom F)) (policy : TimedChunkingPolicy) (counter : TokenCounter)
      (kind : Str) (resource_identifier normalization : Option Str) (unsplittable : Str)
      (sha : IsSha256 F c) (made : All (IsMade F c) values)
      (caller : IsCaller counter normalization) where
    abbrev pub grouping_run : Result GroupingError (TimedGroupingResult F)
    grouping_run =
        group_timed_atoms F c values policy counter kind resource_identifier normalization
          unsplittable

    ensured : Ensures (IsGrouped policy counter unsplittable values) grouping_run
    ensured =
        group_timed_atoms-Ensures values policy counter kind resource_identifier normalization
          unsplittable sha made caller

    -- For atoms and fingerprints that their constructors returned and a SHA-256 that writes 64
    -- hexadecimal digits, when group_timed_atoms returns, the source atom ids of its passages,
    -- one passage after the other, are the ids of all atoms in their order, no passage starts
    -- before the one before it ends, and the passages are numbered from 0 on.
    pub group_timed_atoms-once :
        {r : TimedGroupingResult F}
        → grouping_run ≡ ok r
        → (references F c r.passages ≡ map (λ (a : TimedTextAtom F). a.atom_id) values)
          × (output_overlaps F c r.passages ≡ 0)
          × (is_range_from 0 (map (λ (p : TimedPassage F). p.ordinal) r.passages) ≡ true)
    group_timed_atoms-once h =
        let k = Ensures-ok _ grouping_run ensured h in (k.once, k.apart, k.numbered)

    not_flagged :
        (p : TimedPassage F) (m : IsMeasured F c policy counter unsplittable p)
        → unsplittable ≡ unsplittable_reject
        → m.selected.hard_limit_exceeded ≡ false
    not_flagged p m rejects = elim (Bool-cases m.selected.hard_limit_exceeded) [
      | inr e ↦ e
      | inl e ↦
          let t : (unsplittable == unsplittable_reject) ≡ true =
            (str_eq.beq_iff unsplittable unsplittable_reject).1 rejects in
          let f = m.flagged e in absurd (cc)
    ]

    -- For atoms and fingerprints that their constructors returned and a SHA-256 that writes 64
    -- hexadecimal digits, when group_timed_atoms returns under the policy that rejects what
    -- cannot be split, every passage has at most the hard limit of tokens, lasts at most the hard
    -- limit of milliseconds, and ends after it starts.
    pub group_timed_atoms-limits :
        {r : TimedGroupingResult F}
        → unsplittable ≡ unsplittable_reject
        → grouping_run ≡ ok r
        → All
            (λ (p : TimedPassage F).
              (p.token_count.count ≤ policy.hard_max_tokens)
              × (p.end_ms - p.start_ms ≤ policy.hard_max_duration_ms)
              × (p.start_ms < p.end_ms))
            r.passages
    group_timed_atoms-limits {r} rejects h =
        All-map _ _ r.passages
          (λ p m.
            let within = not_flagged p m rejects in
            (m.tokens within, m.duration within, m.positive))
          (Ensures-ok _ grouping_run ensured h).measured

    flags-measured :
        (p : TimedPassage F) (m : IsMeasured F c policy counter unsplittable p)
        → (counter.count p.text ≡ some p.token_count.count)
          × (((p.token_count.count ≤ policy.hard_max_tokens)
                × (p.end_ms - p.start_ms ≤ policy.hard_max_duration_ms))
              ⊎ (metadata_at F c (codes "hard_limit_exceeded") p.metadata ≡ ok (Json.bool true)))
    unfolding metadata_at passage_metadata str_beq
    flags-measured p m = (
      m.counted,
      elim (Bool-cases m.selected.hard_limit_exceeded) [
        | inl e ↦ inr (rw (m.metadata, e) refl)
        | inr e ↦ inl (m.tokens e, m.duration e)
      ],
    )

    -- For atoms and fingerprints that their constructors returned and a SHA-256 that writes 64
    -- hexadecimal digits, when group_timed_atoms returns, every passage carries the token count
    -- of its own text, and it keeps both hard limits or says in its metadata that it does not.
    pub group_timed_atoms-flags :
        {r : TimedGroupingResult F}
        → grouping_run ≡ ok r
        → All
            (λ (p : TimedPassage F).
              (counter.count p.text ≡ some p.token_count.count)
              × (((p.token_count.count ≤ policy.hard_max_tokens)
                    × (p.end_ms - p.start_ms ≤ policy.hard_max_duration_ms))
                  ⊎ (metadata_at F c (codes "hard_limit_exceeded") p.metadata
                      ≡ ok (Json.bool true))))
            r.passages
    group_timed_atoms-flags {r} h =
        All-map _ _ r.passages flags-measured (Ensures-ok _ grouping_run ensured h).measured
