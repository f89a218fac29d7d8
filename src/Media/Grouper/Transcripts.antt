-- ===== src/Media/Grouper/Transcripts.antt =====
-- The atoms of a transcript that its constructor accepts are atoms that the grouper accepts.
use mdrack.Base.{
  ◌≡◌, refl, Bool, true, ◌&&◌, some, List, [], ◌∷◌, map, All, All-map, subst, ltb, ◌==◌, arith,
}
use mdrack.Base.Results.{ok, require, >>=-eq-ok, >>-eq-ok, require-eq-ok}
use mdrack.Base.Text.{Str, str_eq}
use mdrack.Base.Floats.{Floats}
use mdrack.Core.Errors.{value_error}
use mdrack.Media.Identifiers.{
  Codec, id_resource, id_representation, validate_media_id, representation_id,
}
use mdrack.Media.Identifiers.Made.{IsId}
use mdrack.Media.Records.{
  TimedTextAtom, TranscriptArtifact, representation_audio_transcript, all_different, is_range_from,
  every, no_neighbours, make_transcript_artifact, require_optional_text, require_duration,
}
use mdrack.Media.Grouper.Input.{expect, expect_value, resource_of, validate_values, validate_atoms}
use mdrack.Media.Grouper.Made.{IsMade, IsMade-IsAtom, validate_media_id-returned}
use mdrack.Media.Common.{freeze_metadata}
use mdrack.Media.Grouper.Texts.{IsSpan}

every-All :
    {A : Type 0} (test : A → Bool) (xs : List A)
    → every test xs ≡ true
    → All (λ x. test x ≡ true) xs
unfolding every
every-All test [] h = tt
every-All test (x ∷ xs) h = (ground arith, every-All test xs (ground arith))

All-every :
    {A : Type 0} (test : A → Bool) (xs : List A)
    → All (λ x. test x ≡ true) xs
    → every test xs ≡ true
unfolding every
All-every test [] h = refl
All-every test (x ∷ xs) h = rw (h.0, All-every test xs h.1) refl

module _ (F : Floats) where
  -- Atoms that do not overlap are ordered by their starts.
  starts-ordered :
      (atoms : List (TimedTextAtom F))
      → All (IsSpan F) atoms
      → no_neighbours (λ (p q : TimedTextAtom F). ltb q.start_ms p.end_ms) atoms ≡ true
      → no_neighbours (λ (p q : TimedTextAtom F). ltb q.start_ms p.start_ms) atoms ≡ true
  unfolding no_neighbours
  starts-ordered [] h k = refl
  starts-ordered (a ∷ []) h k = refl
  starts-ordered (a ∷ b ∷ atoms) h k =
      let s = h.0.positive in
      let r = starts-ordered (b ∷ atoms) h.1 (ground arith) in ground (arith, s, r)

  -- The contract that the grouper compares with the first atom
  same-contract :
      (resource producer normalization : Str) (first : TimedTextAtom F)
      (atoms : List (TimedTextAtom F))
      → first.producer_fingerprint ≡ producer
      → first.normalization_fingerprint ≡ normalization
      → All (λ (a : TimedTextAtom F). (a.resource_id == resource) ≡ true) atoms
      → All (λ (a : TimedTextAtom F). (a.producer_fingerprint == producer) ≡ true) atoms
      → All (λ (a : TimedTextAtom F). (a.normalization_fingerprint == normalization) ≡ true) atoms
      → All
          (λ (a : TimedTextAtom F).
            ((a.resource_id == resource)
              && (a.producer_fingerprint == first.producer_fingerprint)
              && (a.normalization_fingerprint == first.normalization_fingerprint))
            ≡ true)
          atoms
  same-contract resource producer normalization first [] p q r s t = tt
  same-contract resource producer normalization first (a ∷ atoms) p q r s t = (
    rw (p, q, r.0, s.0, t.0) refl,
    same-contract resource producer normalization first atoms p q r.1 s.1 t.1,
  )

  validate_values-returns :
      (resource producer normalization : Str) (atoms : List (TimedTextAtom F))
      → All (IsSpan F) atoms
      → All (λ (a : TimedTextAtom F). (a.resource_id == resource) ≡ true) atoms
      → All (λ (a : TimedTextAtom F). (a.producer_fingerprint == producer) ≡ true) atoms
      → All (λ (a : TimedTextAtom F). (a.normalization_fingerprint == normalization) ≡ true) atoms
      → is_range_from 0 (map (λ (a : TimedTextAtom F). a.ordinal) atoms) ≡ true
      → all_different (map (λ (a : TimedTextAtom F). a.atom_id) atoms) ≡ true
      → no_neighbours (λ (p q : TimedTextAtom F). ltb q.start_ms p.end_ms) atoms ≡ true
      → validate_values F atoms resource ≡ ok resource
  unfolding validate_values expect
  validate_values-returns resource producer normalization [] h r s t o d n = refl
  validate_values-returns resource producer normalization (a ∷ atoms) h r s t o d n =
      let p = (str_eq.beq_iff a.producer_fingerprint producer).0 s.0 in
      let q = (str_eq.beq_iff a.normalization_fingerprint normalization).0 t.0 in
      rw
        (
          All-every _ (a ∷ atoms)
              (same-contract resource producer normalization a (a ∷ atoms) p q r s t),
          o,
          d,
          starts-ordered (a ∷ atoms) h n,
        )
        refl

  validate_atoms-returns :
      (resource : Str) (atoms : List (TimedTextAtom F))
      → IsId id_resource resource
      → validate_values F atoms resource ≡ ok resource
      → validate_atoms F atoms (some resource) ≡ ok resource
  unfolding validate_atoms resource_of expect_value
  validate_atoms-returns resource atoms v e = rw v e

module _ (F : Floats) (c : Codec F) where
  -- When the constructor of a transcript accepts atoms that their constructors returned, it keeps
  -- them, and the grouper's validation of these atoms under the transcript's resource accepts
  -- them and returns that resource.
  pub make_transcript_artifact-validate_atoms :
      (t : TranscriptArtifact F) {made : TranscriptArtifact F}
      → All (IsMade F c) t.atoms
      → make_transcript_artifact F c t ≡ ok made
      → (made.atoms ≡ t.atoms)
        × (validate_atoms F made.atoms (some made.resource_id) ≡ ok made.resource_id)
  unfolding make_transcript_artifact
  make_transcript_artifact-validate_atoms t {made} atoms returned =
      let (x1, p1, r1) =
        >>=-eq-ok (validate_media_id t.resource_id (some id_resource)) _ returned in
      let (x2, p2, r2) =
        >>=-eq-ok (validate_media_id t.representation_id (some id_representation)) _ r1 in
      let (p3, r3) =
        >>-eq-ok (require (t.representation_kind == representation_audio_transcript) value_error) _
          r2 in
      let (x4, p4, r4) =
        >>=-eq-ok
          (representation_id F c t.resource_id t.representation_kind t.producer_fingerprint
            t.normalization_fingerprint)
          _ r3 in
      let (p5, r5) = >>-eq-ok (require (t.representation_id == x4) value_error) _ r4 in
      let same_resource : TimedTextAtom F → Bool = λ a. a.resource_id == t.resource_id in
      let same_producer : TimedTextAtom F → Bool =
        λ a. a.producer_fingerprint == t.producer_fingerprint in
      let same_normal : TimedTextAtom F → Bool =
        λ a. a.normalization_fingerprint == t.normalization_fingerprint in
      let (p6, r6) = >>-eq-ok (require (every same_resource t.atoms) value_error) _ r5 in
      let (p7, r7) = >>-eq-ok (require (every same_producer t.atoms) value_error) _ r6 in
      let (p8, r8) = >>-eq-ok (require (every same_normal t.atoms) value_error) _ r7 in
      let ids = map (λ (a : TimedTextAtom F). a.atom_id) t.atoms in
      let ordinals = map (λ (a : TimedTextAtom F). a.ordinal) t.atoms in
      let overlaps : TimedTextAtom F → TimedTextAtom F → Bool = λ p q. ltb q.start_ms p.end_ms in
      let (p9, r9) = >>-eq-ok (require (all_different ids) value_error) _ r8 in
      let (p10, r10) = >>-eq-ok (require (is_range_from 0 ordinals) value_error) _ r9 in
      let (p11, r11) = >>-eq-ok (require (no_neighbours overlaps t.atoms) value_error) _ r10 in
      let (p12, r12) = >>-eq-ok (require_optional_text t.language) _ r11 in
      let (p13, r13) = >>-eq-ok (require_duration F t.duration_ms t.atoms) _ r12 in
      let (m, p14, r14) = >>=-eq-ok (freeze_metadata F t.metadata) _ r13 in
      let e : record t { metadata = m } ≡ made = cc in
      subst
        (λ (u : TranscriptArtifact F).
          (u.atoms ≡ t.atoms) × (validate_atoms F u.atoms (some u.resource_id) ≡ ok u.resource_id))
        e
        (
          refl,
          validate_atoms-returns F t.resource_id t.atoms
              (validate_media_id-returned t.resource_id id_resource p1)
              (validate_values-returns F t.resource_id t.producer_fingerprint
                t.normalization_fingerprint t.atoms
                (All-map _ _ t.atoms (λ a h. (IsMade-IsAtom F c a h).span) atoms)
                (every-All same_resource t.atoms (require-eq-ok _ value_error p6))
                (every-All same_producer t.atoms (require-eq-ok _ value_error p7))
                (every-All same_normal t.atoms (require-eq-ok _ value_error p8))
                (require-eq-ok _ value_error p10) (require-eq-ok _ value_error p9)
                (require-eq-ok _ value_error p11)),
        )
