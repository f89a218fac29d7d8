-- ===== src/Media/Grouper/Passages.antt =====
-- The passage of a boundary is accepted by the constructor of `TimedPassage`.
use mdrack.Base.{
  ℕ, zero, suc, ◌-◌, ◌<◌, ◌≡◌, refl, true, some, List, [], ◌∷◌, ◌++◌, map, All, length, get_elem?,
  contains, lt→ltb, arith,
}
use mdrack.Base.Results.{ok, traverse}
use mdrack.Base.Order.{sort_by}
use mdrack.Base.Text.{Str, codes, str_eq, str_lt, utf8_encodable}
use mdrack.Base.Floats.{Floats}
use mdrack.Core.Freeze.{fields_list, fields_of, field_before}
use mdrack.Media.Common.{require_text, require_any_text, freeze_json, freeze_metadata}
use mdrack.Media.Identifiers.{
  Codec, IsSha256, validate_media_id, id_atom, id_resource, id_passage, id_representation,
}
use mdrack.Media.Identifiers.Made.{IsId, IsReadable, passage_id-returns, require_int-zero}
use mdrack.Media.Records.{
  TokenCount, TimedTextAtom, TimedPassage, token_count_kinds, all_different, make_token_count,
  make_timed_passage,
}
use mdrack.Media.Grouper.{lift, at, SelectedBoundary}
use mdrack.Media.Grouper.Run.{Grouping, passage_metadata, passage_of}
use mdrack.Media.Grouper.Payload.{fingerprint-IsReadable}
use mdrack.Media.Grouper.Texts.{IsText, IsSpan}
use mdrack.Media.Grouper.Candidates.{get_elem?-All}

at-returns :
    {A : Type 0} (xs : List A) (i : ℕ)
    → i < length xs
    → (x : A) × (at xs i ≡ ok x) × (get_elem? xs i ≡ some x)
unfolding at
at-returns [] i h = absurd (omega arith)
at-returns (x ∷ xs) zero h = (x, refl, refl)
at-returns (x ∷ xs) (suc i) h = at-returns xs i (omega arith)

IsText-IsReadable : (s : Str) → IsText s → IsReadable s
unfolding require_text require_any_text
IsText-IsReadable s p = rw (p.0, p.1) refl

traverse-IsId :
    (kind : Str) (ids : List Str)
    → All (IsId kind) ids
    → traverse (λ (id : Str). validate_media_id id (some kind)) ids ≡ ok ids
unfolding traverse
traverse-IsId kind [] h = refl
traverse-IsId kind (id ∷ ids) h = rw (h.0, traverse-IsId kind ids h.1) refl

module _ (F : Floats) (c : Codec F) where
  -- What the constructor of an atom guarantees to the grouper
  pub record IsAtom (a : TimedTextAtom F) : Type 0 where
    pub span : IsSpan F a
    pub id : IsId id_atom a.atom_id
    pub normal : IsReadable a.normalization_fingerprint

  -- What is known of the local variables in the loop
  pub record IsGrouping (g : Grouping) : Type 0 where
    pub resource : IsId id_resource g.resource_identifier
    pub representation : IsId id_representation g.passage_representation_id
    pub fingerprint : IsReadable g.grouper_fingerprint
    pub kind : contains g.token_count_kind token_count_kinds ≡ true

  -- The passage holds what the boundary and its atoms say.
  pub record IsPassage (g : Grouping) (first : TimedTextAtom F) (more : List (TimedTextAtom F))
      (ordinal : ℕ) (selected : SelectedBoundary) (p : TimedPassage F) : Type 0 where
    pub ids : p.source_atom_ids ≡ map (λ (a : TimedTextAtom F). a.atom_id) (first ∷ more)
    pub starts : p.start_ms ≡ first.start_ms
    pub ends : p.end_ms ≡ selected.candidate.end_ms
    pub says : p.text ≡ selected.candidate.text
    pub counts : p.token_count.count ≡ selected.candidate.token_count
    pub numbered : p.ordinal ≡ ordinal
    pub resource : p.resource_id ≡ g.resource_identifier
    pub metadata : p.metadata ≡ passage_metadata F c selected
    pub named : IsId id_passage p.passage_id

  freeze_metadata-passage_metadata :
      (s : SelectedBoundary)
      → utf8_encodable s.reason ≡ true
      → freeze_metadata F (passage_metadata F c s) ≡ ok (passage_metadata F c s)
  unfolding freeze_metadata freeze_json require_any_text traverse sort_by fields_list fields_of
      field_before str_lt utf8_encodable passage_metadata
  freeze_metadata-passage_metadata s h = rw h refl

  make_token_count-returns :
      (t : TokenCount) → contains t.kind token_count_kinds ≡ true → make_token_count t ≡ ok t
  unfolding make_token_count
  make_token_count-returns t h = rw (require_int-zero t.count, h) refl

  make_timed_passage-returns :
      (p : TimedPassage F) (id : Str) (ids : List Str)
      → p.source_atom_ids ≡ id ∷ ids
      → IsId id_passage p.passage_id
      → IsId id_resource p.resource_id
      → IsId id_representation p.representation_id
      → p.start_ms < p.end_ms
      → IsReadable p.text
      → All (IsId id_atom) (id ∷ ids)
      → all_different (id ∷ ids) ≡ true
      → freeze_metadata F p.metadata ≡ ok p.metadata
      → make_timed_passage F p ≡ ok p
  unfolding make_timed_passage
  make_timed_passage-returns p id ids e n r q span t all d m =
      rw
        (
          n,
          r,
          q,
          require_int-zero p.start_ms,
          require_int-zero p.end_ms,
          lt→ltb p.start_ms p.end_ms span,
          t,
          require_int-zero p.ordinal,
          e,
          traverse-IsId id_atom (id ∷ ids) all,
          d,
          m,
          lt→ltb 0 (suc (length ids)) (omega arith),
        )
        refl

  All-IsAtom-ids :
      (atoms : List (TimedTextAtom F))
      → All IsAtom atoms
      → All (IsId id_atom) (map (λ (a : TimedTextAtom F). a.atom_id) atoms)
  All-IsAtom-ids [] h = tt
  All-IsAtom-ids (a ∷ atoms) h = (h.0.id, All-IsAtom-ids atoms h.1)

  pub passage_of-returns :
      (g : Grouping) (first : TimedTextAtom F) (more : List (TimedTextAtom F)) (ordinal : ℕ)
      (selected : SelectedBoundary)
      → IsSha256 F c
      → IsGrouping g
      → All IsAtom (first ∷ more)
      → all_different (map (λ (a : TimedTextAtom F). a.atom_id) (first ∷ more)) ≡ true
      → first.start_ms < selected.candidate.end_ms
      → IsText selected.candidate.text
      → utf8_encodable selected.reason ≡ true
      → (p : TimedPassage F) × (passage_of F c g (first ∷ more) ordinal selected ≡ ok p)
        × IsPassage g first more ordinal selected p
  unfolding passage_of at lift
  passage_of-returns g first more ordinal selected sha known all d span t u =
      let digest = fingerprint-IsReadable _ (sha.digest selected.candidate.text) in
      let (last, e, f) = at-returns (first ∷ more) (length (first ∷ more) - 1) (omega arith) in
      let last_id = (get_elem?-All IsAtom (first ∷ more) (length (first ∷ more) - 1) all f).id in
      let (id, made, named) =
        passage_id-returns F c g.resource_identifier g.grouper_fingerprint ordinal first.atom_id
          last.atom_id first.start_ms selected.candidate.end_ms
          (codes "sha256:" ++ c.sha256_hex selected.candidate.text) sha known.resource
          known.fingerprint all.0.id last_id digest in
      let tokens : TokenCount = record {
        count = selected.candidate.token_count;
        kind = g.token_count_kind;
        counter_fingerprint = g.token_counter.fingerprint;
      } in
      let p : TimedPassage F = record {
        passage_id = id;
        resource_id = g.resource_identifier;
        representation_id = g.passage_representation_id;
        start_ms = first.start_ms;
        end_ms = selected.candidate.end_ms;
        text = selected.candidate.text;
        ordinal = ordinal;
        token_count = tokens;
        source_atom_ids = map (λ (a : TimedTextAtom F). a.atom_id) (first ∷ more);
        grouper_fingerprint = g.grouper_fingerprint;
        metadata = passage_metadata F c selected;
      } in
      let accepted : make_timed_passage F p ≡ ok p =
        make_timed_passage-returns p first.atom_id (map (λ (a : TimedTextAtom F). a.atom_id) more)
          refl named known.resource known.representation span
          (IsText-IsReadable selected.candidate.text t) (All-IsAtom-ids (first ∷ more) all) d
          (freeze_metadata-passage_metadata selected u) in
      (
        p,
        rw (t.1, e, made, make_token_count-returns tokens known.kind, accepted) refl,
        record {
          ids = refl;
          starts = refl;
          ends = refl;
          says = refl;
          counts = refl;
          numbered = refl;
          resource = refl;
          metadata = refl;
          named = named;
        },
      )
