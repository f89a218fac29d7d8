-- ===== src/Media/Records.antt =====
-- The records of timed text, of packages/mdrack-media/src/mdrack_media/records.py. A fingerprint is its
-- `value`. The constructor of a record is a function that takes the record which the caller wrote
-- and returns the one that `__post_init__` leaves.
pub mod Frames
use mdrack.Base.{
  ℕ, zero, suc, ◌+◌, Bool, true, false, not, ◌&&◌, ◌||◌, Option, none, some, List, [], ◌∷◌, map,
  contains, length, leb, ltb, eqb, ◌==◌, if◌then◌else◌,
}
use mdrack.Base.Results.{Result, ok, err, ◌>>=◌, ◌>>◌, require, traverse}
use mdrack.Base.Text.{Str, codes, str_eq}
use mdrack.Base.Floats.{Floats}
use mdrack.Core.Errors.{PyError, value_error}
use mdrack.Core.Json.{Json, Fields}
use mdrack.Media.Common.{require_text, require_int, require_probability, freeze_metadata}
use mdrack.Media.Identifiers.{
  Codec, id_resource, id_atom, id_passage, id_frame, id_representation, validate_media_id, atom_id,
  frame_id, representation_id, fingerprint_of,
}

abbrev pub token_count_exact : Str
token_count_exact = codes "exact"

abbrev pub token_count_estimated : Str
token_count_estimated = codes "estimated"

abbrev pub token_count_kinds : List Str
token_count_kinds = token_count_exact ∷ token_count_estimated ∷ []

abbrev pub representation_audio_transcript : Str
representation_audio_transcript = codes "audio_transcript"

abbrev pub representation_frame_caption : Str
representation_frame_caption = codes "frame_caption"

abbrev pub representation_timed_passage : Str
representation_timed_passage = codes "timed_passage"

pub record TokenCount : Type 0 where
  pub count : ℕ
  pub kind : Str
  pub counter_fingerprint : Str

-- `TokenCount.__post_init__`
unfoldable pub make_token_count : TokenCount → Result PyError TokenCount
unfolding require_int
make_token_count t = do
  require_int t.count 0
  require (contains t.kind token_count_kinds) value_error
  ok t

-- `len(set(values)) == len(values)`
unfoldable pub all_different : List Str → Bool
all_different [] = true
all_different (v ∷ values) = not (contains v values) && all_different values

-- `tuple(ordinals) == tuple(range(len(ordinals)))`, from `n` on
unfoldable pub is_range_from : ℕ → List ℕ → Bool
is_range_from n [] = true
is_range_from n (o ∷ ordinals) = eqb o n && is_range_from (suc n) ordinals

-- `all(test(x) for x in l)`
unfoldable pub every {ℓ} : {A : Type ℓ} → (A → Bool) → List A → Bool
every test [] = true
every test (x ∷ xs) = test x && every test xs

-- `not any(bad(previous, current) for previous, current in zip(l, l[1:]))`
unfoldable pub no_neighbours {ℓ} : {A : Type ℓ} → (A → A → Bool) → List A → Bool
no_neighbours bad [] = true
no_neighbours bad (x ∷ []) = true
no_neighbours bad (x ∷ y ∷ rest) = not (bad x y) && no_neighbours bad (y ∷ rest)

-- `if value is not None: require_text(value)`
unfoldable pub require_optional_text : Option Str → Result PyError (Unit {0})
unfolding require_text
require_optional_text none = ok tt
require_optional_text (some s) = require_text s

module _ (F : Floats) where
  unfoldable pub require_optional_probability : Option F.Float → Result PyError (Unit {0})
  unfolding require_probability
  require_optional_probability none = ok tt
  require_optional_probability (some x) = require_probability F x

  pub record TimedTextAtom : Type 0 where
    pub atom_id : Str
    pub resource_id : Str
    pub start_ms : ℕ
    pub end_ms : ℕ
    pub text : Str
    pub ordinal : ℕ
    pub producer_fingerprint : Str
    pub normalization_fingerprint : Str
    pub token_count : Option TokenCount
    pub speaker : Option Str
    pub confidence : Option F.Float
    pub metadata : Fields F

  pub record TimedPassage : Type 0 where
    pub passage_id : Str
    pub resource_id : Str
    pub representation_id : Str
    pub start_ms : ℕ
    pub end_ms : ℕ
    pub text : Str
    pub ordinal : ℕ
    pub token_count : TokenCount
    pub source_atom_ids : List Str
    pub grouper_fingerprint : Str
    pub metadata : Fields F

  -- `TimedPassage.__post_init__`
  unfoldable pub make_timed_passage : TimedPassage → Result PyError TimedPassage
  unfolding validate_media_id require_int require_text all_different freeze_metadata traverse
  make_timed_passage p = do
    _ ← validate_media_id p.passage_id (some id_passage)
    _ ← validate_media_id p.resource_id (some id_resource)
    _ ← validate_media_id p.representation_id (some id_representation)
    require_int p.start_ms 0
    require_int p.end_ms 0
    require (ltb p.start_ms p.end_ms) value_error
    require_text p.text
    require_int p.ordinal 0
    require (ltb 0 (length p.source_atom_ids)) value_error
    atom_ids ← traverse (λ (id : Str). validate_media_id id (some id_atom)) p.source_atom_ids
    require (all_different atom_ids) value_error
    metadata ← freeze_metadata F p.metadata
    ok (record p { source_atom_ids = atom_ids; metadata = metadata })

  pub record TranscriptArtifact : Type 0 where
    pub resource_id : Str
    pub representation_id : Str
    pub representation_kind : Str
    pub atoms : List TimedTextAtom
    pub producer_fingerprint : Str
    pub normalization_fingerprint : Str
    pub language : Option Str
    pub duration_ms : Option ℕ
    pub metadata : Fields F

  -- `duration_ms < atoms[-1].end_ms` does not hold, where there are atoms
  unfoldable pub covers_last : ℕ → List TimedTextAtom → Bool
  covers_last duration [] = true
  covers_last duration (a ∷ []) = leb a.end_ms duration
  covers_last duration (a ∷ b ∷ rest) = covers_last duration (b ∷ rest)

  unfoldable pub require_duration : Option ℕ → List TimedTextAtom → Result PyError (Unit {0})
  unfolding covers_last require_int
  require_duration none atoms = ok tt
  require_duration (some duration) atoms = do
    require_int duration 0
    require (covers_last duration atoms) value_error

module _ (F : Floats) (c : Codec F) where
  -- `TimedTextAtom.__post_init__`
  unfoldable pub make_timed_text_atom : TimedTextAtom F → Result PyError (TimedTextAtom F)
  unfolding validate_media_id require_int require_text require_optional_text
      require_optional_probability freeze_metadata
  make_timed_text_atom a = do
    _ ← validate_media_id a.resource_id (some id_resource)
    require_int a.start_ms 0
    require_int a.end_ms 0
    require (ltb a.start_ms a.end_ms) value_error
    require_text a.text
    require_int a.ordinal 0
    expected ← atom_id F c a.resource_id a.producer_fingerprint a.ordinal
    _ ← validate_media_id a.atom_id (some id_atom)
    require (a.atom_id == expected) value_error
    require_optional_text a.speaker
    require_optional_probability F a.confidence
    metadata ← freeze_metadata F a.metadata
    ok (record a { metadata = metadata })

  -- `TranscriptArtifact.__post_init__`
  unfoldable pub make_transcript_artifact :
      TranscriptArtifact F → Result PyError (TranscriptArtifact F)
  unfolding validate_media_id representation_id require_optional_text require_duration every
      all_different is_range_from no_neighbours freeze_metadata
  make_transcript_artifact t = do
    _ ← validate_media_id t.resource_id (some id_resource)
    _ ← validate_media_id t.representation_id (some id_representation)
    require (t.representation_kind == representation_audio_transcript) value_error
    expected ←
        representation_id F c t.resource_id t.representation_kind t.producer_fingerprint
          t.normalization_fingerprint
    require (t.representation_id == expected) value_error
    require (every (λ (a : TimedTextAtom F). a.resource_id == t.resource_id) t.atoms) value_error
    require
        (every (λ (a : TimedTextAtom F). a.producer_fingerprint == t.producer_fingerprint) t.atoms)
        value_error
    require
        (every (λ (a : TimedTextAtom F). a.normalization_fingerprint == t.normalization_fingerprint)
          t.atoms)
        value_error
    require (all_different (map (λ (a : TimedTextAtom F). a.atom_id) t.atoms)) value_error
    require (is_range_from 0 (map (λ (a : TimedTextAtom F). a.ordinal) t.atoms)) value_error
    require (no_neighbours (λ (p q : TimedTextAtom F). ltb q.start_ms p.end_ms) t.atoms) value_error
    require_optional_text t.language
    require_duration F t.duration_ms t.atoms
    metadata ← freeze_metadata F t.metadata
    ok (record t { metadata = metadata })
