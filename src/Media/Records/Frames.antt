-- ===== src/Media/Records/Frames.antt =====
-- The frame caption records of packages/mdrack-media/src/mdrack_media/records.py.
use mdrack.Base.{ℕ, Option, none, some, List, map, ltb, ◌==◌}
use mdrack.Base.Results.{Result, ok, ◌>>=◌, ◌>>◌, require}
use mdrack.Base.Text.{Str, codes, str_eq}
use mdrack.Base.Floats.{Floats}
use mdrack.Core.Errors.{PyError, value_error}
use mdrack.Core.Json.{Json, Fields}
use mdrack.Media.Common.{require_text, require_int, freeze_metadata}
use mdrack.Media.Identifiers.{
  Codec, id_resource, id_frame, id_representation, validate_media_id, frame_id, representation_id,
  fingerprint_of,
}
use mdrack.Media.Records.{
  TokenCount, representation_frame_caption, all_different, is_range_from, every, no_neighbours,
}

module _ (F : Floats) where
  pub record FrameCaptionObservation : Type 0 where
    pub frame_id : Str
    pub resource_id : Str
    pub timestamp_ms : ℕ
    pub observation_identity : Str
    pub caption : Str
    pub ordinal : ℕ
    pub token_count : TokenCount
    pub producer_fingerprint : Str
    pub normalization_fingerprint : Str
    pub metadata : Fields F
    pub content_fingerprint : Option Str

  pub record FrameCaptionArtifact : Type 0 where
    pub resource_id : Str
    pub representation_id : Str
    pub representation_kind : Str
    pub observations : List FrameCaptionObservation
    pub producer_fingerprint : Str
    pub normalization_fingerprint : Str
    pub metadata : Fields F

module _ (F : Floats) (c : Codec F) where
  -- The content fingerprint that the caller left out is computed.
  unfoldable pub content_fingerprint_of : FrameCaptionObservation F → Result PyError Str
  unfolding fingerprint_of
  content_fingerprint_of o = elim o.content_fingerprint [
    | none ↦ fingerprint_of F c (Fields.field (codes "caption") (Json.str o.caption) Fields.end)
    | some f ↦ ok f
  ]

  -- `FrameCaptionObservation.__post_init__`
  unfoldable pub make_frame_caption_observation :
      FrameCaptionObservation F → Result PyError (FrameCaptionObservation F)
  unfolding validate_media_id require_int require_text content_fingerprint_of frame_id
      freeze_metadata
  make_frame_caption_observation o = do
    _ ← validate_media_id o.resource_id (some id_resource)
    require_int o.timestamp_ms 0
    require_text o.observation_identity
    require_text o.caption
    require_int o.ordinal 0
    content ← content_fingerprint_of o
    expected ←
        frame_id F c o.resource_id o.producer_fingerprint o.ordinal o.timestamp_ms
          o.observation_identity
    _ ← validate_media_id o.frame_id (some id_frame)
    require (o.frame_id == expected) value_error
    metadata ← freeze_metadata F o.metadata
    ok (record o { content_fingerprint = some content; metadata = metadata })

  -- `FrameCaptionArtifact.__post_init__`
  unfoldable pub make_frame_caption_artifact :
      FrameCaptionArtifact F → Result PyError (FrameCaptionArtifact F)
  unfolding validate_media_id representation_id every all_different is_range_from no_neighbours
      freeze_metadata
  make_frame_caption_artifact t = do
    _ ← validate_media_id t.resource_id (some id_resource)
    _ ← validate_media_id t.representation_id (some id_representation)
    require (t.representation_kind == representation_frame_caption) value_error
    expected ←
        representation_id F c t.resource_id t.representation_kind t.producer_fingerprint
          t.normalization_fingerprint
    require (t.representation_id == expected) value_error
    require
        (every (λ (o : FrameCaptionObservation F). o.resource_id == t.resource_id) t.observations)
        value_error
    require
        (every (λ (o : FrameCaptionObservation F). o.producer_fingerprint == t.producer_fingerprint)
          t.observations)
        value_error
    require
        (every
          (λ (o : FrameCaptionObservation F).
            o.normalization_fingerprint == t.normalization_fingerprint)
          t.observations)
        value_error
    require (all_different (map (λ (o : FrameCaptionObservation F). o.frame_id) t.observations))
        value_error
    require (is_range_from 0 (map (λ (o : FrameCaptionObservation F). o.ordinal) t.observations))
        value_error
    require
        (no_neighbours (λ (p q : FrameCaptionObservation F). ltb q.timestamp_ms p.timestamp_ms)
          t.observations)
        value_error
    metadata ← freeze_metadata F t.metadata
    ok (record t { metadata = metadata })
