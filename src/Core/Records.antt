-- ===== src/Core/Records.antt =====
-- The records of packages/mdrack-core/src/mdrack_core/domain/{resources,vectors,batches}.py.
use mdrack.Base.{ℕ, Option, List}
use mdrack.Base.Text.{Str, codes}
use mdrack.Base.Floats.{Floats}
use mdrack.Core.Json.{Fields}

abbrev pub unit_whole_resource : Str
unit_whole_resource = codes "whole_resource"

abbrev pub metric_cosine : Str
metric_cosine = codes "cosine"

pub record Facet : Type 0 where
  pub namespace : Str
  pub value : Str

module _ (F : Floats) where
  pub record Locator : Type 0 where
    pub kind : Str
    pub payload : Fields F

  pub record ResourceRecord : Type 0 where
    pub resource_id : Str
    pub resource_kind : Str
    pub media_type : Str
    pub source_namespace : Str
    pub locator : Locator
    pub content_hash : Option Str
    pub title : Option Str
    pub metadata : Fields F

  pub record RepresentationRecord : Type 0 where
    pub representation_id : Str
    pub resource_id : Str
    pub representation_kind : Str
    pub modality : Str
    pub text : Option Str
    pub language : Option Str
    pub producer_fingerprint : Option Str
    pub token_count : Option ℕ
    pub token_count_kind : Option Str
    pub metadata : Fields F

  pub record SearchUnitRecord : Type 0 where
    pub unit_id : Str
    pub resource_id : Str
    pub representation_id : Str
    pub unit_kind : Str
    pub modality : Str
    pub text : Option Str
    pub evidence_locator : Locator
    pub ordinal : ℕ
    pub token_count : Option ℕ
    pub token_count_kind : Option Str
    pub metadata : Fields F

  pub record ResourceFacet : Type 0 where
    pub resource_id : Str
    pub facet : Facet
    pub origin : Str
    pub producer_fingerprint : Option Str
    pub confidence : Option F.Float

  pub record EmbeddingSpaceRecord : Type 0 where
    pub space_id : Str
    pub dimensions : ℕ
    pub metric : Str
    pub fingerprint : Str
    pub metadata : Fields F

  pub record VectorRecord : Type 0 where
    pub unit_id : Str
    pub space_id : Str
    pub vector : List F.Float

  pub record PreparedResourceBatch : Type 0 where
    pub resource : ResourceRecord
    pub representations : List RepresentationRecord
    pub units : List SearchUnitRecord
    pub spaces : List EmbeddingSpaceRecord
    pub vectors : List VectorRecord
    pub facets : List ResourceFacet
