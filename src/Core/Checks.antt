-- ===== src/Core/Checks.antt =====
-- What the `__post_init__` methods of the resource, vector and scope records accept:
-- packages/mdrack-core/src/mdrack_core/domain/{resources,vectors,search,results}.py.
pub mod Strings
use mdrack.Base.{
  ℕ, Bool, true, false, not, ◌&&◌, ◌||◌, Option, none, some, List, [], ◌∷◌, if◌then◌else◌, ◌==◌,
}
use mdrack.Base.Results.{Result, ok, err, ◌>>=◌, ◌>>◌, require}
use mdrack.Base.Text.{Str, codes, str_eq}
use mdrack.Base.Floats.{Floats}
use mdrack.Core.Errors.{PyError, value_error}
use mdrack.Core.Json.{Json, Fields}
use mdrack.Core.Common.{
  require_utf8_encodable, require_non_empty, require_optional_non_empty, require_integer,
  require_finite_number, check_all, freeze_vector,
}
use mdrack.Core.Freeze.{freeze_json_mapping}
use mdrack.Core.Records.{
  Facet, Locator, ResourceRecord, RepresentationRecord, SearchUnitRecord, ResourceFacet,
  EmbeddingSpaceRecord, VectorRecord,
}
use mdrack.Core.Search.{SearchScope, BranchScopeOverride, RankedCandidate}

-- `_freeze_strings`
unfoldable pub check_strings : List Str → Result PyError (Unit {0})
unfolding require_non_empty check_all
check_strings values = check_all require_non_empty values

-- `SearchScope.__post_init__`; its facets were checked when they were built.
unfoldable pub check_scope : SearchScope → Result PyError (Unit {0})
unfolding check_strings
check_scope s = do
  check_strings s.resource_kinds
  check_strings s.media_types
  check_strings s.source_namespaces
  check_strings s.representation_kinds
  check_strings s.modalities
  check_strings s.unit_kinds

-- `BranchScopeOverride.__post_init__`
unfoldable pub check_override : BranchScopeOverride → Result PyError (Unit {0})
unfolding check_strings
check_override s = do
  check_strings s.resource_kinds
  check_strings s.media_types
  check_strings s.source_namespaces
  check_strings s.representation_kinds
  check_strings s.modalities
  check_strings s.unit_kinds

-- `require_utf8_encodable` of a text that may be `None`
unfoldable pub require_optional_text : Option Str → Result PyError (Unit {0})
unfolding require_utf8_encodable
require_optional_text none = ok tt
require_optional_text (some s) = require_utf8_encodable s

-- `_validate_token_count`
unfoldable pub validate_token_count : Option ℕ → Option Str → Result PyError (Unit {0})
unfolding require_integer require_non_empty
validate_token_count none none = ok tt
validate_token_count (some count) (some kind) = do
  require_integer count 0
  require_non_empty kind
  require ((kind == codes "exact") || (kind == codes "estimated")) value_error
validate_token_count _ _ = err value_error

-- `Facet.__post_init__`
unfoldable pub check_facet : Facet → Result PyError (Unit {0})
unfolding require_non_empty
check_facet f = do require_non_empty f.namespace; require_non_empty f.value

module _ (F : Floats) (canonical_json : Json F → Str) where
  -- `Locator.__post_init__`: the locator with its payload frozen
  unfoldable pub make_locator : Locator F → Result PyError (Locator F)
  unfolding require_non_empty
  make_locator l = do
    require_non_empty l.kind
    payload ← freeze_json_mapping F canonical_json l.payload
    ok (record l { payload = payload })

  -- `ResourceRecord.__post_init__`
  unfoldable pub make_resource : ResourceRecord F → Result PyError (ResourceRecord F)
  unfolding require_non_empty require_optional_non_empty require_optional_text
  make_resource r = do
    require_non_empty r.resource_id
    require_non_empty r.resource_kind
    require_non_empty r.media_type
    require_non_empty r.source_namespace
    require_optional_non_empty r.content_hash
    require_optional_text r.title
    metadata ← freeze_json_mapping F canonical_json r.metadata
    ok (record r { metadata = metadata })

  -- `RepresentationRecord.__post_init__`
  unfoldable pub make_representation :
      RepresentationRecord F → Result PyError (RepresentationRecord F)
  unfolding require_non_empty require_optional_non_empty require_optional_text validate_token_count
  make_representation r = do
    require_non_empty r.representation_id
    require_non_empty r.resource_id
    require_non_empty r.representation_kind
    require_non_empty r.modality
    require_optional_text r.text
    require_optional_non_empty r.language
    require_optional_non_empty r.producer_fingerprint
    validate_token_count r.token_count r.token_count_kind
    metadata ← freeze_json_mapping F canonical_json r.metadata
    ok (record r { metadata = metadata })

  -- `SearchUnitRecord.__post_init__`
  unfoldable pub make_search_unit : SearchUnitRecord F → Result PyError (SearchUnitRecord F)
  unfolding require_non_empty require_optional_text require_integer validate_token_count
  make_search_unit u = do
    require_non_empty u.unit_id
    require_non_empty u.resource_id
    require_non_empty u.representation_id
    require_non_empty u.unit_kind
    require_non_empty u.modality
    require_optional_text u.text
    require_integer u.ordinal 0
    validate_token_count u.token_count u.token_count_kind
    metadata ← freeze_json_mapping F canonical_json u.metadata
    ok (record u { metadata = metadata })

  -- `0.0 <= confidence <= 1.0` and the test that it is finite
  unfoldable pub check_confidence : Option F.Float → Result PyError (Unit {0})
  unfolding require_finite_number
  check_confidence none = ok tt
  check_confidence (some x) = do
    require_finite_number F x
    require (not (F.lt x F.zero_float) && not (F.lt F.one_float x)) value_error

  -- `ResourceFacet.__post_init__`
  unfoldable pub check_resource_facet : ResourceFacet F → Result PyError (Unit {0})
  unfolding require_non_empty require_optional_non_empty check_confidence
  check_resource_facet a = do
    require_non_empty a.resource_id
    require_non_empty a.origin
    require_optional_non_empty a.producer_fingerprint
    check_confidence a.confidence

  -- `EmbeddingSpaceRecord.__post_init__`
  unfoldable pub make_embedding_space :
      EmbeddingSpaceRecord F → Result PyError (EmbeddingSpaceRecord F)
  unfolding require_non_empty require_integer
  make_embedding_space s = do
    require_non_empty s.space_id
    require_integer s.dimensions 1
    require_non_empty s.metric
    require ((s.metric == codes "cosine") || (s.metric == codes "dot") || (s.metric == codes "l2"))
        value_error
    require_non_empty s.fingerprint
    metadata ← freeze_json_mapping F canonical_json s.metadata
    ok (record s { metadata = metadata })

  -- `VectorRecord.__post_init__`
  unfoldable pub check_vector_record : VectorRecord F → Result PyError (Unit {0})
  unfolding require_non_empty freeze_vector
  check_vector_record v = do
    require_non_empty v.unit_id
    require_non_empty v.space_id
    freeze_vector F v.vector

  -- `RankedCandidate.__post_init__`; the kinds of its score and rank have one value each.
  unfoldable pub make_ranked_candidate : RankedCandidate F → Result PyError (RankedCandidate F)
  unfolding require_non_empty require_integer require_finite_number
  make_ranked_candidate c = do
    require_non_empty c.unit_id
    require_non_empty c.resource_id
    require_non_empty c.representation_id
    require_integer c.rank 1
    require_finite_number F c.raw_score
    require_non_empty c.branch_id
    metadata ← freeze_json_mapping F canonical_json c.metadata
    ok (record c { metadata = metadata })
