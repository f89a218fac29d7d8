-- ===== src/Core/Validation.antt =====
-- `_BatchValidator` of packages/mdrack-core/src/mdrack_core/application/validation.py
pub mod Graphs
pub mod Raises
use mdrack.Base.{
  ℕ, Bool, true, false, not, ◌&&◌, ◌||◌, Option, none, some, List, [], ◌∷◌, ◌++◌, map, length,
  contains, keep_if, eqb, if◌then◌else◌, Eq, ◌==◌, ◌≡◌, ◌↔◌, refl, ap, arith,
}
use mdrack.Base.Keys.{option_eq, pair_eq}
use mdrack.Base.Results.{Result, ok, err, ◌>>=◌, ◌>>◌, require}
use mdrack.Base.Dict.{Dict, lookup, insert}
use mdrack.Base.Text.{Str, codes, str_eq, has_content}
use mdrack.Base.Floats.{Floats}
use mdrack.Core.Errors.{PyError, value_error}
use mdrack.Core.Json.{Json, Fields}
use mdrack.Core.Common.{require_utf8_encodable, require_finite_number, check_all}
use mdrack.Core.Records.{
  Locator, ResourceRecord, RepresentationRecord, SearchUnitRecord, EmbeddingSpaceRecord,
  VectorRecord, ResourceFacet, PreparedResourceBatch, metric_cosine,
}
use mdrack.Core.Freeze.{freeze_json_mapping}

-- An assignment of a facet: resource, namespace, value, origin and producer.
abbrev pub FacetKey : Type 0
FacetKey = Str × (Str × (Str × (Str × Option Str)))

abbrev pub facet_key_eq : Eq FacetKey
facet_key_eq = pair_eq str_eq (pair_eq str_eq (pair_eq str_eq (pair_eq str_eq option_eq)))

-- `_require_unique`, over `seen`
unfoldable pub require_unique :
    {A : Type 0} ⦃e : Eq A⦄ → List A → List A → Result PyError (Unit {0})
require_unique [] seen = ok tt
require_unique (value ∷ values) seen = do
  require (not (contains value seen)) value_error
  require_unique values (value ∷ seen)

-- `{key(item): item for item in items}`
unfoldable pub index_by : {A : Type 0} → (A → Str) → List A → Dict Str A → Dict Str A
index_by key [] d = d
index_by key (item ∷ items) d = index_by key items (insert (key item) item d)

-- `_require_strings`
unfoldable pub require_strings : List (Option Str) → Result PyError (Unit {0})
require_strings [] = ok tt
require_strings (none ∷ values) = require_strings values
require_strings (some value ∷ values) = do require_utf8_encodable value; require_strings values

-- `set(xs) == set(ys)`
unfoldable pub same_members : List Str → List Str → Bool
same_members xs ys = all_in xs ys && all_in ys xs
  where
    all_in : List Str → List Str → Bool
    all_in [] ys = true
    all_in (x ∷ xs) ys = contains x ys && all_in xs ys

module _ (F : Floats) (canonical_json : Json F → Str) where
  -- `_require_locator`
  unfoldable pub require_locator : Locator F → Result PyError (Unit {0})
  require_locator l = do
    require_utf8_encodable l.kind
    payload ← freeze_json_mapping F canonical_json l.payload
    ok tt

  -- `freeze_json_mapping(record.metadata, …)` as a statement
  unfoldable pub require_metadata : Fields F → Result PyError (Unit {0})
  require_metadata fs = do metadata ← freeze_json_mapping F canonical_json fs; ok tt

  -- `_validate_persisted_strings`
  unfoldable pub validate_persisted_strings : PreparedResourceBatch F → Result PyError (Unit {0})
  unfolding require_strings require_locator require_metadata
  validate_persisted_strings b = do
    require_strings (
        some b.resource.resource_id
        ∷ some b.resource.resource_kind
        ∷ some b.resource.media_type
        ∷ some b.resource.source_namespace
        ∷ b.resource.content_hash
        ∷ b.resource.title
        ∷ [])
    require_locator b.resource.locator
    require_metadata b.resource.metadata
    check_all
        (λ (r : RepresentationRecord F). do
          require_strings (
              some r.representation_id
              ∷ some r.resource_id
              ∷ some r.representation_kind
              ∷ some r.modality
              ∷ r.text
              ∷ r.language
              ∷ r.producer_fingerprint
              ∷ r.token_count_kind
              ∷ [])
          require_metadata r.metadata)
        b.representations
    check_all
        (λ (u : SearchUnitRecord F). do
          require_strings (
              some u.unit_id
              ∷ some u.resource_id
              ∷ some u.representation_id
              ∷ some u.unit_kind
              ∷ some u.modality
              ∷ u.text
              ∷ u.token_count_kind
              ∷ [])
          require_locator u.evidence_locator
          require_metadata u.metadata)
        b.units
    check_all
        (λ (s : EmbeddingSpaceRecord F). do
          require_strings (some s.space_id ∷ some s.metric ∷ some s.fingerprint ∷ [])
          require_metadata s.metadata)
        b.spaces
    check_all (λ (v : VectorRecord F). require_strings (some v.unit_id ∷ some v.space_id ∷ []))
        b.vectors
    check_all
        (λ (a : ResourceFacet F). require_strings (
          some a.resource_id
          ∷ some a.facet.namespace
          ∷ some a.facet.value
          ∷ some a.origin
          ∷ a.producer_fingerprint
          ∷ []))
        b.facets

  -- `_has_text`
  abbrev pub has_text : SearchUnitRecord F → Bool
  has_text u = elim u.text [ none ↦ false | some text ↦ has_content text ]

  -- `d.get(k)` and `raise` where it is `None`
  abbrev pub require_some : {A : Type 0} → Option A → Result PyError A
  require_some none = err value_error
  require_some (some a) = ok a

  -- The body of the first loop over the units
  unfoldable pub check_unit :
      Str → Dict Str (RepresentationRecord F) → SearchUnitRecord F → Result PyError (Unit {0})
  check_unit resource_id representations u = do
    require (u.resource_id == resource_id) value_error
    owner ← require_some (lookup u.representation_id representations)
    require (u.modality == owner.modality) value_error

  -- The body of the loop over the vectors
  unfoldable pub check_vector :
      List Str → Dict Str (EmbeddingSpaceRecord F) → VectorRecord F → Result PyError (Unit {0})
  check_vector units spaces v = do
    require (contains v.unit_id units) value_error
    space ← require_some (lookup v.space_id spaces)
    require (eqb (length v.vector) space.dimensions) value_error
    check_all (require_finite_number F) v.vector
    require (not ((space.metric == metric_cosine) && F.feq (F.hypot v.vector) F.zero_float))
        value_error

  abbrev pub facet_key : ResourceFacet F → FacetKey
  facet_key a =
      (a.resource_id, (a.facet.namespace, (a.facet.value, (a.origin, a.producer_fingerprint))))

  -- The tests of `_validate_batch` for unique identities
  unfoldable pub validate_unique : PreparedResourceBatch F → Result PyError (Unit {0})
  unfolding require_unique
  validate_unique b = do
    require_unique (map (λ (r : RepresentationRecord F). r.representation_id) b.representations) []
    require_unique (map (λ (u : SearchUnitRecord F). u.unit_id) b.units) []
    require_unique (map (λ (s : EmbeddingSpaceRecord F). s.space_id) b.spaces) []
    require_unique ⦃e = pair_eq str_eq str_eq⦄
        (map (λ (v : VectorRecord F). (v.unit_id, v.space_id)) b.vectors) []
    require_unique ⦃e = facet_key_eq⦄ (map facet_key b.facets) []

  -- The loops of `_validate_batch`
  unfoldable pub validate_graph : PreparedResourceBatch F → Result PyError (Unit {0})
  unfolding index_by check_unit check_vector same_members
  validate_graph b = do
    check_all
        (λ (r : RepresentationRecord F).
          require (r.resource_id == b.resource.resource_id) value_error)
        b.representations
    check_all
        (check_unit b.resource.resource_id
          (index_by (λ (r : RepresentationRecord F). r.representation_id) b.representations []))
        b.units
    check_all
        (check_vector (map (λ (u : SearchUnitRecord F). u.unit_id) b.units)
          (index_by (λ (s : EmbeddingSpaceRecord F). s.space_id) b.spaces []))
        b.vectors
    require
        (same_members (map (λ (u : SearchUnitRecord F). u.representation_id) b.units)
          (map (λ (r : RepresentationRecord F). r.representation_id) b.representations))
        value_error
    check_all
        (λ (u : SearchUnitRecord F).
          require
            (has_text u || contains u.unit_id (map (λ (v : VectorRecord F). v.unit_id) b.vectors))
            value_error)
        b.units
    check_all
        (λ (a : ResourceFacet F). require (a.resource_id == b.resource.resource_id) value_error)
        b.facets

  abbrev is_empty : {A : Type 0} → List A → Bool
  is_empty [] = true
  is_empty (x ∷ xs) = false

  -- `validate_prepared_batch`
  unfoldable pub validate_prepared_batch : PreparedResourceBatch F → Result PyError (Unit {0})
  unfolding validate_persisted_strings validate_unique validate_graph
  validate_prepared_batch b = do
    require (not (is_empty b.representations)) value_error
    require (not (is_empty b.units)) value_error
    validate_persisted_strings b
    validate_unique b
    validate_graph b
