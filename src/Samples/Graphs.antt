-- ===== src/Samples/Graphs.antt =====
-- The theorems on discovery and validation at a note with two paragraphs, its copies and its
-- neighbours.
use mdrack.Base.{ℕ, ◌≡◌, refl, true, some, none, List, [], ◌∷◌, map, take, arith, ◌+◌}
use mdrack.Base.Results.{ok, err}
use mdrack.Base.Text.{Str, codes}
use mdrack.Core.Errors.{PyError, catalog_execution_error, ErrorCategory}
use mdrack.Core.Json.{Json, Fields}
use mdrack.Core.Records.{
  ResourceRecord, RepresentationRecord, SearchUnitRecord, EmbeddingSpaceRecord, VectorRecord,
  PreparedResourceBatch, unit_whole_resource, metric_cosine,
}
use mdrack.Core.Search.{SimilarityRequest, RankedCandidate}
use mdrack.Core.Retrieval.Branches.{SearchPort, candidate, listed}
use mdrack.Core.Discovery.{ResourceReadPort, find_duplicates}
use mdrack.Core.Discovery.Similar.{similarity_branch, similar, finish_similar}
use mdrack.Core.Discovery.Hits.{allowed_hits, similar-hits}
use mdrack.Core.Discovery.Duplicates.{
  find_duplicates-AreDuplicates, find_duplicates-raises, AreDuplicates,
}
use mdrack.Core.Validation.{validate_prepared_batch}
use mdrack.Core.Validation.Graphs.{validate_prepared_batch-IsGraph, IsGraph}
use mdrack.Samples.Values.{whole, ranked, place, any_scope}

abbrev resource : Str → ResourceRecord whole
resource id = record {
  resource_id = id;
  resource_kind = codes "note";
  media_type = codes "text/markdown";
  source_namespace = codes "local";
  locator = place;
  content_hash = some (codes "h");
  title = none;
  metadata = Fields.end;
}

abbrev text : RepresentationRecord whole
text = record {
  representation_id = codes "t";
  resource_id = codes "a";
  representation_kind = codes "retrieval_text";
  modality = codes "text";
  text = some (codes "one two");
  language = none;
  producer_fingerprint = none;
  token_count = none;
  token_count_kind = none;
  metadata = Fields.end;
}

abbrev pub note : SearchUnitRecord whole
note = record {
  unit_id = codes "w";
  resource_id = codes "a";
  representation_id = codes "t";
  unit_kind = unit_whole_resource;
  modality = codes "text";
  text = some (codes "one two");
  evidence_locator = place;
  ordinal = 0;
  token_count = none;
  token_count_kind = none;
  metadata = Fields.end;
}

abbrev paragraph : SearchUnitRecord whole
paragraph = record note { unit_id = codes "p"; unit_kind = codes "text_chunk"; ordinal = 1 }

abbrev space : EmbeddingSpaceRecord whole
space = record {
  space_id = codes "s";
  dimensions = 2;
  metric = metric_cosine;
  fingerprint = codes "f";
  metadata = Fields.end;
}

abbrev embedding : VectorRecord whole
embedding = record { unit_id = codes "w"; space_id = codes "s"; vector = 3 ∷ 4 ∷ [] }

abbrev pub batch : PreparedResourceBatch whole
batch = record {
  resource = resource (codes "a");
  representations = text ∷ [];
  units = note ∷ paragraph ∷ [];
  spaces = space ∷ [];
  vectors = embedding ∷ [];
  facets = [];
}

-- A stand-in for `json.dumps`: every payload here is empty.
abbrev pub empty_object : Json whole → Str
empty_object value = codes "{}"

batch_ok : validate_prepared_batch whole empty_object batch ≡ ok tt
unfolding validate_prepared_batch mdrack.Core.Common.require_utf8_encodable
    mdrack.Base.Text.utf8_encodable mdrack.Core.Freeze.freeze_json_mapping
    mdrack.Core.Freeze.fields_list mdrack.Core.Common.check_all mdrack.Core.Freeze.freeze_fields
    mdrack.Base.Order.sort_by mdrack.Base.Text.str_beq mdrack.Base.Dict.lookup
    mdrack.Base.Dict.insert mdrack.Core.Common.require_finite_number mdrack.Base.Text.has_content
batch_ok = refl

validate_prepared_batch-IsGraph_example : IsGraph whole empty_object batch
validate_prepared_batch-IsGraph_example =
    validate_prepared_batch-IsGraph whole empty_object batch batch_ok

-- A vector of another length is refused.
short_vector :
    validate_prepared_batch whole empty_object
      (record batch { vectors = (record embedding { vector = 3 ∷ [] }) ∷ [] })
    ≡ err PyError.value_error
unfolding validate_prepared_batch mdrack.Core.Common.require_utf8_encodable
    mdrack.Base.Text.utf8_encodable mdrack.Core.Freeze.freeze_json_mapping
    mdrack.Core.Freeze.fields_list mdrack.Core.Common.check_all mdrack.Core.Freeze.freeze_fields
    mdrack.Base.Order.sort_by mdrack.Base.Text.str_beq mdrack.Base.Dict.lookup
    mdrack.Base.Dict.insert
short_vector = refl

abbrev copies : List (ResourceRecord whole)
copies = resource (codes "c") ∷ resource (codes "a") ∷ resource (codes "b") ∷ []

abbrev catalog : ResourceReadPort whole
catalog = record {
  read_resource = λ id. ok (some (resource id));
  read_unit = λ id. ok (some note);
  read_vector = λ id s. ok (some embedding);
  find_by_content_hash = λ hash scope. ok copies;
}

find_duplicates-AreDuplicates_example :
    (out : List (ResourceRecord whole)) × (find_duplicates whole catalog (codes "a") any_scope 5
      ≡ ok out)
    × AreDuplicates whole (codes "a") 5 copies out
unfolding mdrack.Base.Text.has_content mdrack.Core.Discovery.read_matches
find_duplicates-AreDuplicates_example =
    find_duplicates-AreDuplicates whole catalog (codes "a") any_scope 5 copies refl (omega arith)
      refl

abbrev broken : ResourceReadPort whole
broken = record catalog { read_resource = λ id. err PyError.key_error }

broken_raises :
    find_duplicates whole broken (codes "a") any_scope 5
    ≡ err (catalog_execution_error ErrorCategory.catalog_error)
unfolding find_duplicates mdrack.Base.Text.has_content mdrack.Core.Errors.is_catalog_category
broken_raises = refl

find_duplicates-raises_example :
    (category : ErrorCategory) × (catalog_execution_error ErrorCategory.catalog_error
      ≡ catalog_execution_error category)
unfolding mdrack.Base.Text.has_content
find_duplicates-raises_example =
    find_duplicates-raises whole broken (codes "a") any_scope 5
      (catalog_execution_error ErrorCategory.catalog_error) refl (omega arith) broken_raises

abbrev neighbours : List (RankedCandidate whole)
neighbours =
    ranked similarity_branch (codes "w") (codes "a") 1
    ∷ ranked similarity_branch (codes "w2") (codes "b") 2
    ∷ ranked similarity_branch (codes "p") (codes "a") 3
    ∷ ranked similarity_branch (codes "w3") (codes "c") 4
    ∷ []

abbrev ranking : SearchPort whole
ranking = record {
  search_lexical = λ b s. err PyError.value_error;
  search_vector = λ b s. ok (listed (map candidate (take b.candidate_limit neighbours)));
}

abbrev alike : SimilarityRequest whole
alike = record {
  query_unit_id = codes "w";
  space_id = codes "s";
  similarity_basis = codes "text";
  scope = any_scope;
  limit = 2;
  exclude_same_resource = true;
}

similar-hits_example :
    similar whole 5 catalog ranking alike
    ≡ some (
        finish_similar whole alike (
          ok (
            take alike.limit
              (allowed_hits whole alike.exclude_same_resource note.resource_id neighbours))))
unfolding mdrack.Core.Discovery.Similar.read_query mdrack.Base.Text.str_beq
    mdrack.Core.Discovery.Similar.whole_resource_scope mdrack.Core.Search.check_vector_branch
    mdrack.Base.Text.has_content mdrack.Base.Text.utf8_encodable
similar-hits_example =
    similar-hits whole ranking alike note embedding
      (record any_scope { unit_kinds = unit_whole_resource ∷ [] }) neighbours catalog refl refl
      (record {
        query = refl;
        answer = λ n. refl;
        ranked = (refl, refl, (refl, refl, (refl, refl, (refl, refl, tt))));
        distinct = (refl, (refl, (refl, (refl, tt))));
      })
      (omega arith) 5 (omega arith)
