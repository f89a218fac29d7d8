-- ===== src/Samples/Stores.antt =====
-- The theorems on indexing at a store that is the list of the written resource ids, and on the
-- records that are built for it.
use mdrack.Base.{◌≤◌, ◌≡◌, refl, true, false, none, some, List, [], ◌∷◌, ◌⊎◌, Option}
use mdrack.Base.Results.{Result, ok, err}
use mdrack.Base.Text.{Str, codes}
use mdrack.Core.Errors.{
  PyError, core_error, assertion_error, timeout_error, catalog_execution_error, ErrorCategory,
}
use mdrack.Core.Records.{PreparedResourceBatch}
use mdrack.Core.Publication.{ExpectedPublication, PublicationStatus}
use mdrack.Core.Validation.{require_strings}
use mdrack.Core.Validation.Graphs.{IsGraph}
use mdrack.Core.Checks.{make_search_unit}
use mdrack.Core.Checks.Strings.{make_search_unit-strings, unit_strings}
use mdrack.Base.Int.{pos}
use mdrack.Core.Json.{Json, Items, Fields}
use mdrack.Core.Freeze.{freeze_json_mapping, max_json_items}
use mdrack.Core.Freeze.Size.{freeze_json_mapping-size, size_fields}
use mdrack.Core.Indexing.{
  WritePort, PublishAnswer, index_batch, index_if_current, delete_resource_id, classify_write,
}
use mdrack.Core.Indexing.Writes.{index_batch-guards}
use mdrack.Samples.Values.{whole}
use mdrack.Samples.Graphs.{batch, note, empty_object}

abbrev Log : Type 0
Log = List Str

-- A publication that times out, and a store that has been written to by then.
abbrev timing_out :
    PreparedResourceBatch whole
    → ExpectedPublication whole
    → Log
    → Result PyError (PublishAnswer whole empty_object Log) × Log
timing_out b expected log = (err timeout_error, b.resource.resource_id ∷ log)

abbrev port : WritePort whole empty_object Log
port = record {
  replace_resource = λ b log. (ok tt, b.resource.resource_id ∷ log);
  delete_resource = λ id log. (err PyError.key_error, log);
  compare_and_publish = some timing_out;
}

abbrev expected : ExpectedPublication whole
expected = record {
  state = record {
    resource_id = codes "a";
    status = PublicationStatus.never_created;
    lifecycle_id = none;
    state_token = none;
    source_namespace = none;
    source_locator = none;
  };
  create = true;
}

index_batch-guards_example :
    (index_batch whole empty_object Log port batch []
      ≡ (err (core_error ErrorCategory.validation), []))
    ⊎ (IsGraph whole empty_object batch
        × (index_batch whole empty_object Log port batch []
            ≡ classify_write whole empty_object Log (port.replace_resource batch [])))
index_batch-guards_example = index_batch-guards whole empty_object Log port batch []

written : index_batch whole empty_object Log port batch [] ≡ (ok tt, codes "a" ∷ [])
unfolding index_batch mdrack.Core.Validation.validate_prepared_batch
    mdrack.Core.Common.require_utf8_encodable mdrack.Base.Text.utf8_encodable
    mdrack.Core.Freeze.freeze_json_mapping mdrack.Core.Freeze.fields_list
    mdrack.Core.Common.check_all mdrack.Core.Freeze.freeze_fields mdrack.Base.Order.sort_by
    mdrack.Base.Text.str_beq mdrack.Base.Dict.lookup mdrack.Base.Dict.insert
    mdrack.Core.Common.require_finite_number mdrack.Base.Text.has_content
written = refl

refused :
    index_batch whole empty_object Log port (record batch { units = [] }) []
    ≡ (err (core_error ErrorCategory.validation), [])
unfolding index_batch mdrack.Core.Validation.validate_prepared_batch
refused = refl

not_deleted :
    delete_resource_id whole empty_object Log port (codes "a") []
    ≡ (err (catalog_execution_error ErrorCategory.catalog_error), [])
unfolding delete_resource_id mdrack.Base.Text.has_content mdrack.Base.Text.utf8_encodable
    mdrack.Core.Errors.is_catalog_category
not_deleted = refl

-- A port that answers with `None` has written by then.
unanswered :
    index_if_current whole empty_object Log
      (record port {
        compare_and_publish = some (λ b e log. (ok PublishAnswer.returned_none, codes "a" ∷ log));
      })
      batch
      expected
      []
    ≡ (err assertion_error, codes "a" ∷ [])
unfolding index_if_current mdrack.Core.Validation.validate_prepared_batch
    mdrack.Core.Common.require_utf8_encodable mdrack.Base.Text.utf8_encodable
    mdrack.Core.Freeze.freeze_json_mapping mdrack.Core.Freeze.fields_list
    mdrack.Core.Common.check_all mdrack.Core.Freeze.freeze_fields mdrack.Base.Order.sort_by
    mdrack.Base.Text.str_beq mdrack.Base.Dict.lookup mdrack.Base.Dict.insert
    mdrack.Core.Common.require_finite_number mdrack.Base.Text.has_content
unanswered = refl

note_ok : make_search_unit whole empty_object note ≡ ok note
unfolding make_search_unit mdrack.Base.Text.has_content mdrack.Base.Text.utf8_encodable
    mdrack.Core.Freeze.freeze_json_mapping mdrack.Core.Freeze.fields_list
    mdrack.Core.Common.check_all mdrack.Core.Freeze.freeze_fields mdrack.Base.Order.sort_by
    mdrack.Core.Freeze.fields_of
note_ok = refl

make_search_unit-strings_example : require_strings (unit_strings whole empty_object note) ≡ ok tt
make_search_unit-strings_example = make_search_unit-strings whole empty_object note note note_ok

-- Two keys out of order, with a sequence of two members
abbrev payload : Fields whole
payload = Fields.field (codes "b") Json.null (
    Fields.field (codes "a")
      (Json.tuple (Items.cons (Json.int (pos 1)) (Items.cons Json.null Items.nil))) Fields.end)

abbrev frozen_payload : Fields whole
frozen_payload =
    Fields.field (codes "a")
      (Json.tuple (Items.cons (Json.int (pos 1)) (Items.cons Json.null Items.nil)))
      (Fields.field (codes "b") Json.null Fields.end)

payload_ok : freeze_json_mapping whole empty_object payload ≡ ok frozen_payload
unfolding freeze_json_mapping mdrack.Core.Freeze.fields_list mdrack.Core.Common.check_all
    mdrack.Core.Common.require_utf8_encodable mdrack.Base.Text.utf8_encodable
    mdrack.Core.Freeze.freeze_fields mdrack.Base.Order.sort_by mdrack.Base.Text.str_lt
    mdrack.Core.Freeze.items_list mdrack.Core.Freeze.freeze_items mdrack.Core.Freeze.fields_of
    mdrack.Core.Freeze.items_of
payload_ok = refl

payload_size : size_fields whole frozen_payload ≡ 4
unfolding size_fields
payload_size = refl

freeze_json_mapping-size_example : size_fields whole frozen_payload ≤ max_json_items
freeze_json_mapping-size_example =
    freeze_json_mapping-size whole empty_object payload frozen_payload payload_ok
