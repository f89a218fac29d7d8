-- ===== src/Core/Freeze.antt =====
-- `_freeze_json_value` and `freeze_json_mapping` of
-- packages/mdrack-core/src/mdrack_core/domain/common.py, on values of the JSON grammar.
pub mod Size
use mdrack.Base.{ℕ, zero, suc, ◌+◌, Bool, List, [], ◌∷◌, map, length, leb, ltb, if◌then◌else◌}
use mdrack.Base.Results.{Result, ok, err, ◌>>=◌, ◌>>◌, require}
use mdrack.Base.Order.{sort_by}
use mdrack.Base.Text.{Str, str_lt}
use mdrack.Base.Floats.{Floats}
use mdrack.Core.Errors.{PyError, value_error}
use mdrack.Core.Json.{Json, Items, Fields}
use mdrack.Core.Common.{require_utf8_encodable, require_finite_number, check_all}

abbrev pub max_json_depth : ℕ
max_json_depth = 16

abbrev pub max_json_items : ℕ
max_json_items = 10000

abbrev pub max_json_bytes : ℕ
max_json_bytes = 1000000

-- `len(s.encode("utf-8"))`
unfoldable pub utf8_length : Str → ℕ
utf8_length [] = 0
utf8_length (c ∷ s) =
    (if ltb c 128 then 1 else if ltb c 2048 then 2 else if ltb c 65536 then 3 else 4)
    + utf8_length s

module _ (F : Floats) where
  unfoldable pub items_list : Items F → List (Json F)
  items_list Items.nil = []
  items_list (Items.cons v vs) = v ∷ items_list vs

  unfoldable pub items_of : List (Json F) → Items F
  items_of [] = Items.nil
  items_of (v ∷ vs) = Items.cons v (items_of vs)

  unfoldable pub fields_list : Fields F → List (Str × Json F)
  fields_list Fields.end = []
  fields_list (Fields.field k v fs) = (k, v) ∷ fields_list fs

  unfoldable pub fields_of : List (Str × Json F) → Fields F
  fields_of [] = Fields.end
  fields_of ((k, v) ∷ fs) = Fields.field k v (fields_of fs)

  -- A value with the `item_count` after it
  abbrev Frozen : Type 0 → Type 0
  Frozen A = Result PyError (A × ℕ)

  -- `item_count[0] += len(value)` and the test below it
  unfoldable pub count_items : ℕ → ℕ → Result PyError ℕ
  count_items item_count n = do
    require (leb (item_count + n) max_json_items) value_error
    ok (item_count + n)

  -- The members in their order, each frozen by `freeze`
  unfoldable pub freeze_items :
      (Json F → ℕ → Frozen (Json F)) → List (Json F) → ℕ → Frozen (List (Json F))
  freeze_items freeze [] item_count = ok ([], item_count)
  freeze_items freeze (v ∷ vs) item_count = do
    first ← freeze v item_count
    rest ← freeze_items freeze vs first.1
    ok (first.0 ∷ rest.0, rest.1)

  unfoldable pub freeze_fields :
      (Json F → ℕ → Frozen (Json F)) → List (Str × Json F) → ℕ → Frozen (List (Str × Json F))
  freeze_fields freeze [] item_count = ok ([], item_count)
  freeze_fields freeze (f ∷ fs) item_count = do
    first ← freeze f.1 item_count
    rest ← freeze_fields freeze fs first.1
    ok ((f.0, first.0) ∷ rest.0, rest.1)

  -- The key of `sorted(keys)`
  abbrev pub field_before : Str × Json F → Str × Json F → Bool
  field_before f g = str_lt f.0 g.0

  -- `_freeze_json_value`, where `levels` is `MAX_JSON_DEPTH + 1 - depth`
  unfoldable pub freeze_json_value : ℕ → Json F → ℕ → Frozen (Json F)
  unfolding count_items
  freeze_json_value zero value item_count = err value_error
  freeze_json_value (suc levels) Json.null item_count = ok (Json.null, item_count)
  freeze_json_value (suc levels) (Json.bool b) item_count = ok (Json.bool b, item_count)
  freeze_json_value (suc levels) (Json.int n) item_count = ok (Json.int n, item_count)
  freeze_json_value (suc levels) (Json.float x) item_count = do
    require_finite_number F x
    ok (Json.float x, item_count)
  freeze_json_value (suc levels) (Json.str s) item_count = do
    require_utf8_encodable s
    ok (Json.str s, item_count)
  freeze_json_value (suc levels) (Json.tuple vs) item_count = do
    count ← count_items item_count (length (items_list vs))
    frozen ← freeze_items (freeze_json_value levels) (items_list vs) count
    ok (Json.tuple (items_of frozen.0), frozen.1)
  freeze_json_value (suc levels) (Json.mapping fs) item_count = do
    count ← count_items item_count (length (fields_list fs))
    check_all require_utf8_encodable (map (λ (f : Str × Json F). f.0) (fields_list fs))
    frozen ← freeze_fields (freeze_json_value levels) (sort_by field_before (fields_list fs)) count
    ok (Json.mapping (fields_of frozen.0), frozen.1)

  -- `freeze_json_mapping`, where `canonical_json` gives the text that `json.dumps` writes
  unfoldable pub freeze_json_mapping : (Json F → Str) → Fields F → Result PyError (Fields F)
  unfolding freeze_json_value utf8_length
  freeze_json_mapping canonical_json fs = do
    frozen ← freeze_json_value (max_json_depth + 1) (Json.mapping fs) 0
    require (leb (utf8_length (canonical_json frozen.0)) max_json_bytes) value_error
    elim frozen.0 [ Json.mapping gs ↦ ok gs | other ↦ err value_error ]
