-- ===== src/Media/Common.antt =====
-- The validators and the JSON grammar of packages/mdrack-media/src/mdrack_media/common.py, on values
-- that have the type which the annotation names.
use mdrack.Base.{ℕ, zero, suc, not, ◌&&◌, leb}
use mdrack.Base.Results.{Result, ok, err, ◌>>=◌, ◌>>◌, require, traverse}
use mdrack.Base.Order.{sort_by}
use mdrack.Base.Text.{Str, has_content, utf8_encodable}
use mdrack.Base.Floats.{Floats}
use mdrack.Core.Errors.{PyError, value_error}
use mdrack.Core.Json.{Json, Fields}
use mdrack.Core.Freeze.{items_list, items_of, fields_list, fields_of, field_before}

-- `require_text` with `allow_empty=True`
unfoldable pub require_any_text : Str → Result PyError (Unit {0})
require_any_text s = require (utf8_encodable s) value_error

-- `require_text`
unfoldable pub require_text : Str → Result PyError (Unit {0})
unfolding require_any_text
require_text s = do require (has_content s) value_error; require_any_text s

-- `require_int`
unfoldable pub require_int : ℕ → ℕ → Result PyError (Unit {0})
require_int value minimum = require (leb minimum value) value_error

abbrev pub max_json_container_depth : ℕ
max_json_container_depth = 64

module _ (F : Floats) where
  -- `require_probability`
  unfoldable pub require_probability : F.Float → Result PyError (Unit {0})
  require_probability x = do
    require (F.is_finite x) value_error
    require (not (F.lt x F.zero_float) && not (F.lt F.one_float x)) value_error

  -- One item of a mapping, its value frozen by `freeze`
  abbrev pub freeze_field :
      (Json F → Result PyError (Json F)) → Str × Json F → Result PyError (Str × Json F)
  freeze_field freeze f = do require_any_text f.0; v ← freeze f.1; ok (f.0, v)

  -- `_freeze_json`, where `levels` is `_MAX_JSON_CONTAINER_DEPTH - container_depth`. A value is a
  -- tree here, so no container is met while it is active.
  unfoldable pub freeze_json : ℕ → Json F → Result PyError (Json F)
  unfolding require_any_text
  freeze_json levels Json.null = ok Json.null
  freeze_json levels (Json.bool b) = ok (Json.bool b)
  freeze_json levels (Json.int n) = ok (Json.int n)
  freeze_json levels (Json.float x) = do require (F.is_finite x) value_error; ok (Json.float x)
  freeze_json levels (Json.str s) = do require_any_text s; ok (Json.str s)
  freeze_json zero (Json.tuple vs) = err value_error
  freeze_json (suc levels) (Json.tuple vs) = do
    frozen ← traverse (freeze_json levels) (items_list F vs)
    ok (Json.tuple (items_of F frozen))
  freeze_json zero (Json.mapping fs) = err value_error
  freeze_json (suc levels) (Json.mapping fs) = do
    frozen ←
        traverse (freeze_field (freeze_json levels)) (sort_by (field_before F) (fields_list F fs))
    ok (Json.mapping (fields_of F frozen))

  -- `freeze_metadata`
  unfoldable pub freeze_metadata : Fields F → Result PyError (Fields F)
  unfolding freeze_json
  freeze_metadata fs = do
    frozen ← freeze_json max_json_container_depth (Json.mapping fs)
    elim frozen [ Json.mapping gs ↦ ok gs | other ↦ err value_error ]

  -- `canonical_json`, for what `json.dumps` writes
  unfoldable pub canonical_json : (Json F → Str) → Json F → Result PyError Str
  unfolding freeze_json
  canonical_json dumps value = do
    frozen ← freeze_json max_json_container_depth value
    ok (dumps frozen)
