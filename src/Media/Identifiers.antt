-- ===== src/Media/Identifiers.antt =====
-- packages/mdrack-media/src/mdrack_media/identifiers.py and fingerprints.py
pub mod Laws
pub mod Made
use mdrack.Base.{
  ℕ, Bool, true, false, ◌&&◌, ◌||◌, Option, none, some, List, [], ◌∷◌, ◌++◌, map, contains, leb,
  eqb, ◌≡◌, if◌then◌else◌, not,
}
use mdrack.Base.Results.{Result, ok, err, ◌>>=◌, ◌>>◌, require}
use mdrack.Base.Text.{Str, codes, str_eq}
use mdrack.Base.Int.{pos}
use mdrack.Base.Floats.{Floats}
use mdrack.Core.Errors.{PyError, value_error}
use mdrack.Core.Json.{Json, Items, Fields}
use mdrack.Core.RequestId.{full_match, times}
use mdrack.Core.Freeze.{items_of}
use mdrack.Media.Common.{require_text, require_int, freeze_metadata, canonical_json}

abbrev pub id_resource : Str
id_resource = codes "resource"

abbrev pub id_representation : Str
id_representation = codes "representation"

abbrev pub id_atom : Str
id_atom = codes "atom"

abbrev pub id_passage : Str
id_passage = codes "passage"

abbrev pub id_frame : Str
id_frame = codes "frame"

abbrev pub id_whole : Str
id_whole = codes "whole"

abbrev pub id_kinds : List Str
id_kinds = id_resource ∷ id_representation ∷ id_atom ∷ id_passage ∷ id_frame ∷ id_whole ∷ []

-- `[0-9a-f]`
unfoldable pub is_lower_hex : ℕ → Bool
is_lower_hex c = (leb b'0' c && leb c b'9') || (leb b'a' c && leb c b'f')

-- A pattern that matches one text only
abbrev pub literal : Str → List (ℕ → Bool)
literal = map (λ (c : ℕ). eqb c)

-- `sha256:[0-9a-f]{64}`
unfoldable pub is_fingerprint : Str → Bool
unfolding full_match times is_lower_hex
is_fingerprint = full_match (literal (codes "sha256:") ++ times 64 is_lower_hex)

-- The alternative of `_ID_PATTERN` for a kind
unfoldable pub is_id_of : Str → Str → Bool
unfolding full_match times is_lower_hex
is_id_of kind = full_match (literal (kind ++ codes "_") ++ times 64 is_lower_hex)

unfoldable pub any_kind : List Str → Str → Bool
unfolding is_id_of
any_kind [] value = false
any_kind (kind ∷ kinds) value = is_id_of kind value || any_kind kinds value

-- `validate_media_id`
unfoldable pub validate_media_id : Str → Option Str → Result PyError Str
unfolding require_text any_kind is_id_of
validate_media_id value kind = do
  require_text value
  require (elim kind [ none ↦ any_kind id_kinds value | some k ↦ is_id_of k value ]) value_error
  ok value

-- `json.dumps`, `hashlib.sha256(text.encode("utf-8")).hexdigest()`, and `str(value)` of a JSON value
-- that is no text
pub record Codec (F : Floats) : Type 0 where
  pub dumps : Json F → Str
  pub sha256_hex : Str → Str
  pub str_of : Json F → Str

-- What `hexdigest` is documented to return: 64 hexadecimal digits in lower case.
pub record IsSha256 (F : Floats) (c : Codec F) : Type 0 where
  pub digest : (s : Str) → full_match (times 64 is_lower_hex) (c.sha256_hex s) ≡ true

module _ (F : Floats) (c : Codec F) where
  -- `_Fingerprint.__post_init__`
  unfoldable pub make_fingerprint : Str → Result PyError Str
  unfolding is_fingerprint
  make_fingerprint value = do require (is_fingerprint value) value_error; ok value

  -- `_Fingerprint.from_payload`, for a payload that is a mapping
  unfoldable pub fingerprint_of : Fields F → Result PyError Str
  unfolding make_fingerprint canonical_json
  fingerprint_of payload = do
    frozen ← freeze_metadata F payload
    encoded ← canonical_json F c.dumps (Json.mapping frozen)
    make_fingerprint (codes "sha256:" ++ c.sha256_hex encoded)

  abbrev pub is_empty : {A : Type 0} → List A → Bool
  is_empty [] = true
  is_empty (x ∷ xs) = false

  -- What `stable_media_id` encodes
  unfoldable pub id_payload : Str → List (Json F) → Json F
  unfolding items_of
  id_payload kind parts = Json.mapping (
      Fields.field (codes "contract") (Json.str (codes "mdrack.media-id.v1")) (
        Fields.field (codes "kind") (Json.str kind)
          (Fields.field (codes "parts") (Json.tuple (items_of F parts)) Fields.end)))

  -- `stable_media_id`
  unfoldable pub stable_media_id : Str → List (Json F) → Result PyError Str
  unfolding canonical_json id_payload
  stable_media_id kind parts = do
    require (contains kind id_kinds) value_error
    require (not (is_empty parts)) value_error
    encoded ← canonical_json F c.dumps (id_payload kind parts)
    ok (kind ++ (codes "_" ++ c.sha256_hex encoded))

  unfoldable pub resource_id : Str → Str → Result PyError Str
  unfolding stable_media_id
  resource_id source_namespace source_identity = do
    require_text source_namespace
    require_text source_identity
    stable_media_id id_resource (Json.str source_namespace ∷ Json.str source_identity ∷ [])

  unfoldable pub representation_id : Str → Str → Str → Str → Result PyError Str
  unfolding stable_media_id validate_media_id
  representation_id resource kind producer normalization = do
    r ← validate_media_id resource (some id_resource)
    require_text kind
    require_text producer
    require_text normalization
    stable_media_id id_representation
        (Json.str r ∷ Json.str kind ∷ Json.str producer ∷ Json.str normalization ∷ [])

  unfoldable pub atom_id : Str → Str → ℕ → Result PyError Str
  unfolding stable_media_id validate_media_id
  atom_id resource producer ordinal = do
    r ← validate_media_id resource (some id_resource)
    require_text producer
    require_int ordinal 0
    stable_media_id id_atom (Json.str r ∷ Json.str producer ∷ Json.int (pos ordinal) ∷ [])

  unfoldable pub passage_id : Str → Str → ℕ → Str → Str → ℕ → ℕ → Str → Result PyError Str
  unfolding stable_media_id validate_media_id
  passage_id resource grouper ordinal first_atom last_atom start_ms end_ms text_digest = do
    r ← validate_media_id resource (some id_resource)
    require_text grouper
    require_int ordinal 0
    a ← validate_media_id first_atom (some id_atom)
    b ← validate_media_id last_atom (some id_atom)
    require_int start_ms 0
    require_int end_ms 0
    require_text text_digest
    stable_media_id id_passage (
        Json.str r
        ∷ Json.str grouper
        ∷ Json.int (pos ordinal)
        ∷ Json.str a
        ∷ Json.str b
        ∷ Json.int (pos start_ms)
        ∷ Json.int (pos end_ms)
        ∷ Json.str text_digest
        ∷ [])

  unfoldable pub frame_id : Str → Str → ℕ → ℕ → Str → Result PyError Str
  unfolding stable_media_id validate_media_id
  frame_id resource producer ordinal timestamp_ms observation = do
    r ← validate_media_id resource (some id_resource)
    require_text producer
    require_int ordinal 0
    require_int timestamp_ms 0
    require_text observation
    stable_media_id id_frame (
        Json.str r
        ∷ Json.str producer
        ∷ Json.int (pos ordinal)
        ∷ Json.int (pos timestamp_ms)
        ∷ Json.str observation
        ∷ [])

  unfoldable pub whole_resource_id : Str → Str → Str → Result PyError Str
  unfolding stable_media_id validate_media_id
  whole_resource_id resource representation aggregation = do
    r ← validate_media_id resource (some id_resource)
    p ← validate_media_id representation (some id_representation)
    require_text aggregation
    stable_media_id id_whole (Json.str r ∷ Json.str p ∷ Json.str aggregation ∷ [])
