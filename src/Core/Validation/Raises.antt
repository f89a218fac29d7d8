-- ===== src/Core/Validation/Raises.antt =====
-- The validator raises `ValueError` and nothing else.
use mdrack.Base.{
  ℕ, zero, suc, ◌+◌, ◌≡◌, refl, Bool, true, false, not, Option, none, some, List, [], ◌∷◌, map,
  length, contains, Eq,
}
use mdrack.Base.Results.{Result, ok, err, ◌>>=◌, ◌>>◌, require}
use mdrack.Base.Dict.{Dict}
use mdrack.Base.Text.{Str, utf8_encodable}
use mdrack.Base.Floats.{Floats}
use mdrack.Core.Errors.{PyError, value_error}
use mdrack.Core.Json.{Json, Fields}
use mdrack.Core.Common.{require_utf8_encodable, require_finite_number, check_all}
use mdrack.Core.Freeze.{
  count_items, freeze_items, freeze_fields, freeze_json_value, freeze_json_mapping, items_list,
  fields_list, max_json_depth,
}
use mdrack.Core.Records.{
  Locator, SearchUnitRecord, RepresentationRecord, EmbeddingSpaceRecord, VectorRecord,
  PreparedResourceBatch,
}
use mdrack.Core.Validation.{
  require_unique, require_strings, require_locator, require_metadata, validate_persisted_strings,
  require_some, check_unit, check_vector, validate_unique, validate_graph, validate_prepared_batch,
}

pub record RaisesValue {A : Type 0} (r : Result PyError A) : Type 0 where
  pub value_only : (e : PyError) → r ≡ err e → e ≡ value_error

ok-RaisesValue : {A : Type 0} (a : A) → RaisesValue {A = A} (ok a)
ok-RaisesValue a = record { value_only = λ e h. cc }

err-RaisesValue : {A : Type 0} → RaisesValue {A = A} (err value_error)
err-RaisesValue = record { value_only = λ e h. cc }

bind-RaisesValue :
    {A B : Type 0} (r : Result PyError A) (f : A → Result PyError B)
    → RaisesValue r
    → ((a : A) → RaisesValue (f a))
    → RaisesValue (r >>= f)
bind-RaisesValue (ok a) f h k = k a
bind-RaisesValue {A} {B} (err e) f h k = rw (h.value_only e refl) (err-RaisesValue {A = B})

require-RaisesValue : (b : Bool) → RaisesValue (require b value_error)
require-RaisesValue true = ok-RaisesValue tt
require-RaisesValue false = err-RaisesValue

-- A step, then the rest.
then-RaisesValue :
    {B : Type 0} (r : Result PyError (Unit {0})) (s : Result PyError B)
    → RaisesValue r
    → RaisesValue s
    → RaisesValue (r >> s)
then-RaisesValue r s h k = bind-RaisesValue r (λ _. s) h (λ _. k)

check_all-RaisesValue :
    {A : Type 0} (f : A → Result PyError (Unit {0})) (xs : List A)
    → ((x : A) → RaisesValue (f x))
    → RaisesValue (check_all f xs)
unfolding check_all
check_all-RaisesValue f [] h = ok-RaisesValue _
check_all-RaisesValue f (x ∷ xs) h =
    then-RaisesValue (f x) (check_all f xs) (h x) (check_all-RaisesValue f xs h)

require_utf8_encodable-RaisesValue : (s : Str) → RaisesValue (require_utf8_encodable s)
unfolding require_utf8_encodable
require_utf8_encodable-RaisesValue s = require-RaisesValue (utf8_encodable s)

require_strings-RaisesValue : (values : List (Option Str)) → RaisesValue (require_strings values)
unfolding require_strings
require_strings-RaisesValue [] = ok-RaisesValue _
require_strings-RaisesValue (none ∷ values) = require_strings-RaisesValue values
require_strings-RaisesValue (some v ∷ values) =
    then-RaisesValue (require_utf8_encodable v) (require_strings values)
      (require_utf8_encodable-RaisesValue v) (require_strings-RaisesValue values)

require_unique-RaisesValue :
    {A : Type 0} ⦃e : Eq A⦄ (values seen : List A) → RaisesValue (require_unique values seen)
unfolding require_unique
require_unique-RaisesValue [] seen = ok-RaisesValue _
require_unique-RaisesValue (v ∷ values) seen =
    then-RaisesValue (require (not (contains v seen)) value_error)
      (require_unique values (v ∷ seen)) (require-RaisesValue (not (contains v seen)))
      (require_unique-RaisesValue values (v ∷ seen))

module _ (F : Floats) where
  -- Freezing one value raises nothing else.
  abbrev Freezes : (Json F → ℕ → Result PyError (Json F × ℕ)) → Type 0
  Freezes freeze = (v : Json F) (n : ℕ) → RaisesValue (freeze v n)

  freeze_items-RaisesValue :
      (freeze : Json F → ℕ → Result PyError (Json F × ℕ)) (vs : List (Json F)) (n : ℕ)
      → Freezes freeze
      → RaisesValue (freeze_items F freeze vs n)
  unfolding freeze_items
  freeze_items-RaisesValue freeze [] n h = ok-RaisesValue _
  freeze_items-RaisesValue freeze (v ∷ vs) n h = bind-RaisesValue (freeze v n) _ (h v n) (λ first.
      bind-RaisesValue (freeze_items F freeze vs first.1) _
        (freeze_items-RaisesValue freeze vs first.1 h) (λ _. ok-RaisesValue _))

  freeze_fields-RaisesValue :
      (freeze : Json F → ℕ → Result PyError (Json F × ℕ)) (fs : List (Str × Json F)) (n : ℕ)
      → Freezes freeze
      → RaisesValue (freeze_fields F freeze fs n)
  unfolding freeze_fields
  freeze_fields-RaisesValue freeze [] n h = ok-RaisesValue _
  freeze_fields-RaisesValue freeze (f ∷ fs) n h =
      bind-RaisesValue (freeze f.1 n) _ (h f.1 n) (λ first.
        bind-RaisesValue (freeze_fields F freeze fs first.1) _
          (freeze_fields-RaisesValue freeze fs first.1 h) (λ _. ok-RaisesValue _))

  count_items-RaisesValue : (n m : ℕ) → RaisesValue (count_items F n m)
  unfolding count_items
  count_items-RaisesValue n m =
      bind-RaisesValue (require _ value_error) _ (require-RaisesValue _) (λ _. ok-RaisesValue _)

  freeze_json_value-RaisesValue : (levels : ℕ) → Freezes (freeze_json_value F levels)
  unfolding freeze_json_value require_finite_number
  freeze_json_value-RaisesValue zero v n = err-RaisesValue
  freeze_json_value-RaisesValue (suc levels) Json.null n = ok-RaisesValue _
  freeze_json_value-RaisesValue (suc levels) (Json.bool b) n = ok-RaisesValue _
  freeze_json_value-RaisesValue (suc levels) (Json.int i) n = ok-RaisesValue _
  freeze_json_value-RaisesValue (suc levels) (Json.float x) n =
      then-RaisesValue (require (F.is_finite x) value_error) _ (require-RaisesValue (F.is_finite x))
        (ok-RaisesValue _)
  freeze_json_value-RaisesValue (suc levels) (Json.str s) n =
      then-RaisesValue (require_utf8_encodable s) _ (require_utf8_encodable-RaisesValue s)
        (ok-RaisesValue _)
  freeze_json_value-RaisesValue (suc levels) (Json.tuple vs) n =
      bind-RaisesValue (count_items F n (length (items_list F vs))) _
        (count_items-RaisesValue n (length (items_list F vs)))
        (λ count.
          bind-RaisesValue (freeze_items F (freeze_json_value F levels) (items_list F vs) count) _
            (freeze_items-RaisesValue (freeze_json_value F levels) (items_list F vs) count
              (freeze_json_value-RaisesValue levels))
            (λ _. ok-RaisesValue _))
  freeze_json_value-RaisesValue (suc levels) (Json.mapping fs) n =
      bind-RaisesValue (count_items F n (length (fields_list F fs))) _
        (count_items-RaisesValue n (length (fields_list F fs)))
        (λ count.
          then-RaisesValue
            (check_all require_utf8_encodable (map (λ (f : Str × Json F). f.0) (fields_list F fs)))
            _
            (check_all-RaisesValue require_utf8_encodable
              (map (λ (f : Str × Json F). f.0) (fields_list F fs))
              require_utf8_encodable-RaisesValue)
            (bind-RaisesValue (freeze_fields F (freeze_json_value F levels) _ count) _
              (freeze_fields-RaisesValue (freeze_json_value F levels) _ count
                (freeze_json_value-RaisesValue levels))
              (λ _. ok-RaisesValue _)))

  module _ (canonical_json : Json F → Str) where
    freeze_json_mapping-RaisesValue :
        (fs : Fields F) → RaisesValue (freeze_json_mapping F canonical_json fs)
    unfolding freeze_json_mapping
    freeze_json_mapping-RaisesValue fs =
        bind-RaisesValue (freeze_json_value F (max_json_depth + 1) (Json.mapping fs) 0) _
          (freeze_json_value-RaisesValue (max_json_depth + 1) (Json.mapping fs) 0)
          (λ frozen.
            then-RaisesValue (require _ value_error) _ (require-RaisesValue _) (mapped frozen.0))
      where
        mapped :
            (v : Json F)
            → RaisesValue {A = Fields F}
                (elim v [ Json.mapping gs ↦ ok gs | other ↦ err value_error ])
        mapped (Json.mapping gs) = ok-RaisesValue gs
        mapped Json.null = err-RaisesValue
        mapped (Json.bool b) = err-RaisesValue
        mapped (Json.int i) = err-RaisesValue
        mapped (Json.float x) = err-RaisesValue
        mapped (Json.str t) = err-RaisesValue
        mapped (Json.tuple vs) = err-RaisesValue

    ruleset raises_value = (
      then-RaisesValue, bind-RaisesValue, ok-RaisesValue, err-RaisesValue, require-RaisesValue,
      check_all-RaisesValue, require_utf8_encodable-RaisesValue, require_strings-RaisesValue,
      require_unique-RaisesValue, freeze_json_mapping-RaisesValue,
    )

    require_locator-RaisesValue : (l : Locator F) → RaisesValue (require_locator F canonical_json l)
    unfolding require_locator
    require_locator-RaisesValue l = search raises_value

    require_metadata-RaisesValue :
        (fs : Fields F) → RaisesValue (require_metadata F canonical_json fs)
    unfolding require_metadata
    require_metadata-RaisesValue fs = search raises_value

    validate_persisted_strings-RaisesValue :
        (b : PreparedResourceBatch F) → RaisesValue (validate_persisted_strings F canonical_json b)
    unfolding validate_persisted_strings
    validate_persisted_strings-RaisesValue b =
        search (raises_value, require_locator-RaisesValue, require_metadata-RaisesValue) depth 14

    require_some-RaisesValue :
        {A : Type 0} (o : Option A) → RaisesValue (require_some F canonical_json o)
    require_some-RaisesValue none = err-RaisesValue
    require_some-RaisesValue (some a) = ok-RaisesValue a

    require_finite_number-RaisesValue : (x : F.Float) → RaisesValue (require_finite_number F x)
    unfolding require_finite_number
    require_finite_number-RaisesValue x = require-RaisesValue (F.is_finite x)

    check_unit-RaisesValue :
        (id : Str) (d : Dict Str (RepresentationRecord F)) (u : SearchUnitRecord F)
        → RaisesValue (check_unit F canonical_json id d u)
    unfolding check_unit
    check_unit-RaisesValue id d u = search (raises_value, require_some-RaisesValue)

    check_vector-RaisesValue :
        (units : List Str) (d : Dict Str (EmbeddingSpaceRecord F)) (v : VectorRecord F)
        → RaisesValue (check_vector F canonical_json units d v)
    unfolding check_vector
    check_vector-RaisesValue units d v =
        search (raises_value, require_some-RaisesValue, require_finite_number-RaisesValue) depth 14

    validate_unique-RaisesValue :
        (b : PreparedResourceBatch F) → RaisesValue (validate_unique F canonical_json b)
    unfolding validate_unique
    validate_unique-RaisesValue b = search raises_value

    validate_graph-RaisesValue :
        (b : PreparedResourceBatch F) → RaisesValue (validate_graph F canonical_json b)
    unfolding validate_graph
    validate_graph-RaisesValue b =
        search (raises_value, check_unit-RaisesValue, check_vector-RaisesValue) depth 14

    pub validate_prepared_batch-RaisesValue :
        (b : PreparedResourceBatch F) → RaisesValue (validate_prepared_batch F canonical_json b)
    unfolding validate_prepared_batch
    validate_prepared_batch-RaisesValue b = search (
      raises_value, validate_persisted_strings-RaisesValue, validate_unique-RaisesValue,
      validate_graph-RaisesValue,
    )
