-- ===== src/Core/Checks/Strings.antt =====
-- The records that were built carry texts that can be persisted.
use mdrack.Base.{◌≡◌, refl, subst, ℕ, Option, none, some, List, [], ◌∷◌, All}
use mdrack.Base.Results.{ok, >>-eq-ok, >>=-eq-ok, require}
use mdrack.Base.Text.{Str, str_eq, has_content}
use mdrack.Base.Floats.{Floats}
use mdrack.Core.Errors.{value_error}
use mdrack.Core.Json.{Json}
use mdrack.Core.Common.{require_non_empty, require_optional_non_empty, require_integer}
use mdrack.Core.Records.{SearchUnitRecord}
use mdrack.Core.Freeze.{freeze_json_mapping}
use mdrack.Core.Validation.{require_strings}
use mdrack.Core.Checks.{require_optional_text, validate_token_count, make_search_unit}

-- Each text that is there can be encoded.
abbrev Encodable : Option Str → Type 0
Encodable o = require_optional_text o ≡ ok tt

require_strings-All :
    (values : List (Option Str)) → All Encodable values → require_strings values ≡ ok tt
unfolding require_strings require_optional_text
require_strings-All [] h = refl
require_strings-All (none ∷ values) h = require_strings-All values h.1
require_strings-All (some v ∷ values) h = rw (h.0, require_strings-All values h.1) refl

non_empty-Encodable : (s : Str) → require_non_empty s ≡ ok tt → Encodable (some s)
unfolding require_non_empty require_optional_text
non_empty-Encodable s h = (>>-eq-ok (require (has_content s) value_error) _ h).1

optional-Encodable : (o : Option Str) → require_optional_non_empty o ≡ ok tt → Encodable o
unfolding require_optional_non_empty require_optional_text
optional-Encodable none h = refl
optional-Encodable (some s) h = non_empty-Encodable s h

count-Encodable :
    (count : Option ℕ) (kind : Option Str)
    → validate_token_count count kind ≡ ok tt
    → Encodable kind
unfolding validate_token_count require_optional_text
count-Encodable none none h = refl
count-Encodable none (some k) h = cc
count-Encodable (some n) none h = cc
count-Encodable (some n) (some k) h =
    non_empty-Encodable k
      (>>-eq-ok (require_non_empty k) _ (>>-eq-ok (require_integer n 0) _ h).1).0

module _ (F : Floats) (canonical_json : Json F → Str) where
  -- The texts of a unit that the validator asks to be encodable
  abbrev pub unit_strings : SearchUnitRecord F → List (Option Str)
  unit_strings u =
      some u.unit_id
      ∷ some u.resource_id
      ∷ some u.representation_id
      ∷ some u.unit_kind
      ∷ some u.modality
      ∷ u.text
      ∷ u.token_count_kind
      ∷ []

  -- A search unit that its constructor returns carries texts that the batch validator accepts.
  pub make_search_unit-strings :
      (u built : SearchUnitRecord F)
      → make_search_unit F canonical_json u ≡ ok built
      → require_strings (unit_strings built) ≡ ok tt
  unfolding make_search_unit
  make_search_unit-strings u built h =
      let (a, h1) = >>-eq-ok (require_non_empty u.unit_id) _ h in
      let (b, h2) = >>-eq-ok (require_non_empty u.resource_id) _ h1 in
      let (c, h3) = >>-eq-ok (require_non_empty u.representation_id) _ h2 in
      let (d, h4) = >>-eq-ok (require_non_empty u.unit_kind) _ h3 in
      let (e, h5) = >>-eq-ok (require_non_empty u.modality) _ h4 in
      let (t, h6) = >>-eq-ok (require_optional_text u.text) _ h5 in
      let (_, h7) = >>-eq-ok (require_integer u.ordinal 0) _ h6 in
      let (k, h8) = >>-eq-ok (validate_token_count u.token_count u.token_count_kind) _ h7 in
      let (metadata, _, same) = >>=-eq-ok (freeze_json_mapping F canonical_json u.metadata) _ h8 in
      let built_from : record u { metadata = metadata } ≡ built = cc in
      subst (λ v. require_strings (unit_strings v) ≡ ok tt) built_from
        (require_strings-All (unit_strings u) (
          non_empty-Encodable u.unit_id a,
          (
            non_empty-Encodable u.resource_id b,
            (
              non_empty-Encodable u.representation_id c,
              (
                non_empty-Encodable u.unit_kind d,
                (
                  non_empty-Encodable u.modality e,
                  (t, (count-Encodable u.token_count u.token_count_kind k, tt)),
                ),
              ),
            ),
          ),
        ))
