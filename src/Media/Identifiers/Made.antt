-- ===== src/Media/Identifiers/Made.antt =====
-- `stable_media_id` returns for parts that are texts and numbers.
use mdrack.Base.{ℕ, ◌≡◌, refl, ap, true, some, List, [], ◌∷◌, ◌++◌, All, contains, arith, leb}
use mdrack.Base.Results.{Result, ok, require, traverse, >>-eq-ok, require-eq-ok}
use mdrack.Base.Order.{sort_by}
use mdrack.Base.Text.{Str, codes, str_eq, str_beq, str_lt, utf8_encodable, has_content}
use mdrack.Base.Int.{pos}
use mdrack.Base.Floats.{Floats}
use mdrack.Core.Errors.{PyError, value_error}
use mdrack.Core.Json.{Json}
use mdrack.Core.Freeze.{items_list, items_of, fields_list, fields_of, field_before}
use mdrack.Media.Common.{require_text, require_int, require_any_text, freeze_json, canonical_json}
use mdrack.Media.Identifiers.{
  Codec, IsSha256, id_kinds, id_payload, validate_media_id, stable_media_id, id_resource,
  id_representation, id_atom, id_passage, representation_id, passage_id,
}
use mdrack.Media.Identifiers.Laws.{stable_media_id-validate}

module _ (F : Floats) where
  -- A part that is frozen as it stands
  abbrev pub IsPlain : Json F → Type 0
  IsPlain (Json.int n) = Unit
  IsPlain (Json.str s) = utf8_encodable s ≡ true
  IsPlain _ = ⊥

  freeze_json-plain : (levels : ℕ) (v : Json F) → IsPlain v → freeze_json F levels v ≡ ok v
  unfolding freeze_json require_any_text
  freeze_json-plain levels Json.null h = absurd h
  freeze_json-plain levels (Json.bool b) h = absurd h
  freeze_json-plain levels (Json.int n) h = refl
  freeze_json-plain levels (Json.float x) h = absurd h
  freeze_json-plain levels (Json.str s) h = rw h refl
  freeze_json-plain levels (Json.tuple vs) h = absurd h
  freeze_json-plain levels (Json.mapping fs) h = absurd h

  traverse-plain :
      (levels : ℕ) (vs : List (Json F))
      → All IsPlain vs
      → traverse (freeze_json F levels) vs ≡ ok vs
  unfolding traverse
  traverse-plain levels [] h = refl
  traverse-plain levels (v ∷ vs) h =
      rw (freeze_json-plain levels v h.0, traverse-plain levels vs h.1) refl

  items_list-items_of : (vs : List (Json F)) → items_list F (items_of F vs) ≡ vs
  unfolding items_list items_of
  items_list-items_of [] = refl
  items_list-items_of (v ∷ vs) = ap (◌∷◌ v) (items_list-items_of vs)

  freeze_json-id_payload :
      (c : Codec F) (kind : Str) (parts : List (Json F))
      → utf8_encodable kind ≡ true
      → All IsPlain parts
      → freeze_json F 64 (id_payload F c kind parts) ≡ ok (id_payload F c kind parts)
  unfolding freeze_json require_any_text traverse sort_by fields_list fields_of field_before str_lt
      utf8_encodable items_of id_payload
  freeze_json-id_payload c kind parts h k =
      rw (h, items_list-items_of parts, traverse-plain 62 parts k) refl

-- What `validate_media_id` accepts as an id of a kind
abbrev pub IsId : Str → Str → Type 0
IsId kind id = validate_media_id id (some kind) ≡ ok id

-- Every number is at least zero.
pub require_int-zero : (n : ℕ) → require_int n 0 ≡ ok tt
unfolding require_int
require_int-zero n = let e : leb 0 n ≡ true = ground arith in rw e refl

-- A text that `require_text` accepts
abbrev pub IsReadable : Str → Type 0
IsReadable s = require_text s ≡ ok tt

pub IsReadable-utf8_encodable : (s : Str) → IsReadable s → utf8_encodable s ≡ true
unfolding require_text require_any_text
IsReadable-utf8_encodable s h =
    let (p, q) =
      >>-eq-ok (require (has_content s) value_error) (require (utf8_encodable s) value_error) h in
    require-eq-ok (utf8_encodable s) value_error q

pub IsId-utf8_encodable : (kind id : Str) → IsId kind id → utf8_encodable id ≡ true
unfolding validate_media_id
IsId-utf8_encodable kind id h =
    let (p, q) = >>-eq-ok (require_text id) _ h in IsReadable-utf8_encodable id p

module _ (F : Floats) (c : Codec F) where
  -- An id of the kind is made.
  abbrev pub Makes : Str → Result PyError Str → Type 0
  Makes kind r = (id : Str) × (r ≡ ok id) × IsId kind id

  pub stable_media_id-returns :
      (kind : Str) (v : Json F) (parts : List (Json F))
      → IsSha256 F c
      → contains kind id_kinds ≡ true
      → utf8_encodable kind ≡ true
      → All (IsPlain F) (v ∷ parts)
      → Makes kind (stable_media_id F c kind (v ∷ parts))
  unfolding stable_media_id canonical_json
  stable_media_id-returns kind v parts sha known clean plain =
      let e : stable_media_id F c kind (v ∷ parts)
          ≡ ok (kind ++ (codes "_" ++ c.sha256_hex (c.dumps (id_payload F c kind (v ∷ parts))))) =
        rw (known, freeze_json-id_payload F c kind (v ∷ parts) clean plain) refl in
      (_, e, stable_media_id-validate F c kind (v ∷ parts) sha e)

  pub representation_id-returns :
      (resource kind producer normalization : Str)
      → IsSha256 F c
      → IsId id_resource resource
      → IsReadable kind
      → IsReadable producer
      → IsReadable normalization
      → Makes id_representation (representation_id F c resource kind producer normalization)
  unfolding representation_id utf8_encodable str_beq
  representation_id-returns resource kind producer normalization sha r k p n =
      rw (r, k, p, n)
        (stable_media_id-returns id_representation (Json.str resource)
          (Json.str kind ∷ Json.str producer ∷ Json.str normalization ∷ []) sha refl refl
          (
            IsId-utf8_encodable id_resource resource r,
            (
              IsReadable-utf8_encodable kind k,
              (
                IsReadable-utf8_encodable producer p,
                (IsReadable-utf8_encodable normalization n, tt),
              ),
            ),
          ))

  pub passage_id-returns :
      (resource grouper : Str) (ordinal : ℕ) (first last : Str) (start_ms end_ms : ℕ) (digest : Str)
      → IsSha256 F c
      → IsId id_resource resource
      → IsReadable grouper
      → IsId id_atom first
      → IsId id_atom last
      → IsReadable digest
      → Makes id_passage (passage_id F c resource grouper ordinal first last start_ms end_ms digest)
  unfolding passage_id utf8_encodable str_beq
  passage_id-returns resource grouper ordinal first last start_ms end_ms digest sha r g a b d =
      rw
        (
          r,
          g,
          require_int-zero ordinal,
          a,
          b,
          require_int-zero start_ms,
          require_int-zero end_ms,
          d,
        )
        (stable_media_id-returns id_passage (Json.str resource)
          (Json.str grouper
            ∷ Json.int (pos ordinal)
            ∷ Json.str first
            ∷ Json.str last
            ∷ Json.int (pos start_ms)
            ∷ Json.int (pos end_ms)
            ∷ Json.str digest
            ∷ [])
          sha refl refl
          (
            IsId-utf8_encodable id_resource resource r,
            (
              IsReadable-utf8_encodable grouper g,
              (
                tt,
                (
                  IsId-utf8_encodable id_atom first a,
                  (
                    IsId-utf8_encodable id_atom last b,
                    (tt, (tt, (IsReadable-utf8_encodable digest d, tt))),
                  ),
                ),
              ),
            ),
          ))
