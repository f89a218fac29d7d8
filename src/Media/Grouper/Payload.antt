-- ===== src/Media/Grouper/Payload.antt =====
-- The fingerprint payload of a run can be frozen and has a fingerprint.
use mdrack.Base.{◌≡◌, refl, true, ◌++◌, contains, contains-All}
use mdrack.Base.Results.{ok, traverse}
use mdrack.Base.Order.{sort_by}
use mdrack.Base.Text.{Str, codes, str_eq, str_lt, has_content, utf8_encodable, is_space}
use mdrack.Base.Int.{pos}
use mdrack.Base.Floats.{Floats}
use mdrack.Core.Json.{Json, Fields}
use mdrack.Core.Freeze.{items_list, items_of, fields_list, fields_of, field_before}
use mdrack.Core.RequestId.{full_match, times}
use mdrack.Media.Common.{
  require_text, require_any_text, freeze_json, freeze_metadata, canonical_json,
}
use mdrack.Media.Identifiers.{
  Codec, IsSha256, is_lower_hex, is_fingerprint, make_fingerprint, fingerprint_of,
}
use mdrack.Media.Identifiers.Laws.{full_match-literal, hex-utf8_encodable}
use mdrack.Media.Identifiers.Made.{IsReadable, IsReadable-utf8_encodable}
use mdrack.Media.Records.{token_count_kinds}
use mdrack.Media.Grouper.Boundary.{unsplittable_policies}
use mdrack.Media.Policies.{TimedChunkingPolicy}
use mdrack.Media.Grouper.Input.{fingerprint_payload, payload_with, policy_fields, score_weights}

module _ (F : Floats) where
  -- The weights in the order of their names
  abbrev sorted_weights : Fields F
  sorted_weights = Fields.field (codes "hard_limit_risk") (Json.int (pos 100)) (
      Fields.field (codes "line_break") (Json.int (pos 15)) (
        Fields.field (codes "medium_pause") (Json.int (pos 15)) (
          Fields.field (codes "sentence_end") (Json.int (pos 40)) (
            Fields.field (codes "soft_max") (Json.int (pos 20)) (
              Fields.field (codes "speaker_change") (Json.int (pos 45)) (
                Fields.field (codes "strong_pause") (Json.int (pos 35)) (
                  Fields.field (codes "target_duration") (Json.int (pos 10))
                    (Fields.field (codes "target_tokens") (Json.int (pos 10)) Fields.end))))))))

  -- A payload that is frozen twice: the second time it stays as it is.
  abbrev pub Freezes : Fields F → Fields F → Type 0
  Freezes fields fs =
      (freeze_json F 64 (Json.mapping fields) ≡ ok (Json.mapping fs))
      × (freeze_json F 64 (Json.mapping fs) ≡ ok (Json.mapping fs))

  freeze_json-fingerprint_payload :
      (policy : TimedChunkingPolicy) (counter kind unsplittable : Str)
      → utf8_encodable counter ≡ true
      → utf8_encodable kind ≡ true
      → utf8_encodable unsplittable ≡ true
      → Freezes
          (fingerprint_payload F policy counter kind unsplittable)
          (payload_with F sorted_weights policy counter kind unsplittable)
  unfolding freeze_json require_any_text traverse sort_by fields_list fields_of field_before str_lt
      utf8_encodable items_of items_list fingerprint_payload payload_with policy_fields
      score_weights
  freeze_json-fingerprint_payload policy counter kind unsplittable a b d =
      (rw (a, b, d) refl, rw (a, b, d) refl)

  pub freeze_metadata-returns :
      (fields fs : Fields F)
      → freeze_json F 64 (Json.mapping fields) ≡ ok (Json.mapping fs)
      → freeze_metadata F fields ≡ ok fs
  unfolding freeze_metadata
  freeze_metadata-returns fields fs e = rw e refl

  -- The payload is frozen without an error.
  pub fingerprint_payload-Freezes :
      (policy : TimedChunkingPolicy) (counter kind unsplittable : Str)
      → IsReadable counter
      → contains kind token_count_kinds ≡ true
      → contains unsplittable unsplittable_policies ≡ true
      → (fs : Fields F) × Freezes (fingerprint_payload F policy counter kind unsplittable) fs
  unfolding utf8_encodable
  fingerprint_payload-Freezes policy counter kind unsplittable a b d = (
    payload_with F sorted_weights policy counter kind unsplittable,
    freeze_json-fingerprint_payload policy counter kind unsplittable
        (IsReadable-utf8_encodable counter a)
        (contains-All (λ s. utf8_encodable s ≡ true) kind token_count_kinds b (refl, (refl, tt)))
        (contains-All (λ s. utf8_encodable s ≡ true) unsplittable unsplittable_policies d
          (refl, (refl, tt))),
  )

-- A fingerprint can be read.
pub fingerprint-IsReadable :
    (d : Str) → full_match (times 64 is_lower_hex) d ≡ true → IsReadable (codes "sha256:" ++ d)
unfolding require_text require_any_text has_content utf8_encodable is_space
fingerprint-IsReadable d h = rw (hex-utf8_encodable 64 d h) refl

pub is_fingerprint-digest :
    (d : Str)
    → full_match (times 64 is_lower_hex) d ≡ true
    → is_fingerprint (codes "sha256:" ++ d) ≡ true
unfolding is_fingerprint
is_fingerprint-digest d h = full_match-literal (codes "sha256:") d (times 64 is_lower_hex) h

module _ (F : Floats) (c : Codec F) where
  -- A payload that can be frozen has a fingerprint.
  pub fingerprint_of-returns :
      (payload fs : Fields F)
      → IsSha256 F c
      → Freezes F payload fs
      → (f : Str) × (fingerprint_of F c payload ≡ ok f) × (is_fingerprint f ≡ true) × IsReadable f
  unfolding fingerprint_of canonical_json make_fingerprint
  fingerprint_of-returns payload fs sha e =
      let d = sha.digest (c.dumps (Json.mapping fs)) in
      let h : is_fingerprint (codes "sha256:" ++ c.sha256_hex (c.dumps (Json.mapping fs))) ≡ true =
        is_fingerprint-digest (c.sha256_hex (c.dumps (Json.mapping fs))) d in
      (
        codes "sha256:" ++ c.sha256_hex (c.dumps (Json.mapping fs)),
        rw (freeze_metadata-returns F payload fs e.0, e.1, h) refl,
        h,
        fingerprint-IsReadable (c.sha256_hex (c.dumps (Json.mapping fs))) d,
      )
