-- ===== src/Media/Grouper/Made.antt =====
-- An atom that its constructor returned is what the grouper relies on.
use mdrack.Base.{◌≡◌, refl, sym, subst, true, some, ltb, ltb→lt, ◌==◌}
use mdrack.Base.Results.{ok, require, >>=-eq-ok, >>-eq-ok, require-eq-ok}
use mdrack.Base.Text.{Str, codes, str_eq, has_content, utf8_encodable}
use mdrack.Base.Floats.{Floats}
use mdrack.Core.Errors.{value_error}
use mdrack.Core.RequestId.{times}
use mdrack.Media.Common.{require_text, require_any_text, require_int, freeze_metadata}
use mdrack.Media.Identifiers.{
  Codec, id_resource, id_atom, is_lower_hex, is_fingerprint, validate_media_id, atom_id,
}
use mdrack.Media.Identifiers.Laws.{literal-full_match}
use mdrack.Media.Identifiers.Made.{IsId, IsReadable}
use mdrack.Media.Records.{
  TimedTextAtom, require_optional_text, require_optional_probability, make_timed_text_atom,
}
use mdrack.Media.Grouper.Payload.{fingerprint-IsReadable}
use mdrack.Media.Grouper.Texts.{IsText}
use mdrack.Media.Grouper.Passages.{IsAtom}

IsReadable-IsText : (s : Str) → IsReadable s → IsText s
unfolding require_text require_any_text
IsReadable-IsText s h =
    let (p, q) =
      >>-eq-ok (require (has_content s) value_error) (require (utf8_encodable s) value_error) h in
    (require-eq-ok (has_content s) value_error p, require-eq-ok (utf8_encodable s) value_error q)

pub is_fingerprint-IsReadable : (s : Str) → is_fingerprint s ≡ true → IsReadable s
unfolding is_fingerprint
is_fingerprint-IsReadable s h =
    let (u, e, m) = literal-full_match (codes "sha256:") s (times 64 is_lower_hex) h in
    rw e (fingerprint-IsReadable u m)

pub validate_media_id-returned :
    (id kind : Str) {x : Str} → validate_media_id id (some kind) ≡ ok x → IsId kind id
unfolding validate_media_id
validate_media_id-returned id kind {x} h =
    let (p, q) = >>-eq-ok (require_text id) _ h in
    let (r, s) = >>-eq-ok (require _ value_error) (ok id) q in rw (p, r) refl

module _ (F : Floats) (c : Codec F) where
  -- The constructor of an atom returned it, and that of the fingerprint accepted its own.
  pub record IsMade (a : TimedTextAtom F) : Type 0 where
    pub raw : TimedTextAtom F
    pub accepted : make_timed_text_atom F c raw ≡ ok a
    pub normal : is_fingerprint a.normalization_fingerprint ≡ true

  pub IsMade-IsAtom : (a : TimedTextAtom F) → IsMade a → IsAtom F c a
  unfolding make_timed_text_atom
  IsMade-IsAtom a made =
      let raw = made.raw in
      let (x1, p1, r1) =
        >>=-eq-ok (validate_media_id raw.resource_id (some id_resource)) _ made.accepted in
      let (p2, r2) = >>-eq-ok (require_int raw.start_ms 0) _ r1 in
      let (p3, r3) = >>-eq-ok (require_int raw.end_ms 0) _ r2 in
      let (p4, r4) = >>-eq-ok (require (ltb raw.start_ms raw.end_ms) value_error) _ r3 in
      let (p5, r5) = >>-eq-ok (require_text raw.text) _ r4 in
      let (p6, r6) = >>-eq-ok (require_int raw.ordinal 0) _ r5 in
      let (x7, p7, r7) =
        >>=-eq-ok (atom_id F c raw.resource_id raw.producer_fingerprint raw.ordinal) _ r6 in
      let (x8, p8, r8) = >>=-eq-ok (validate_media_id raw.atom_id (some id_atom)) _ r7 in
      let (p9, r9) = >>-eq-ok (require (raw.atom_id == x7) value_error) _ r8 in
      let (p10, r10) = >>-eq-ok (require_optional_text raw.speaker) _ r9 in
      let (p11, r11) = >>-eq-ok (require_optional_probability F raw.confidence) _ r10 in
      let (m, p12, r12) = >>=-eq-ok (freeze_metadata F raw.metadata) _ r11 in
      let e : record raw { metadata = m } ≡ a = cc in
      subst (IsAtom F c) e (record {
        span = record {
          positive =
              ltb→lt raw.start_ms raw.end_ms
                (require-eq-ok (ltb raw.start_ms raw.end_ms) value_error p4);
          readable = IsReadable-IsText raw.text p5;
        };
        id = validate_media_id-returned raw.atom_id id_atom p8;
        normal = is_fingerprint-IsReadable raw.normalization_fingerprint (
            subst (λ (b : TimedTextAtom F). is_fingerprint b.normalization_fingerprint ≡ true)
              (sym e) made.normal);
      })
