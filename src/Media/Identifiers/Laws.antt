-- ===== src/Media/Identifiers/Laws.antt =====
-- The ids that are made are ids that are accepted.
use mathlib.Core.List.{append_assoc}
use mdrack.Base.{
  All, ℕ, ◌≡◌, refl, ap₂, subst, Bool, true, not, ◌&&◌, ◌||◌, some, List, [], ◌∷◌, ◌++◌, contains,
  contains-All, eqb_iff, arith, zero, suc,
}
use mdrack.Base.Results.{ok, require, >>-eq-ok, >>=-eq-ok, require-eq-ok}
use mdrack.Base.Text.{Str, codes, str_eq, has_content, utf8_encodable, is_space}
use mdrack.Base.Floats.{Floats}
use mdrack.Core.Errors.{value_error}
use mdrack.Core.Json.{Json}
use mdrack.Core.RequestId.{full_match, times}
use mdrack.Media.Common.{require_text, require_any_text, canonical_json}
use mdrack.Media.Identifiers.{
  Codec, IsSha256, id_kinds, is_empty, id_payload, literal, is_lower_hex, is_id_of,
  validate_media_id, stable_media_id,
}

-- A text that a pattern starts with, then a match of the rest.
pub full_match-literal :
    (s t : Str) (ps : List (ℕ → Bool))
    → full_match ps t ≡ true
    → full_match (literal s ++ ps) (s ++ t) ≡ true
unfolding full_match
full_match-literal [] t ps h = h
full_match-literal (c ∷ s) t ps h = ground (arith, full_match-literal s t ps, eqb_iff c c)

-- A match of a pattern that starts with a text.
pub literal-full_match :
    (s t : Str) (ps : List (ℕ → Bool))
    → full_match (literal s ++ ps) t ≡ true
    → (u : Str) × (t ≡ s ++ u) × (full_match ps u ≡ true)
unfolding full_match
literal-full_match [] t ps h = (t, refl, h)
literal-full_match (c ∷ s) [] ps h = absurd (cc)
literal-full_match (c ∷ s) (d ∷ t) ps h =
    let (u, e, m) = literal-full_match s t ps (ground arith) in
    let f : d ≡ c = ground (arith, eqb_iff c d) in (u, ap₂ ◌∷◌ f e, m)

-- Hexadecimal digits can be encoded.
pub hex-utf8_encodable :
    (n : ℕ) (s : Str) → full_match (times n is_lower_hex) s ≡ true → utf8_encodable s ≡ true
unfolding full_match times is_lower_hex utf8_encodable
hex-utf8_encodable zero [] h = refl
hex-utf8_encodable zero (c ∷ s) h = cc
hex-utf8_encodable (suc n) [] h = cc
hex-utf8_encodable (suc n) (c ∷ s) h = ground (arith, hex-utf8_encodable n s)

pub utf8_encodable-append :
    (s t : Str) → utf8_encodable (s ++ t) ≡ (utf8_encodable s && utf8_encodable t)
unfolding utf8_encodable
utf8_encodable-append [] t = refl
utf8_encodable-append (c ∷ s) t = ground (arith, utf8_encodable-append s t)

pub has_content-append : (s t : Str) → has_content (s ++ t) ≡ (has_content s || has_content t)
unfolding has_content
has_content-append [] t = refl
has_content-append (c ∷ s) t = ground (arith, has_content-append s t)

text_of_id : (kind d : Str) → has_content (kind ++ (codes "_" ++ d)) ≡ true
unfolding has_content is_space
text_of_id kind d = ground (arith, has_content-append kind (codes "_" ++ d))

clean_id :
    (kind d : Str)
    → utf8_encodable kind ≡ true
    → utf8_encodable d ≡ true
    → utf8_encodable (kind ++ (codes "_" ++ d)) ≡ true
unfolding utf8_encodable
clean_id kind d h k = ground (arith, utf8_encodable-append kind (codes "_" ++ d))

is_id_of-digest :
    (kind d : Str)
    → full_match (times 64 is_lower_hex) d ≡ true
    → is_id_of kind (kind ++ (codes "_" ++ d)) ≡ true
unfolding is_id_of
is_id_of-digest kind d h =
    rw (← append_assoc kind (codes "_") d)
      (full_match-literal (kind ++ codes "_") d (times 64 is_lower_hex) h)

digest_text :
    (kind d : Str)
    → full_match (times 64 is_lower_hex) d ≡ true
    → utf8_encodable kind ≡ true
    → validate_media_id (kind ++ (codes "_" ++ d)) (some kind) ≡ ok (kind ++ (codes "_" ++ d))
unfolding validate_media_id require_text require_any_text
digest_text kind d h k =
    rw (text_of_id kind d, clean_id kind d k (hex-utf8_encodable 64 d h), is_id_of-digest kind d h)
      refl

id_kinds-utf8_encodable : All (λ k. utf8_encodable k ≡ true) id_kinds
unfolding utf8_encodable
id_kinds-utf8_encodable = (refl, (refl, (refl, (refl, (refl, (refl, tt))))))

module _ (F : Floats) (c : Codec F) where
  -- Where SHA-256 writes 64 hexadecimal digits, an id that stable_media_id makes for a kind is
  -- accepted by validate_media_id for that kind.
  pub stable_media_id-validate :
      (kind : Str) (parts : List (Json F)) {id : Str}
      → IsSha256 F c
      → stable_media_id F c kind parts ≡ ok id
      → validate_media_id id (some kind) ≡ ok id
  unfolding stable_media_id
  stable_media_id-validate kind parts {id} sha returned =
      let (known, q) = >>-eq-ok (require (contains kind id_kinds) value_error) _ returned in
      let (filled, r) = >>-eq-ok (require (not (is_empty F c parts)) value_error) _ q in
      let (encoded, s, t) =
        >>=-eq-ok (canonical_json F c.dumps (id_payload F c kind parts))
          (λ text. ok (kind ++ (codes "_" ++ c.sha256_hex text))) r in
      let e : (kind ++ (codes "_" ++ c.sha256_hex encoded)) ≡ id = cc in
      subst (λ i. validate_media_id i (some kind) ≡ ok i) e
        (digest_text kind (c.sha256_hex encoded) (sha.digest encoded) (
          contains-All (λ k. utf8_encodable k ≡ true) kind id_kinds
            (require-eq-ok _ value_error known) id_kinds-utf8_encodable))
