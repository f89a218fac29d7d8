-- ===== src/Core/RequestId.antt =====
-- `normalize_request_id` and its two patterns, of
-- packages/mdrack-core/src/mdrack_core/domain/common.py.
use mdrack.Base.{
  ℕ, ◌+◌, Bool, true, false, ◌&&◌, ◌||◌, Option, none, some, List, [], ◌∷◌, ◌++◌, map, leb, eqb,
  if◌then◌else◌, zero, suc,
}
use mdrack.Base.Results.{Result, ok, err, ◌>>=◌}
use mdrack.Base.Text.{Str}
use mdrack.Core.Errors.{PyError, value_error}
pub mod Laws

-- A pattern of one character class after another, matched against the whole text.
unfoldable pub full_match : List (ℕ → Bool) → Str → Bool
full_match [] [] = true
full_match (p ∷ ps) (c ∷ s) = p c && full_match ps s
full_match _ _ = false

unfoldable pub times : ℕ → (ℕ → Bool) → List (ℕ → Bool)
times zero p = []
times (suc n) p = p ∷ times n p

-- `[0-9a-fA-F]`
unfoldable pub is_hex : ℕ → Bool
is_hex c = (leb b'0' c && leb c b'9') || (leb b'a' c && leb c b'f') || (leb b'A' c && leb c b'F')

unfoldable pub is_dash : ℕ → Bool
is_dash c = eqb c b'-'

-- `_UUID_PATTERN`
unfoldable pub uuid_pattern : List (ℕ → Bool)
unfolding times
uuid_pattern =
    times 8 is_hex
    ++ (is_dash
        ∷ (times 4 is_hex
            ++ (is_dash
                ∷ (times 4 is_hex ++ (is_dash ∷ (times 4 is_hex ++ (is_dash ∷ times 12 is_hex)))))))

-- `[0-9A-HJKMNP-TV-Z]`
unfoldable pub is_base32 : ℕ → Bool
is_base32 c =
    (leb b'0' c && leb c b'9')
    || (leb b'A' c && leb c b'H')
    || eqb c b'J'
    || eqb c b'K'
    || eqb c b'M'
    || eqb c b'N'
    || (leb b'P' c && leb c b'T')
    || (leb b'V' c && leb c b'Z')

unfoldable pub is_octal : ℕ → Bool
is_octal c = leb b'0' c && leb c b'7'

-- `_ULID_PATTERN`
unfoldable pub ulid_pattern : List (ℕ → Bool)
unfolding times
ulid_pattern = is_octal ∷ times 25 is_base32

-- `str(uuid.UUID(value))` of a text that the pattern accepts: its hexadecimal digits in lower case.
unfoldable pub lower_hex : ℕ → ℕ
lower_hex c = if leb b'A' c && leb c b'F' then c + 32 else c

unfoldable pub normalize_request_id : Str → Result PyError Str
unfolding full_match uuid_pattern ulid_pattern is_hex is_dash is_base32 is_octal lower_hex
normalize_request_id value =
    if full_match uuid_pattern value
    then ok (map lower_hex value)
    else if full_match ulid_pattern value
    then ok value
    else err value_error

unfoldable pub normalize_optional_request_id : Option Str → Result PyError (Option Str)
unfolding normalize_request_id
normalize_optional_request_id none = ok none
normalize_optional_request_id (some value) = do id ← normalize_request_id value; ok (some id)
