-- ===== src/Core/RequestId/Laws.antt =====
-- What normalising a request id keeps.
use mdrack.Base.{
  zero, suc, ℕ, ◌≡◌, refl, Bool, true, List, [], ◌∷◌, ◌++◌, map, arith, Bool-cases, inl, inr,
}
use mdrack.Base.Results.{ok}
use mdrack.Base.Text.{Str}
use mdrack.Core.RequestId.{
  full_match, times, is_hex, is_dash, uuid_pattern, lower_hex, normalize_request_id,
}

-- A class that does not tell the cases of a hexadecimal digit apart.
abbrev IgnoresCase : (ℕ → Bool) → Type 0
IgnoresCase p = (c : ℕ) → p c ≡ true → p (lower_hex c) ≡ true

abbrev AllIgnoreCase : List (ℕ → Bool) → Type 0
AllIgnoreCase [] = Unit
AllIgnoreCase (p ∷ ps) = IgnoresCase p × AllIgnoreCase ps

full_match-lower_hex :
    (ps : List (ℕ → Bool)) (s : Str)
    → AllIgnoreCase ps
    → full_match ps s ≡ true
    → full_match ps (map lower_hex s) ≡ true
unfolding full_match
full_match-lower_hex [] [] i h = refl
full_match-lower_hex [] (c ∷ s) i h = cc
full_match-lower_hex (p ∷ ps) [] i h = cc
full_match-lower_hex (p ∷ ps) (c ∷ s) i h = ground (arith, i.0 c, full_match-lower_hex ps s i.1)

hex_case : IgnoresCase is_hex
unfolding is_hex lower_hex
hex_case c h = ground arith

dash_case : IgnoresCase is_dash
unfolding is_dash lower_hex
dash_case c h = ground arith

AllIgnoreCase-append :
    (ps qs : List (ℕ → Bool)) → AllIgnoreCase ps → AllIgnoreCase qs → AllIgnoreCase (ps ++ qs)
AllIgnoreCase-append [] qs h k = k
AllIgnoreCase-append (p ∷ ps) qs h k = (h.0, AllIgnoreCase-append ps qs h.1 k)

hexes_case : (n : ℕ) → AllIgnoreCase (times n is_hex)
unfolding times
hexes_case zero = tt
hexes_case (suc n) = (hex_case, hexes_case n)

four_case :
    (qs : List (ℕ → Bool)) → AllIgnoreCase qs → AllIgnoreCase (is_dash ∷ (times 4 is_hex ++ qs))
four_case qs h = (dash_case, AllIgnoreCase-append (times 4 is_hex) qs (hexes_case 4) h)

uuid_case : AllIgnoreCase uuid_pattern
unfolding uuid_pattern
uuid_case =
    let last : List (ℕ → Bool) = is_dash ∷ times 12 is_hex in
    let third : List (ℕ → Bool) = is_dash ∷ (times 4 is_hex ++ last) in
    let second : List (ℕ → Bool) = is_dash ∷ (times 4 is_hex ++ third) in
    AllIgnoreCase-append (times 8 is_hex) (is_dash ∷ (times 4 is_hex ++ second)) (hexes_case 8)
      (four_case second (four_case third (four_case last (dash_case, hexes_case 12))))

lower_hex_idem : (s : Str) → map lower_hex (map lower_hex s) ≡ map lower_hex s
unfolding lower_hex
lower_hex_idem [] = refl
lower_hex_idem (c ∷ s) = ground (arith, lower_hex_idem s)

-- A request id that normalize_request_id returns is accepted again and does not change.
pub normalize_request_id_idem :
    (value : Str) {id : Str} → normalize_request_id value ≡ ok id → normalize_request_id id ≡ ok id
unfolding normalize_request_id
normalize_request_id_idem value h = elim (Bool-cases (full_match uuid_pattern value)) [
  | inl u ↦ ground (arith, full_match-lower_hex uuid_pattern value uuid_case, lower_hex_idem value)
  | inr u ↦ ground arith
]
