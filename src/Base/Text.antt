-- ===== src/Base/Text.antt =====
-- Python's `str`: a sequence of code points, lone surrogates included.
use Prim.Native.Nat.{ℕ}
use Prim.Native.Char.{code}
use Prim.Native.String.{String}
use mathlib.Core.Path.{◌≡◌, refl}
use mathlib.Core.Logic.{◌↔◌}
use mathlib.Core.Bool.{Bool, true, false, not, ◌&&◌, ◌||◌}
use mathlib.Core.List.{List, [], ◌∷◌}
use native.Mathlib.Omega.{arith}
use mdrack.Base.Tests.{Eq, ltb, leb, eqb}

abbrev pub Str : Type 0
Str = List ℕ

-- A literal's code points.
abbrev pub codes : String → Str
codes String.[] = []
codes (String.◌∷◌ c s) = code c ∷ codes s

-- `s == t`
unfoldable pub str_beq : Str → Str → Bool
str_beq [] [] = true
str_beq (a ∷ s) (b ∷ t) = eqb a b && str_beq s t
str_beq _ _ = false

str_beq_sound : (s t : Str) → str_beq s t ≡ true → s ≡ t
unfolding str_beq
str_beq_sound [] [] h = refl
str_beq_sound [] (b ∷ t) h = cc
str_beq_sound (a ∷ s) [] h = cc
str_beq_sound (a ∷ s) (b ∷ t) h = ground (arith, str_beq_sound s t)

str_beq_refl : (s : Str) → str_beq s s ≡ true
unfolding str_beq
str_beq_refl [] = refl
str_beq_refl (a ∷ s) = ground (arith, str_beq_refl s)

pub str_beq_iff : (s t : Str) → (str_beq s t ≡ true) ↔ (s ≡ t)
str_beq_iff s t = (str_beq_sound s t, λ e. rw e (str_beq_refl t))

instance abbrev pub str_eq : Eq Str
str_eq = record { beq = str_beq; beq_iff = str_beq_iff }

-- `s < t`: by the first code points that differ.
unfoldable pub str_lt : Str → Str → Bool
str_lt s [] = false
str_lt [] (b ∷ t) = true
str_lt (a ∷ s) (b ∷ t) = ltb a b || (eqb a b && str_lt s t)

pub str_lt_asymm : (s t : Str) → str_lt s t ≡ true → str_lt t s ≡ false
unfolding str_lt
str_lt_asymm [] [] h = cc
str_lt_asymm (a ∷ s) [] h = cc
str_lt_asymm [] (b ∷ t) h = refl
str_lt_asymm (a ∷ s) (b ∷ t) h = ground (arith, str_lt_asymm s t)

-- `<` is total: neither is before the other only when they are equal.
pub str_lt_connected : (s t : Str) → str_lt s t ≡ false → str_lt t s ≡ false → s ≡ t
unfolding str_lt
str_lt_connected [] [] h k = refl
str_lt_connected (a ∷ s) [] h k = cc
str_lt_connected [] (b ∷ t) h k = cc
str_lt_connected (a ∷ s) (b ∷ t) h k = ground (arith, str_lt_connected s t)

pub str_lt_chain : (s t u : Str) → str_lt t s ≡ false → str_lt u t ≡ false → str_lt u s ≡ false
unfolding str_lt
str_lt_chain [] t u h k = refl
str_lt_chain (a ∷ s) [] u h k = cc
str_lt_chain (a ∷ s) (b ∷ t) [] h k = cc
str_lt_chain (a ∷ s) (b ∷ t) (c ∷ u) h k = ground (arith, str_lt_chain s t u)

-- `c.isspace()`: the code points that `str.strip` takes off.
unfoldable pub is_space : ℕ → Bool
is_space c =
    (leb 9 c && leb c 13)
    || (leb 28 c && leb c 32)
    || eqb c 133
    || eqb c 160
    || eqb c 5760
    || (leb 8192 c && leb c 8202)
    || eqb c 8232
    || eqb c 8233
    || eqb c 8239
    || eqb c 8287
    || eqb c 12288

-- `bool(s.strip())`: some character is no white space.
unfoldable pub has_content : Str → Bool
unfolding is_space
has_content [] = false
has_content (c ∷ s) = not (is_space c) || has_content s

-- `s.encode("utf-8", "strict")` succeeds: there is no surrogate.
unfoldable pub utf8_encodable : Str → Bool
utf8_encodable [] = true
utf8_encodable (c ∷ s) = not (leb 55296 c && leb c 57343) && utf8_encodable s
