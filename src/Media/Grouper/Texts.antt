-- ===== src/Media/Grouper/Texts.antt =====
-- Texts of atoms have visible characters and can be encoded, and so has their join.
use mdrack.Base.{
  ℕ, ◌≡◌, refl, Bool, true, false, Option, none, some, List, [], ◌∷◌, ◌++◌, All, inl, inr, ◌<◌,
  if◌then◌else◌, Bool-cases, arith,
}
use mdrack.Base.Results.{ok}
use mdrack.Base.Text.{Str, has_content, utf8_encodable, is_space}
use mdrack.Base.Floats.{Floats}
use mdrack.Media.Records.{TimedTextAtom}
use mdrack.Media.Identifiers.Laws.{has_content-append, utf8_encodable-append}
use mdrack.Media.Grouper.{
  last_char, spaced, separated, last_visible, rstripped_last, join_from, join_atom_texts, at,
}
use mdrack.Media.Grouper.Outcomes.{Ensures, returns, bind-Ensures, ok-Ensures}

-- What `require_text` accepts
abbrev pub IsText : Str → Type 0
IsText s = (has_content s ≡ true) × (utf8_encodable s ≡ true)

last_char-returns : (s : Str) → has_content s ≡ true → (c : ℕ) × (last_char s ≡ ok c)
unfolding last_char has_content
last_char-returns [] h = absurd (cc)
last_char-returns (c ∷ s) h = last_of s c
  where
    last_of : (s : Str) (c : ℕ) → (d : ℕ) × (last_char (c ∷ s) ≡ ok d)
    last_of [] c = (c, refl)
    last_of (d ∷ s) c = last_of s d

IsText-append : (s t : Str) → IsText s → utf8_encodable t ≡ true → IsText (s ++ t)
IsText-append s t p h =
    (ground (arith, has_content-append s t, p.0), ground (arith, utf8_encodable-append s t, p.1))

if-utf8_encodable :
    (b : Bool) (s t : Str)
    → utf8_encodable s ≡ true
    → utf8_encodable t ≡ true
    → utf8_encodable (if b then s else t) ≡ true
if-utf8_encodable true s t h k = h
if-utf8_encodable false s t h k = k

spaced-Ensures :
    (b : Bool) (text : Str)
    → IsText text
    → Ensures (λ more. utf8_encodable more ≡ true) (spaced b text)
unfolding spaced at utf8_encodable has_content
spaced-Ensures b [] p = absurd (cc)
spaced-Ensures true (d ∷ text) p = returns (d ∷ text) p.1
spaced-Ensures false (d ∷ text) p =
    returns _ (if-utf8_encodable (is_space d) (d ∷ text) (b' ' ∷ d ∷ text) p.1 p.1)

separated-Ensures :
    (value text : Str)
    → IsText value
    → IsText text
    → Ensures (λ more. utf8_encodable more ≡ true) (separated value text)
unfolding separated
separated-Ensures value text p q =
    let (c, e) = last_char-returns value p.0 in
    bind-Ensures (λ _. Unit {0}) _ (last_char value) _ (ok-Ensures _ _ c e tt)
      (λ c _. spaced-Ensures (is_space c) text q)

last_visible-returns :
    (s : Str) (found : Option ℕ) → has_content s ≡ true → (c : ℕ) × (last_visible s found ≡ some c)
unfolding last_visible has_content
last_visible-returns [] found h = absurd (cc)
last_visible-returns (c ∷ s) found h = elim (Bool-cases (is_space c)) [
  | inl e ↦ rw e (last_visible-returns s found (ground (arith, e)))
  | inr e ↦ rw e (kept s c)
]
  where
    kept : (s : Str) (c : ℕ) → (d : ℕ) × (last_visible s (some c) ≡ some d)
    kept [] c = (c, refl)
    kept (d ∷ s) c = elim (Bool-cases (is_space d)) [
      | inl e ↦ rw e (kept s c)
      | inr e ↦ rw e (kept s d)
    ]

pub rstripped_last-Ensures :
    (s : Str) → has_content s ≡ true → Ensures (λ _. Unit {0}) (rstripped_last s)
unfolding rstripped_last
rstripped_last-Ensures s h =
    let (c, e) = last_visible-returns s none h in rw (e, rstripped_last) (returns c tt)

module _ (F : Floats) where
  -- What the constructor of an atom guarantees of its interval and its text
  pub record IsSpan (a : TimedTextAtom F) : Type 0 where
    pub positive : a.start_ms < a.end_ms
    pub readable : IsText a.text

  join_from-Ensures :
      (value : Str) (atoms : List (TimedTextAtom F))
      → IsText value
      → All IsSpan atoms
      → Ensures IsText (join_from F value atoms)
  unfolding join_from
  join_from-Ensures value [] p h = returns value p
  join_from-Ensures value (a ∷ atoms) p h =
      bind-Ensures _ _ (separated value a.text) _ (separated-Ensures value a.text p h.0.readable)
        (λ more k. join_from-Ensures (value ++ more) atoms (IsText-append value more p k) h.1)

  -- The joined text of at least one atom
  pub join_atom_texts-Ensures :
      (a : TimedTextAtom F) (atoms : List (TimedTextAtom F))
      → All IsSpan (a ∷ atoms)
      → Ensures IsText (join_atom_texts F (a ∷ atoms))
  unfolding join_atom_texts
  join_atom_texts-Ensures a atoms h = join_from-Ensures a.text atoms h.0.readable h.1
