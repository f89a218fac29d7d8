-- ===== src/Media/Grouper/Places.antt =====
-- Places in the lists of `_find_boundary`: the last candidate, and the atom after a boundary.
use mdrack.Base.{
  ℕ, zero, suc, ◌<◌, ◌≡◌, refl, Bool, true, false, ◌||◌, Option, none, some, List, [], ◌∷◌, All,
  length, get_elem?, arith,
}
use mdrack.Base.Text.{str_eq}
use mdrack.Base.Floats.{Floats}
use mdrack.Media.Records.{TimedTextAtom}
use mdrack.Media.Grouper.Boundary.{split_last, is_none, safe_boundary}

-- A property of the parts of `split_last`
abbrev pub AllSplit : {A : Type 0} → (A → Type 0) → Option (List A × A) → Type 0
AllSplit P none = Unit
AllSplit P (some (ys, y)) = All P ys × P y

pub split_last-All :
    {A : Type 0} (P : A → Type 0) (xs : List A) → All P xs → AllSplit P (split_last xs)
unfolding split_last
split_last-All P [] h = tt
split_last-All {A} P (x ∷ xs) h = longer (split_last xs) (split_last-All P xs h.1)
  where
    longer :
        (o : Option (List A × A))
        → AllSplit P o
        → AllSplit P (elim o [ none ↦ some ([], x) | some (ys, y) ↦ some (x ∷ ys, y) ])
    longer none k = (tt, h.0)
    longer (some (ys, y)) k = ((h.0, k.0), k.1)

pub get_elem?-is_none :
    {A : Type 0} (xs : List A) (i : ℕ) → is_none (get_elem? xs i) ≡ false → i < length xs
unfolding is_none
get_elem?-is_none [] i h = absurd (cc)
get_elem?-is_none (x ∷ xs) zero h = omega arith
get_elem?-is_none (x ∷ xs) (suc i) h = omega (arith, get_elem?-is_none xs i h)

pub or_weaken :
    (a risk soft at_end : Bool)
    → (risk || soft || at_end) ≡ true
    → (a || risk || soft || at_end) ≡ true
or_weaken true risk soft at_end h = refl
or_weaken false risk soft at_end h = h

pub suc_lt : {m n : ℕ} → m < n → suc m < suc n
suc_lt h = omega arith

pub safe_boundary-false :
    {F : Floats} (xs : List (TimedTextAtom F)) (i end_ms : ℕ)
    → safe_boundary F (get_elem? xs i) end_ms ≡ false
    → i < length xs
unfolding safe_boundary
safe_boundary-false [] i end_ms h = absurd (cc)
safe_boundary-false (x ∷ xs) zero end_ms h = omega arith
safe_boundary-false (x ∷ xs) (suc i) end_ms h = omega (arith, safe_boundary-false xs i end_ms h)
