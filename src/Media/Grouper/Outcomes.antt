-- ===== src/Media/Grouper/Outcomes.antt =====
-- What a step of the grouper of packages/mdrack-media/src/mdrack_media/grouper.py comes to: a value
-- with a property, or a `TimedGroupingError`, and no other exception.
use mdrack.Base.{
  ℕ, zero, suc, ◌<◌, ◌≡◌, refl, subst, inl, inr, Bool, true, false, some, List, [], ◌∷◌, length,
  get_elem?, Option-cases, arith,
}
use mdrack.Base.Results.{Result, ok, err, ◌>>=◌, ◌>>◌}
use mdrack.Base.Text.{Str}
use mdrack.Media.Grouper.{GroupingError, grouping, at, TokenCounter, count_tokens}
use mdrack.Media.Grouper.Input.{expect}

pub data Ensures {A : Type 0} (P : A → Type 0) : Result GroupingError A → Type 0 where
  returns : (a : A) → P a → Ensures P (ok a)
  refuses : (code : Str) → Ensures P (err (grouping code))

pub bind-Ensures :
    {A B : Type 0} (P : A → Type 0) (Q : B → Type 0) (r : Result GroupingError A)
    (f : A → Result GroupingError B)
    → Ensures P r
    → ((a : A) → P a → Ensures Q (f a))
    → Ensures Q (r >>= f)
bind-Ensures P Q _ f (returns a p) k = k a p
bind-Ensures P Q _ f (refuses code) k = refuses code

pub map-Ensures :
    {A : Type 0} (P Q : A → Type 0) (r : Result GroupingError A)
    → ((a : A) → P a → Q a)
    → Ensures P r
    → Ensures Q r
map-Ensures P Q _ f (returns a p) = returns a (f a p)
map-Ensures P Q _ f (refuses code) = refuses code

-- The value is the one that was returned.
pub eq-Ensures :
    {A : Type 0} (P : A → Type 0) (r : Result GroupingError A)
    → Ensures P r
    → Ensures (λ a. (r ≡ ok a) × P a) r
eq-Ensures P _ (returns a p) = returns a (refl, p)
eq-Ensures P _ (refuses code) = refuses code

-- A step that returns is a step that ensures its value.
pub ok-Ensures :
    {A : Type 0} (P : A → Type 0) (r : Result GroupingError A) (a : A)
    → r ≡ ok a
    → P a
    → Ensures P r
ok-Ensures P r a e p = rw e (returns a p)

-- What is ensured holds of the value that was returned.
pub Ensures-ok :
    {A : Type 0} (P : A → Type 0) (r : Result GroupingError A) {a : A}
    → Ensures P r
    → r ≡ ok a
    → P a
Ensures-ok P _ (returns b p) e = subst P (cc) p
Ensures-ok P _ (refuses code) e = absurd (cc)

-- The only errors are those of the grouper.
pub Ensures-err :
    {A : Type 0} (P : A → Type 0) (r : Result GroupingError A) {e : GroupingError}
    → Ensures P r
    → r ≡ err e
    → (code : Str) × (e ≡ grouping code)
Ensures-err P _ (returns b p) h = absurd (cc)
Ensures-err P _ (refuses code) h = (code, cc)

-- A guard, and the steps after it where it holds
pub expect-Ensures :
    {A : Type 0} (Q : A → Type 0) (b : Bool) (code : Str) (rest : Result GroupingError A)
    → (b ≡ true → Ensures Q rest)
    → Ensures Q (expect b code >> rest)
unfolding expect
expect-Ensures Q true code rest k = k refl
expect-Ensures Q false code rest k = refuses code

pub at-Ensures :
    {A : Type 0} (xs : List A) (i : ℕ)
    → i < length xs
    → Ensures (λ x. get_elem? xs i ≡ some x) (at xs i)
unfolding at
at-Ensures [] i h = absurd (omega arith)
at-Ensures (x ∷ xs) zero h = returns x refl
at-Ensures (x ∷ xs) (suc i) h = at-Ensures xs i (omega arith)

pub count_tokens-Ensures :
    (counter : TokenCounter) (text : Str)
    → Ensures (λ n. counter.count text ≡ some n) (count_tokens counter text)
unfolding count_tokens
count_tokens-Ensures counter text = elim (Option-cases (counter.count text)) [
  | inl e ↦ rw (e, count_tokens) (refuses _)
  | inr (n, e) ↦ rw (e, count_tokens) (returns n refl)
]
