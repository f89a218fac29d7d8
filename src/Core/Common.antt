-- ===== src/Core/Common.antt =====
-- The validators of packages/mdrack-core/src/mdrack_core/domain/common.py, on values that have
-- the type which the annotation names.
use mdrack.Base.{ℕ, Option, none, some, List, [], ◌∷◌, leb}
use mdrack.Base.Results.{Result, ok, err, ◌>>◌, require}
use mdrack.Base.Text.{Str, has_content, utf8_encodable}
use mdrack.Base.Floats.{Floats}
use mdrack.Core.Errors.{PyError, value_error}

unfoldable pub require_utf8_encodable : Str → Result PyError (Unit {0})
require_utf8_encodable s = require (utf8_encodable s) value_error

unfoldable pub require_non_empty : Str → Result PyError (Unit {0})
unfolding require_utf8_encodable
require_non_empty s = do require (has_content s) value_error; require_utf8_encodable s

unfoldable pub require_optional_non_empty : Option Str → Result PyError (Unit {0})
unfolding require_non_empty
require_optional_non_empty none = ok tt
require_optional_non_empty (some s) = require_non_empty s

unfoldable pub require_integer : ℕ → ℕ → Result PyError (Unit {0})
require_integer value minimum = require (leb minimum value) value_error

unfoldable pub require_finite_number : (F : Floats) → F.Float → Result PyError (Unit {0})
require_finite_number F x = require (F.is_finite x) value_error

-- A check of every member, as in a `for` loop that may raise.
unfoldable pub check_all {ℓ} :
    {A : Type ℓ} → (A → Result PyError (Unit {0})) → List A → Result PyError (Unit {0})
check_all check [] = ok tt
check_all check (x ∷ xs) = do check x; check_all check xs

-- `freeze_vector`
unfoldable pub freeze_vector : (F : Floats) → List F.Float → Result PyError (Unit {0})
unfolding require_finite_number check_all
freeze_vector F [] = err value_error
freeze_vector F (x ∷ xs) = check_all (require_finite_number F) (x ∷ xs)
