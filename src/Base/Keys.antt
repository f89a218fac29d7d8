-- ===== src/Base/Keys.antt =====
-- Python's `==` on optional texts and on pairs, which are keys of sets.
use mathlib.Core.Path.{◌≡◌, refl, ap}
use mathlib.Core.Logic.{◌↔◌}
use mathlib.Core.Bool.{Bool, true, false, ◌&&◌}
use mathlib.Core.Option.{Option, none, some}
use native.Mathlib.Omega.{arith}
use mdrack.Base.Tests.{Eq, ◌==◌}
use mdrack.Base.Text.{Str, str_eq}

-- Python's `==` of an optional text.
abbrev pub option_beq : Option Str → Option Str → Bool
option_beq none none = true
option_beq (some s) (some t) = s == t
option_beq _ _ = false

pub option_beq_iff : (a b : Option Str) → (option_beq a b ≡ true) ↔ (a ≡ b)
option_beq_iff none none = (λ _. refl, λ _. refl)
option_beq_iff none (some t) = (λ h. cc, λ h. cc)
option_beq_iff (some s) none = (λ h. cc, λ h. cc)
option_beq_iff (some s) (some t) =
    (λ h. ap some ((str_eq.beq_iff s t).0 h), λ h. (str_eq.beq_iff s t).1 cc)

abbrev pub option_eq : Eq (Option Str)
option_eq = record { beq = option_beq; beq_iff = option_beq_iff }

-- Python's `==` of two pairs.
abbrev pub pair_beq : {A B : Type 0} → Eq A → Eq B → A × B → A × B → Bool
pair_beq e f (a, b) (c, d) = e.beq a c && f.beq b d

pub pair_beq_iff :
    {A B : Type 0} (e : Eq A) (f : Eq B) (p q : A × B) → (pair_beq e f p q ≡ true) ↔ (p ≡ q)
pair_beq_iff e f (a, b) (c, d) = ground (arith, e.beq_iff a c, f.beq_iff b d)

abbrev pub pair_eq : {A B : Type 0} → Eq A → Eq B → Eq (A × B)
pair_eq e f = record { beq = pair_beq e f; beq_iff = pair_beq_iff e f }
