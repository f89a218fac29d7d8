-- ===== src/Core/Json.antt =====
-- The `JSONValue` grammar of packages/mdrack-core/src/mdrack_core/domain/common.py.
use mdrack.Base.{Bool}
use mdrack.Base.Int.{ℤ}
use mdrack.Base.Text.{Str}
use mdrack.Base.Floats.{Floats}

-- A frozen value: what `_freeze_json_value` returns.
mutual
  pub data Json (F : Floats) : Type 0 where
    null : Json F
    bool : Bool → Json F
    int : ℤ → Json F
    float : F.Float → Json F
    str : Str → Json F
    tuple : Items F → Json F
    mapping : Fields F → Json F

  pub data Items (F : Floats) : Type 0 where
    nil : Items F
    cons : Json F → Items F → Items F

  -- The items of a mapping in its order.
  pub data Fields (F : Floats) : Type 0 where
    end : Fields F
    field : Str → Json F → Fields F → Fields F
