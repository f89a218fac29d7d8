-- ===== src/Media/Grouper/Variants.antt =====
-- `provisional_abc_policies` and `run_grouping_variants` of
-- packages/mdrack-media/src/mdrack_media/grouper.py.
use mdrack.Base.{Bool, false, not, ◌&&◌, Option, none, some, List, [], ◌∷◌, map}
use mdrack.Base.Results.{Result, ok, ◌>>=◌, ◌>>◌, require, traverse}
use mdrack.Base.Text.{Str, codes, str_eq, is_space}
use mdrack.Base.Floats.{Floats}
use mdrack.Core.Errors.{PyError, value_error}
use mdrack.Media.Identifiers.{Codec}
use mdrack.Media.Policies.{TimedChunkingPolicy, default_policy, make_timed_chunking_policy}
use mdrack.Media.Records.{TimedTextAtom, all_different}
use mdrack.Media.Grouper.{GroupingError, lift, TokenCounter}
use mdrack.Media.Grouper.Input.{expect, TimedGroupingResult}
use mdrack.Media.Grouper.Run.{group_timed_atoms}

pub record GroupingPolicyVariant : Type 0 where
  pub name : Str
  pub policy : TimedChunkingPolicy

-- The last character is no white space.
ends_visible : Str → Bool
ends_visible [] = false
ends_visible (c ∷ []) = not (is_space c)
ends_visible (c ∷ d ∷ s) = ends_visible (d ∷ s)

-- `name.strip() == name` of a name that is not empty: no white space stands at either end.
unfoldable pub is_stripped : Str → Bool
unfolding ends_visible
is_stripped [] = false
is_stripped (c ∷ s) = not (is_space c) && ends_visible (c ∷ s)

-- `GroupingPolicyVariant.__post_init__`
unfoldable pub make_grouping_policy_variant :
    GroupingPolicyVariant → Result PyError GroupingPolicyVariant
unfolding is_stripped
make_grouping_policy_variant v = do require (is_stripped v.name) value_error; ok v

abbrev pub variant_a : TimedChunkingPolicy
variant_a = record default_policy {
  soft_min_tokens = 128;
  target_tokens = 256;
  soft_max_tokens = 384;
  hard_max_tokens = 512;
  soft_min_duration_ms = 20000;
  target_duration_ms = 45000;
  soft_max_duration_ms = 67500;
  hard_max_duration_ms = 90000;
}

abbrev pub variant_c : TimedChunkingPolicy
variant_c = record default_policy {
  soft_min_tokens = 180;
  target_tokens = 480;
  soft_max_tokens = 720;
  hard_max_tokens = 1000;
  soft_min_duration_ms = 20000;
  target_duration_ms = 90000;
  soft_max_duration_ms = 120000;
  hard_max_duration_ms = 120000;
}

unfoldable pub variant : Str → TimedChunkingPolicy → Result PyError GroupingPolicyVariant
unfolding make_timed_chunking_policy make_grouping_policy_variant
variant name policy = do
  p ← make_timed_chunking_policy policy
  make_grouping_policy_variant (record { name = name; policy = p })

unfoldable pub provisional_abc_policies : Result PyError (List GroupingPolicyVariant)
unfolding variant
provisional_abc_policies = do
  a ← variant (codes "A") variant_a
  b ← variant (codes "B") default_policy
  c ← variant (codes "C") variant_c
  ok (a ∷ b ∷ c ∷ [])

module _ (F : Floats) (c : Codec F) where
  pub record GroupingVariantResult : Type 0 where
    pub variant : Str
    pub result : TimedGroupingResult F

  unfoldable pub run_variant :
      List (TimedTextAtom F)
      → TokenCounter
      → Str
      → Option Str
      → Option Str
      → Str
      → GroupingPolicyVariant
      → Result GroupingError GroupingVariantResult
  unfolding group_timed_atoms
  run_variant atoms counter kind resource_identifier normalization unsplittable item = do
    r ←
        group_timed_atoms F c atoms item.policy counter kind resource_identifier normalization
          unsplittable
    ok (record { variant = item.name; result = r })

  unfoldable pub run_grouping_variants :
      List (TimedTextAtom F)
      → TokenCounter
      → Str
      → Option (List GroupingPolicyVariant)
      → Option Str
      → Option Str
      → Str
      → Result GroupingError (List GroupingVariantResult)
  unfolding lift provisional_abc_policies all_different traverse run_variant
  run_grouping_variants atoms counter kind variants resource_identifier normalization unsplittable =
      do
        selected ← elim variants [ none ↦ lift provisional_abc_policies | some vs ↦ ok vs ]
        expect (all_different (map (λ (v : GroupingPolicyVariant). v.name) selected))
            (codes "duplicate_variant_name")
        traverse (run_variant atoms counter kind resource_identifier normalization unsplittable)
            selected
