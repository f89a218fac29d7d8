-- ===== src/Media/Policies.antt =====
-- packages/mdrack-media/src/mdrack_media/policies.py
use mdrack.Base.{ℕ, Bool, true, ◌&&◌, List, [], ◌∷◌, contains, leb}
use mdrack.Base.Results.{Result, ok, ◌>>◌, require}
use mdrack.Base.Text.{Str, codes, str_eq}
use mdrack.Core.Errors.{PyError, value_error}
use mdrack.Core.Common.{check_all}
use mdrack.Media.Common.{require_text, require_int}

abbrev pub overflow_reject : Str
overflow_reject = codes "reject"

abbrev pub overflow_caller_split : Str
overflow_caller_split = codes "caller_split"

abbrev pub overflow_policies : List Str
overflow_policies = overflow_reject ∷ overflow_caller_split ∷ []

pub record TimedChunkingPolicy : Type 0 where
  pub soft_min_tokens : ℕ
  pub target_tokens : ℕ
  pub soft_max_tokens : ℕ
  pub hard_max_tokens : ℕ
  pub soft_min_duration_ms : ℕ
  pub target_duration_ms : ℕ
  pub soft_max_duration_ms : ℕ
  pub hard_max_duration_ms : ℕ
  pub medium_pause_ms : ℕ
  pub strong_pause_ms : ℕ
  pub overlap_atoms : ℕ

-- `tuple(sorted(limits)) == limits`
unfoldable pub non_decreasing : List ℕ → Bool
non_decreasing [] = true
non_decreasing (a ∷ []) = true
non_decreasing (a ∷ b ∷ rest) = leb a b && non_decreasing (b ∷ rest)

abbrev pub token_limits : TimedChunkingPolicy → List ℕ
token_limits p = p.soft_min_tokens ∷ p.target_tokens ∷ p.soft_max_tokens ∷ p.hard_max_tokens ∷ []

abbrev pub duration_limits : TimedChunkingPolicy → List ℕ
duration_limits p =
    p.soft_min_duration_ms ∷ p.target_duration_ms ∷ p.soft_max_duration_ms ∷ p.hard_max_duration_ms
    ∷ []

abbrev at_least_one : ℕ → Result PyError (Unit {0})
unfolding require_int
at_least_one limit = require_int limit 1

-- `TimedChunkingPolicy.__post_init__`
unfoldable pub make_timed_chunking_policy : TimedChunkingPolicy → Result PyError TimedChunkingPolicy
unfolding check_all require_int non_decreasing
make_timed_chunking_policy p = do
  check_all at_least_one (token_limits p)
  check_all at_least_one (duration_limits p)
  require (non_decreasing (token_limits p)) value_error
  require (non_decreasing (duration_limits p)) value_error
  require_int p.medium_pause_ms 0
  require_int p.strong_pause_ms 0
  require (leb p.medium_pause_ms p.strong_pause_ms) value_error
  require_int p.overlap_atoms 0
  ok p

-- `TimedChunkingPolicy()`
abbrev pub default_policy : TimedChunkingPolicy
default_policy = record {
  soft_min_tokens = 180;
  target_tokens = 320;
  soft_max_tokens = 480;
  hard_max_tokens = 800;
  soft_min_duration_ms = 20000;
  target_duration_ms = 60000;
  soft_max_duration_ms = 90000;
  hard_max_duration_ms = 120000;
  medium_pause_ms = 700;
  strong_pause_ms = 1500;
  overlap_atoms = 0;
}

pub record TextNormalizationPolicy : Type 0 where
  pub version : Str
  pub whitespace : Str

-- `TextNormalizationPolicy.__post_init__`
unfoldable pub make_text_normalization_policy :
    TextNormalizationPolicy → Result PyError TextNormalizationPolicy
unfolding require_text
make_text_normalization_policy p = do
  require_text p.version
  require (contains p.whitespace (codes "preserve" ∷ codes "technical-collapse" ∷ [])) value_error
  ok p

pub record WholeResourceTextPolicy : Type 0 where
  pub max_tokens : ℕ
  pub overflow : Str

-- `WholeResourceTextPolicy.__post_init__`
unfoldable pub make_whole_resource_text_policy :
    WholeResourceTextPolicy → Result PyError WholeResourceTextPolicy
unfolding require_int
make_whole_resource_text_policy p = do
  require_int p.max_tokens 1
  require (contains p.overflow overflow_policies) value_error
  ok p
