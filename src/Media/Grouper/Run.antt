-- ===== src/Media/Grouper/Run.antt =====
-- `group_timed_atoms` and `run_grouping_variants` of
-- packages/mdrack-media/src/mdrack_media/grouper.py, on arguments of the annotated types.
use mdrack.Base.{
  ℕ, zero, suc, ◌-◌, Bool, true, false, ◌&&◌, Option, none, some, List, [], ◌∷◌, ◌++◌, map, length,
  contains, take, drop, eqb, ◌==◌,
}
use mdrack.Base.Results.{Result, ok, err, ◌>>=◌, ◌>>◌, require}
use mdrack.Base.Text.{Str, codes, str_eq, utf8_encodable}
use mdrack.Base.Floats.{Floats}
use mdrack.Core.Errors.{assertion_error, value_error}
use mdrack.Core.Json.{Json, Fields}
use mdrack.Media.Common.{freeze_metadata}
use mdrack.Media.Identifiers.{Codec, representation_id, passage_id, fingerprint_of}
use mdrack.Media.Policies.{TimedChunkingPolicy}
use mdrack.Media.Records.{
  TimedTextAtom, TimedPassage, token_count_kinds, representation_timed_passage, make_token_count,
  make_timed_passage,
}
use mdrack.Media.Grouper.{
  GroupingError, raised, no_rounds, grouping, lift, at, TokenCounter, SelectedBoundary,
}
use mdrack.Media.Grouper.Boundary.{unsplittable_policies, find_boundary}
use mdrack.Media.Grouper.Metrics.{references, build_metrics}
use mdrack.Media.Grouper.Input.{expect, validate_atoms, fingerprint_payload, TimedGroupingResult}

-- The local variables of `group_timed_atoms` that its loop reads
pub record Grouping : Type 0 where
  pub policy : TimedChunkingPolicy
  pub token_counter : TokenCounter
  pub token_count_kind : Str
  pub unsplittable : Str
  pub resource_identifier : Str
  pub grouper_fingerprint : Str
  pub passage_representation_id : Str

-- `tuple(a) != tuple(b)` of two lists of texts, negated
unfoldable pub same_texts : List Str → List Str → Bool
same_texts [] [] = true
same_texts (s ∷ ss) (t ∷ ts) = (s == t) && same_texts ss ts
same_texts _ _ = false

module _ (F : Floats) (c : Codec F) where
  -- The `metadata` of a passage
  unfoldable pub passage_metadata : SelectedBoundary → Fields F
  passage_metadata selected = Fields.field (codes "boundary_reason") (Json.str selected.reason) (
      Fields.field (codes "boundary_score") (Json.int selected.candidate.score) (
        Fields.field (codes "hard_limit_exceeded") (Json.bool selected.hard_limit_exceeded)
          (Fields.field (codes "unsplittable") (Json.bool selected.unsplittable) Fields.end)))

  -- The passage that the loop appends, from `values[start_index : candidate.end_index + 1]`
  unfoldable pub passage_of :
      Grouping
      → List (TimedTextAtom F)
      → ℕ
      → SelectedBoundary
      → Result GroupingError (TimedPassage F)
  unfolding lift at passage_metadata
  passage_of g source_atoms ordinal selected = do
    let chosen = selected.candidate
    require (utf8_encodable chosen.text) (raised value_error)
    let text_digest = codes "sha256:" ++ c.sha256_hex chosen.text
    first ← at source_atoms 0
    last ← at source_atoms (length source_atoms - 1)
    id ← lift (
        passage_id F c g.resource_identifier g.grouper_fingerprint ordinal first.atom_id
          last.atom_id first.start_ms chosen.end_ms text_digest)
    tokens ← lift (
        make_token_count (record {
          count = chosen.token_count;
          kind = g.token_count_kind;
          counter_fingerprint = g.token_counter.fingerprint;
        }))
    lift (
        make_timed_passage F (record {
          passage_id = id;
          resource_id = g.resource_identifier;
          representation_id = g.passage_representation_id;
          start_ms = first.start_ms;
          end_ms = chosen.end_ms;
          text = chosen.text;
          ordinal = ordinal;
          token_count = tokens;
          source_atom_ids = map (λ (a : TimedTextAtom F). a.atom_id) source_atoms;
          grouper_fingerprint = g.grouper_fingerprint;
          metadata = passage_metadata selected;
        }))

  -- The `while` loop, where `atoms` is `values[start_index:]` and `ordinal` is `len(grouped)`; the
  -- first argument bounds its rounds.
  unfoldable pub group_from :
      Grouping → ℕ → List (TimedTextAtom F) → ℕ → Result GroupingError (List (TimedPassage F))
  unfolding find_boundary passage_of
  group_from g rounds [] ordinal = ok []
  group_from g zero (a ∷ atoms) ordinal = err no_rounds
  group_from g (suc rounds) (a ∷ atoms) ordinal = do
    selected ← find_boundary F g.policy g.token_counter g.unsplittable (a ∷ atoms)
    let size = suc selected.candidate.end_index
    p ← passage_of g (take size (a ∷ atoms)) ordinal selected
    passages ← group_from g rounds (drop size (a ∷ atoms)) (suc ordinal)
    ok (p ∷ passages)

  -- `effective_normalization`
  unfoldable pub effective_normalization :
      List (TimedTextAtom F) → Option Str → Result GroupingError Str
  effective_normalization [] none =
      err (grouping (codes "normalization_fingerprint_required_for_empty_input"))
  effective_normalization [] (some normalization) = ok normalization
  effective_normalization (first ∷ others) none = ok first.normalization_fingerprint
  effective_normalization (first ∷ others) (some normalization) = do
    expect (normalization == first.normalization_fingerprint) (codes "mixed_atom_contract")
    ok first.normalization_fingerprint

  -- `group_timed_atoms` from the end of the loop on
  unfoldable pub grouping_result :
      Grouping
      → List (TimedTextAtom F)
      → Fields F
      → List (TimedPassage F)
      → Result GroupingError (TimedGroupingResult F)
  unfolding build_metrics references same_texts lift freeze_metadata
  grouping_result g values payload passages = do
    metrics ← build_metrics F c values passages
    require (same_texts (references F c passages) (map (λ (a : TimedTextAtom F). a.atom_id) values))
        (raised assertion_error)
    require (eqb metrics.output_overlap_count 0) (raised assertion_error)
    frozen ← lift (freeze_metadata F payload)
    ok (record {
      resource_id = g.resource_identifier;
      representation_id = g.passage_representation_id;
      atoms = values;
      passages = passages;
      grouper_fingerprint = g.grouper_fingerprint;
      fingerprint_payload = frozen;
      metrics = metrics;
    })

  unfoldable pub group_timed_atoms :
      List (TimedTextAtom F)
      → TimedChunkingPolicy
      → TokenCounter
      → Str
      → Option Str
      → Option Str
      → Str
      → Result GroupingError (TimedGroupingResult F)
  unfolding validate_atoms effective_normalization fingerprint_payload fingerprint_of
      representation_id lift group_from grouping_result
  group_timed_atoms values policy counter kind resource_identifier normalization unsplittable = do
    expect (eqb policy.overlap_atoms 0) (codes "output_overlap_not_supported")
    expect (contains unsplittable unsplittable_policies) (codes "invalid_unsplittable_policy")
    expect (contains kind token_count_kinds) (codes "invalid_token_count_kind")
    identifier ← validate_atoms F values resource_identifier
    effective ← effective_normalization values normalization
    let payload = fingerprint_payload F policy counter.fingerprint kind unsplittable
    fingerprint ← lift (fingerprint_of F c payload)
    passage_representation ←
        lift (representation_id F c identifier representation_timed_passage fingerprint effective)
    let g : Grouping = record {
      policy = policy;
      token_counter = counter;
      token_count_kind = kind;
      unsplittable = unsplittable;
      resource_identifier = identifier;
      grouper_fingerprint = fingerprint;
      passage_representation_id = passage_representation;
    }
    passages ← group_from g (length values) values 0
    grouping_result g values payload passages
