-- ===== src/Media/Grouper/Input.antt =====
-- `_validate_atoms`, `_fingerprint_payload` and the records of results of
-- packages/mdrack-media/src/mdrack_media/grouper.py.
use mdrack.Base.{Bool, ◌&&◌, Option, none, some, List, [], ◌∷◌, map, length, ltb, ◌==◌}
use mdrack.Base.Results.{Result, ok, err, ◌>>=◌, ◌>>◌, require}
use mdrack.Base.Text.{Str, codes, str_eq}
use mdrack.Base.Int.{pos}
use mdrack.Base.Floats.{Floats}
use mdrack.Core.Errors.{PyError, value_error}
use mdrack.Core.Json.{Json, Fields}
use mdrack.Core.Freeze.{items_of}
use mdrack.Media.Identifiers.{id_resource, validate_media_id}
use mdrack.Media.Policies.{TimedChunkingPolicy}
use mdrack.Media.Records.{
  TimedTextAtom, TimedPassage, all_different, is_range_from, every, no_neighbours,
}
use mdrack.Media.Grouper.{GroupingError, grouping, raised, at}
use mdrack.Media.Grouper.Metrics.{GroupingMetrics}

-- `raise TimedGroupingError(code)` where a test fails
unfoldable pub expect : Bool → Str → Result GroupingError (Unit {0})
expect test code = require test (grouping code)

-- `except ValueError` turned into `TimedGroupingError(code)`
unfoldable pub expect_value : {A : Type 0} → Result PyError A → Str → Result GroupingError A
expect_value (ok a) code = ok a
expect_value (err value_error) code = err (grouping code)
expect_value (err e) code = err (raised e)

module _ (F : Floats) where
  -- `TimedChunkingPolicy.to_dict`
  unfoldable pub policy_fields : TimedChunkingPolicy → Fields F
  policy_fields p =
      Fields.field (codes "hard_max_duration_ms") (Json.int (pos p.hard_max_duration_ms)) (
        Fields.field (codes "hard_max_tokens") (Json.int (pos p.hard_max_tokens)) (
          Fields.field (codes "medium_pause_ms") (Json.int (pos p.medium_pause_ms)) (
            Fields.field (codes "overlap_atoms") (Json.int (pos p.overlap_atoms)) (
              Fields.field (codes "soft_max_duration_ms") (Json.int (pos p.soft_max_duration_ms)) (
                Fields.field (codes "soft_max_tokens") (Json.int (pos p.soft_max_tokens)) (
                  Fields.field (codes "soft_min_duration_ms")
                    (Json.int (pos p.soft_min_duration_ms))
                    (Fields.field (codes "soft_min_tokens") (Json.int (pos p.soft_min_tokens)) (
                      Fields.field (codes "strong_pause_ms") (Json.int (pos p.strong_pause_ms)) (
                        Fields.field (codes "target_duration_ms")
                          (Json.int (pos p.target_duration_ms))
                          (Fields.field (codes "target_tokens") (Json.int (pos p.target_tokens))
                            Fields.end))))))))))

  -- `_SCORE_WEIGHTS`
  unfoldable pub score_weights : Fields F
  score_weights = Fields.field (codes "hard_limit_risk") (Json.int (pos 100)) (
      Fields.field (codes "speaker_change") (Json.int (pos 45)) (
        Fields.field (codes "sentence_end") (Json.int (pos 40)) (
          Fields.field (codes "strong_pause") (Json.int (pos 35)) (
            Fields.field (codes "soft_max") (Json.int (pos 20)) (
              Fields.field (codes "medium_pause") (Json.int (pos 15)) (
                Fields.field (codes "line_break") (Json.int (pos 15)) (
                  Fields.field (codes "target_tokens") (Json.int (pos 10))
                    (Fields.field (codes "target_duration") (Json.int (pos 10)) Fields.end))))))))

  -- `_fingerprint_payload` with given weights
  unfoldable pub payload_with : Fields F → TimedChunkingPolicy → Str → Str → Str → Fields F
  unfolding policy_fields items_of
  payload_with weights policy counter_fingerprint token_count_kind unsplittable =
      Fields.field (codes "algorithm") (Json.str (codes "deterministic-window-v1")) (
        Fields.field (codes "boundary_window")
          (Json.str (codes "soft-min-through-first-soft-max-or-hard-risk-v1"))
          (Fields.field (codes "distance_penalty")
            (Json.str (codes "floor(10*absolute_delta/target)-per-axis-v1"))
            (Fields.field (codes "input_order")
              (Json.str (codes "strict-start-ms-nondecreasing-v1"))
              (Fields.field (codes "join_policy")
                (Json.str (codes "preserve-boundary-whitespace-v1"))
                (Fields.field (codes "output_overlap_atoms") (Json.int (pos 0)) (
                  Fields.field (codes "policy") (Json.mapping (policy_fields policy)) (
                    Fields.field (codes "score_weights") (Json.mapping weights) (
                      Fields.field (codes "tie_order")
                        (Json.tuple (
                          items_of F (
                            Json.str (codes "score_desc")
                            ∷ Json.str (codes "token_distance_asc")
                            ∷ Json.str (codes "duration_distance_asc")
                            ∷ Json.str (codes "boundary_asc")
                            ∷ [])))
                        (Fields.field (codes "token_count_kind") (Json.str token_count_kind) (
                          Fields.field (codes "token_counter_fingerprint")
                            (Json.str counter_fingerprint)
                            (Fields.field (codes "unsplittable") (Json.str unsplittable) (
                              Fields.field (codes "version") (Json.int (pos 1))
                                Fields.end))))))))))))

  unfoldable pub fingerprint_payload : TimedChunkingPolicy → Str → Str → Str → Fields F
  unfolding payload_with score_weights
  fingerprint_payload = payload_with score_weights

  -- The identifier that `_validate_atoms` checks
  unfoldable pub resource_of : List (TimedTextAtom F) → Option Str → Result GroupingError Str
  unfolding at
  resource_of values (some identifier) = ok identifier
  resource_of values none = do
    expect (ltb 0 (length values)) (codes "resource_id_required_for_empty_input")
    first ← at values 0
    ok first.resource_id

  -- The rest of `_validate_atoms`, for a valid identifier
  unfoldable pub validate_values : List (TimedTextAtom F) → Str → Result GroupingError Str
  unfolding every all_different is_range_from no_neighbours
  validate_values [] identifier = ok identifier
  validate_values (first ∷ others) identifier = do
    expect
        (every
          (λ (a : TimedTextAtom F).
            (a.resource_id == identifier)
            && (a.producer_fingerprint == first.producer_fingerprint)
            && (a.normalization_fingerprint == first.normalization_fingerprint))
          (first ∷ others))
        (codes "mixed_atom_contract")
    expect (is_range_from 0 (map (λ (a : TimedTextAtom F). a.ordinal) (first ∷ others)))
        (codes "atom_ordinals_not_canonical")
    expect (all_different (map (λ (a : TimedTextAtom F). a.atom_id) (first ∷ others)))
        (codes "duplicate_atom_id")
    expect (no_neighbours (λ (p q : TimedTextAtom F). ltb q.start_ms p.start_ms) (first ∷ others))
        (codes "atoms_not_ordered")
    ok identifier

  -- `_validate_atoms` on values that are `TimedTextAtom`
  unfoldable pub validate_atoms : List (TimedTextAtom F) → Option Str → Result GroupingError Str
  unfolding resource_of expect_value validate_media_id validate_values
  validate_atoms values resource_identifier = do
    identifier ← resource_of values resource_identifier
    _ ← expect_value (validate_media_id identifier (some id_resource)) (codes "invalid_resource_id")
    validate_values values identifier

  pub record TimedGroupingResult : Type 0 where
    pub resource_id : Str
    pub representation_id : Str
    pub atoms : List (TimedTextAtom F)
    pub passages : List (TimedPassage F)
    pub grouper_fingerprint : Str
    pub fingerprint_payload : Fields F
    pub metrics : GroupingMetrics
