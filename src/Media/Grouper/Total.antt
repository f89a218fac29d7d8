-- ===== src/Media/Grouper/Total.antt =====
-- `group_timed_atoms` returns a cover of its atoms, or raises a `TimedGroupingError`.
use mdrack.Base.{
  ◌≡◌, refl, Bool, true, false, Option, none, some, List, [], ◌∷◌, All, All-map, eq_refl, arith,
}
use mdrack.Base.Results.{ok, ◌>>◌, require, traverse-returns}
use mdrack.Base.Text.{Str, codes, str_eq, str_beq, has_content, utf8_encodable}
use mdrack.Base.Floats.{Floats}
use mdrack.Core.Errors.{value_error}
use mdrack.Core.Json.{Json}
use mdrack.Media.Common.{require_text, require_any_text}
use mdrack.Media.Identifiers.{Codec, validate_media_id, id_resource, is_id_of}
use mdrack.Media.Identifiers.Made.{IsId, IsReadable}
use mdrack.Media.Records.{TimedTextAtom, TimedPassage, all_different}
use mdrack.Media.Policies.{TimedChunkingPolicy}
use mdrack.Media.Grouper.{at, TokenCounter, SelectedBoundary}
use mdrack.Media.Grouper.Metrics.{
  GroupingMetrics, metadata_at, all_metadata, output_overlaps, build_metrics, make_grouping_metrics,
}
use mdrack.Media.Grouper.Input.{expect_value, resource_of, validate_values, validate_atoms}
use mdrack.Media.Grouper.Run.{passage_metadata, effective_normalization, same_texts}
use mdrack.Media.Grouper.Outcomes.{Ensures, returns, refuses, bind-Ensures, expect-Ensures}
use mdrack.Media.Grouper.Passages.{IsAtom}
use mdrack.Media.Grouper.Cover.{ids_of, IsMeasured}

-- The three tests of `validate_media_id`
validate_steps-Ensures :
    (content clean matched : Bool) (id code : Str)
    → Ensures
        (λ _.
          (require content value_error
            >> require clean value_error
            >> (require matched value_error >> ok id))
          ≡ ok id)
        (expect_value
          (require content value_error
            >> require clean value_error
            >> (require matched value_error >> ok id))
          code)
unfolding expect_value
validate_steps-Ensures true true true id code = returns id refl
validate_steps-Ensures true true false id code = refuses code
validate_steps-Ensures true false matched id code = refuses code
validate_steps-Ensures false clean matched id code = refuses code

-- A value that is refused is an error of the grouper.
validate_media_id-Ensures :
    (id kind code : Str)
    → Ensures (λ _. IsId kind id) (expect_value (validate_media_id id (some kind)) code)
unfolding validate_media_id require_text require_any_text expect_value
validate_media_id-Ensures id kind code =
    validate_steps-Ensures (has_content id) (utf8_encodable id) (is_id_of kind id) id code

module _ (F : Floats) (c : Codec F) where
  resource_of-Ensures :
      (values : List (TimedTextAtom F)) (resource_identifier : Option Str)
      → Ensures (λ _. Unit {0}) (resource_of F values resource_identifier)
  unfolding resource_of at
  resource_of-Ensures values (some id) = returns id tt
  resource_of-Ensures [] none = expect-Ensures _ _ _ _ (λ e. absurd (cc))
  resource_of-Ensures (a ∷ values) none = expect-Ensures _ _ _ _ (λ _. returns _ tt)

  validate_values-Ensures :
      (values : List (TimedTextAtom F)) (id : Str)
      → IsId id_resource id
      → Ensures
          (λ id. IsId id_resource id × (all_different (ids_of F c values) ≡ true))
          (validate_values F values id)
  unfolding validate_values all_different
  validate_values-Ensures [] id v = returns id (v, refl)
  validate_values-Ensures (a ∷ values) id v = expect-Ensures _ _ _ _ (λ _.
      expect-Ensures _ _ _ _
        (λ _. expect-Ensures _ _ _ _ (λ d. expect-Ensures _ _ _ _ (λ _. returns id (v, d)))))

  pub validate_atoms-Ensures :
      (values : List (TimedTextAtom F)) (resource_identifier : Option Str)
      → Ensures
          (λ id. IsId id_resource id × (all_different (ids_of F c values) ≡ true))
          (validate_atoms F values resource_identifier)
  unfolding validate_atoms
  validate_atoms-Ensures values resource_identifier =
      bind-Ensures _ _ (resource_of F values resource_identifier) _
        (resource_of-Ensures values resource_identifier)
        (λ id _.
          bind-Ensures _ _ (expect_value (validate_media_id id (some id_resource)) _) _
            (validate_media_id-Ensures id id_resource _)
            (λ _ v. validate_values-Ensures values id v))

  pub effective_normalization-Ensures :
      (values : List (TimedTextAtom F)) (normalization : Option Str)
      → All (IsAtom F c) values
      → ((n : Str) → normalization ≡ some n → IsReadable n)
      → Ensures IsReadable (effective_normalization F c values normalization)
  unfolding effective_normalization
  effective_normalization-Ensures [] none all h = refuses _
  effective_normalization-Ensures [] (some n) all h = returns n (h n refl)
  effective_normalization-Ensures (a ∷ values) none all h = returns _ all.0.normal
  effective_normalization-Ensures (a ∷ values) (some n) all h =
      expect-Ensures _ _ _ _ (λ _. returns _ all.0.normal)

  all_metadata-returns :
      (policy : TimedChunkingPolicy) (counter : TokenCounter) (unsplittable key : Str)
      (passages : List (TimedPassage F))
      → ((s : SelectedBoundary)
          → (v : Json F) × (metadata_at F c key (passage_metadata F c s) ≡ ok v))
      → All (IsMeasured F c policy counter unsplittable) passages
      → (vs : List (Json F)) × (all_metadata F c key passages ≡ ok vs)
  unfolding all_metadata
  all_metadata-returns policy counter unsplittable key passages h measured =
      traverse-returns (λ (p : TimedPassage F). metadata_at F c key p.metadata) passages
        (All-map _ _ passages (λ p m. rw (m.metadata) (h m.selected)) measured)

  pub build_metrics-returns :
      (policy : TimedChunkingPolicy) (counter : TokenCounter) (unsplittable : Str)
      (values : List (TimedTextAtom F)) (passages : List (TimedPassage F))
      → All (IsMeasured F c policy counter unsplittable) passages
      → (m : GroupingMetrics) × (build_metrics F c values passages ≡ ok m)
        × (m.output_overlap_count ≡ output_overlaps F c passages)
  unfolding build_metrics make_grouping_metrics metadata_at passage_metadata str_beq
  build_metrics-returns policy counter unsplittable values passages measured =
      let (reasons, p) =
        all_metadata-returns policy counter unsplittable (codes "boundary_reason") passages
          (λ s. (_, refl)) measured in
      let (exceeded, q) =
        all_metadata-returns policy counter unsplittable (codes "hard_limit_exceeded") passages
          (λ s. (_, refl)) measured in
      let (flags, r) =
        all_metadata-returns policy counter unsplittable (codes "unsplittable") passages
          (λ s. (_, refl)) measured in
      rw (p, q, r) (_, refl, refl)

pub same_texts_refl : (xs : List Str) → same_texts xs xs ≡ true
unfolding same_texts
same_texts_refl [] = refl
same_texts_refl (x ∷ xs) = ground (arith, eq_refl x, same_texts_refl xs)
