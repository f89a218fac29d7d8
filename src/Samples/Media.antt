-- ===== src/Samples/Media.antt =====
-- Runs of the media identifiers and of the grouper on sample atoms.
use mdrack.Base.{
  ℕ, zero, suc, ◌+◌, ◌≤◌, ◌<◌, ◌-◌, ◌≡◌, refl, true, false, Option, none, some, List, [], ◌∷◌, ◌++◌,
  map, All, length, if◌then◌else◌, ◌⊎◌, inl, inr, Bool-cases,
}
use mdrack.Base.Results.{Result, ok, traverse}
use mdrack.Base.Order.{sort_by}
use mdrack.Base.Text.{Str, codes, str_eq, str_beq, str_lt, has_content, utf8_encodable, is_space}
use mdrack.Base.Int.{pos}
use mdrack.Core.Json.{Json, Items, Fields}
use mdrack.Core.RequestId.{full_match, times}
use mdrack.Core.Freeze.{items_list, items_of, fields_list, fields_of, field_before}
use mdrack.Media.Common.{
  require_text, require_any_text, require_int, freeze_json, canonical_json, freeze_metadata,
}
use mdrack.Media.Identifiers.{
  atom_id, representation_id, passage_id, fingerprint_of, make_fingerprint, id_payload, is_id_of,
  Codec, IsSha256, is_lower_hex, is_fingerprint, validate_media_id, stable_media_id, id_resource,
  id_atom, id_representation,
}
use mdrack.Media.Identifiers.Laws.{stable_media_id-validate}
use mdrack.Media.Policies.{TimedChunkingPolicy, default_policy}
use mdrack.Media.Records.{
  every, all_different, is_range_from, no_neighbours, make_token_count, make_timed_passage,
  require_optional_text, require_optional_probability, TimedTextAtom, TimedPassage,
  make_timed_text_atom, TranscriptArtifact, make_transcript_artifact, require_duration, covers_last,
}
use mdrack.Media.Grouper.{
  BoundaryCandidate, SelectedBoundary, GroupingError, TokenCounter, lift, select_candidate,
  max_from, key_lt, join_atom_texts, join_from, separated, spaced, last_char, last_visible,
  rstripped_last, count_tokens, distance, boundary_score, following_score, speaker_changes, at,
}
use mdrack.Media.Grouper.Boundary.{
  unsplittable_reject, find_boundary, find_from, boundary_round, beyond_limits, beyond_with,
  split_last, within_limits, select_found, safe_boundary, keep_candidate,
  next_would_exceed_hard_limit, candidate, is_none,
}
use mdrack.Media.Grouper.Metrics.{
  build_metrics, make_grouping_metrics, references, output_overlaps, input_overlaps, all_metadata,
  metadata_at, text_of, is_true, count_if, sum, greatest, members, count_one, counter_from,
}
use mdrack.Media.Grouper.Input.{
  TimedGroupingResult, expect, expect_value, validate_atoms, resource_of, validate_values,
  fingerprint_payload, payload_with, policy_fields, score_weights,
}
use mdrack.Media.Grouper.Run.{
  group_timed_atoms, group_from, grouping_result, passage_of, passage_metadata,
  effective_normalization, same_texts,
}
use mdrack.Media.Grouper.Transcripts.{make_transcript_artifact-validate_atoms}
use mdrack.Media.Grouper.Select.{IsOneOf, Outdoes, select_candidate-greatest}
use mdrack.Media.Grouper.Made.{IsMade}
use mdrack.Media.Grouper.Grouped.{
  IsCaller, group_timed_atoms-once, group_timed_atoms-limits, group_timed_atoms-flags,
}
use mdrack.Samples.Values.{whole}

-- The sum of the numbers in a value
unfoldable mutual
  weight : Json whole → ℕ
  weight (Json.int (pos n)) = n
  weight (Json.tuple vs) = weight_items vs
  weight (Json.mapping fs) = weight_fields fs
  weight _ = 0

  weight_items : Items whole → ℕ
  weight_items Items.nil = 0
  weight_items (Items.cons v vs) = weight v + weight_items vs

  weight_fields : Fields whole → ℕ
  weight_fields Fields.end = 0
  weight_fields (Fields.field name v fs) = weight v + weight_fields fs

abbrev zeros : ℕ → Str
zeros zero = []
zeros (suc n) = b'0' ∷ zeros n

-- A digit that tells sample texts apart
abbrev digit : Str → ℕ
unfolding is_lower_hex
digit [] = b'0'
digit (x ∷ s) = if is_lower_hex x then x else b'0'

unfoldable sample_digest : Str → Str
sample_digest s = zeros 63 ++ (digit s ∷ [])

abbrev codec : Codec whole
unfolding weight sample_digest
codec = record { dumps = λ v. (b'0' + weight v) ∷ []; sha256_hex = sample_digest; str_of = λ v. [] }

digit-is_lower_hex : (s : Str) → is_lower_hex (digit s) ≡ true
unfolding is_lower_hex
digit-is_lower_hex [] = refl
digit-is_lower_hex (x ∷ s) = elim (Bool-cases (is_lower_hex x)) [
  | inl e ↦ rw (e) e
  | inr e ↦ rw e refl
]

codec-IsSha256 : IsSha256 whole codec
unfolding full_match times is_lower_hex sample_digest codec
codec-IsSha256 = record { digest = λ s. rw (digit-is_lower_hex s) refl }

abbrev hex_id : Str → ℕ → Str
hex_id kind d = kind ++ (codes "_" ++ (zeros 63 ++ (d ∷ [])))

abbrev fingerprint : ℕ → Str
fingerprint d = codes "sha256:" ++ (zeros 63 ++ (d ∷ []))

abbrev video : Str
video = hex_id id_resource b'1'

stable_media_id-validate_example :
    validate_media_id (hex_id id_resource b'1') (some id_resource) ≡ ok (hex_id id_resource b'1')
unfolding stable_media_id canonical_json freeze_json require_any_text traverse sort_by items_list
    items_of fields_list fields_of field_before str_lt str_beq utf8_encodable id_payload weight
    sample_digest is_lower_hex
stable_media_id-validate_example =
    stable_media_id-validate whole codec id_resource (Json.int (pos 1) ∷ []) codec-IsSha256 refl

abbrev atom : ℕ → ℕ → ℕ → Str → TimedTextAtom whole
atom ordinal start_ms end_ms text = record {
  atom_id = hex_id id_atom (b'0' + ordinal);
  resource_id = video;
  start_ms = start_ms;
  end_ms = end_ms;
  text = text;
  ordinal = ordinal;
  producer_fingerprint = fingerprint b'a';
  normalization_fingerprint = fingerprint b'b';
  token_count = none;
  speaker = none;
  confidence = none;
  metadata = Fields.end;
}

abbrev first_atom : TimedTextAtom whole
first_atom = atom 0 0 2000 (codes "One two.")

abbrev second_atom : TimedTextAtom whole
second_atom = atom 1 2500 4000 (codes "Three")

first_atom-accepted : make_timed_text_atom whole codec first_atom ≡ ok first_atom
unfolding make_timed_text_atom validate_media_id require_text require_any_text has_content is_space
    utf8_encodable is_id_of full_match times is_lower_hex require_int atom_id stable_media_id
    canonical_json freeze_json traverse sort_by items_list items_of fields_list fields_of
    field_before str_lt str_beq id_payload weight sample_digest require_optional_text
    require_optional_probability freeze_metadata
first_atom-accepted = refl

second_atom-accepted : make_timed_text_atom whole codec second_atom ≡ ok second_atom
unfolding make_timed_text_atom validate_media_id require_text require_any_text has_content is_space
    utf8_encodable is_id_of full_match times is_lower_hex require_int atom_id stable_media_id
    canonical_json freeze_json traverse sort_by items_list items_of fields_list fields_of
    field_before str_lt str_beq id_payload weight sample_digest require_optional_text
    require_optional_probability freeze_metadata
second_atom-accepted = refl

abbrev letters : TokenCounter
letters = record { count = λ s. some (length s); fingerprint = fingerprint b'c' }

abbrev narrow : TimedChunkingPolicy
narrow = record default_policy {
  soft_min_tokens = 1;
  target_tokens = 8;
  soft_max_tokens = 10;
  hard_max_tokens = 12;
  soft_min_duration_ms = 1;
}

abbrev atoms : List (TimedTextAtom whole)
atoms = first_atom ∷ second_atom ∷ []

fingerprints-accepted :
    (is_fingerprint (fingerprint b'b') ≡ true) × (is_fingerprint (fingerprint b'c') ≡ true)
unfolding is_fingerprint
fingerprints-accepted = (refl, refl)

atoms-IsMade : All (IsMade whole codec) atoms
atoms-IsMade = (
  record { raw = first_atom; accepted = first_atom-accepted; normal = fingerprints-accepted.0 },
  (
    record { raw = second_atom; accepted = second_atom-accepted; normal = fingerprints-accepted.0 },
    tt,
  ),
)

letters-IsCaller : IsCaller whole codec letters none
letters-IsCaller = record {
  counts_as = fingerprints-accepted.1;
  normalizes_as = λ n e. absurd (cc);
}

abbrev run : TimedChunkingPolicy → Result GroupingError (TimedGroupingResult whole)
run policy =
    group_timed_atoms whole codec atoms policy letters (codes "exact") none none unsplittable_reject

run-returns : (r : TimedGroupingResult whole) × (run narrow ≡ ok r)
unfolding group_timed_atoms group_from grouping_result passage_of passage_metadata
    effective_normalization same_texts expect validate_atoms resource_of validate_values
    fingerprint_payload payload_with policy_fields score_weights lift find_boundary find_from
    boundary_round beyond_limits beyond_with split_last within_limits select_found select_candidate
    max_from key_lt safe_boundary keep_candidate next_would_exceed_hard_limit candidate is_none
    join_atom_texts join_from separated spaced last_char last_visible rstripped_last count_tokens
    distance boundary_score following_score speaker_changes at build_metrics make_grouping_metrics
    references output_overlaps input_overlaps all_metadata metadata_at text_of is_true count_if sum
    greatest members count_one counter_from expect_value every all_different is_range_from
    no_neighbours make_token_count make_timed_passage representation_id passage_id fingerprint_of
    make_fingerprint is_fingerprint validate_media_id require_text require_any_text has_content
    is_space utf8_encodable is_id_of full_match times is_lower_hex require_int stable_media_id
    canonical_json freeze_json traverse sort_by items_list items_of fields_list fields_of
    field_before str_lt str_beq id_payload weight sample_digest freeze_metadata
run-returns = (_, refl)

group_timed_atoms-once_example :
    (references whole codec run-returns.0.passages ≡ first_atom.atom_id ∷ second_atom.atom_id ∷ [])
    × (output_overlaps whole codec run-returns.0.passages ≡ 0)
    × (is_range_from 0 (map (λ (p : TimedPassage whole). p.ordinal) run-returns.0.passages) ≡ true)
group_timed_atoms-once_example =
    group_timed_atoms-once whole codec atoms narrow letters (codes "exact") none none
      unsplittable_reject codec-IsSha256 atoms-IsMade letters-IsCaller run-returns.1

group_timed_atoms-limits_example :
    All
      (λ (p : TimedPassage whole).
        (p.token_count.count ≤ 12) × (p.end_ms - p.start_ms ≤ 120000) × (p.start_ms < p.end_ms))
      run-returns.0.passages
group_timed_atoms-limits_example =
    group_timed_atoms-limits whole codec atoms narrow letters (codes "exact") none none
      unsplittable_reject codec-IsSha256 atoms-IsMade letters-IsCaller refl run-returns.1

group_timed_atoms-flags_example :
    All
      (λ (p : TimedPassage whole).
        (◌≡◌ {A = Option ℕ} (some (length p.text)) (some p.token_count.count))
        × (((p.token_count.count ≤ 12) × (p.end_ms - p.start_ms ≤ 120000))
            ⊎ (metadata_at whole codec (codes "hard_limit_exceeded") p.metadata
                ≡ ok (Json.bool true))))
      run-returns.0.passages
group_timed_atoms-flags_example =
    group_timed_atoms-flags whole codec atoms narrow letters (codes "exact") none none
      unsplittable_reject codec-IsSha256 atoms-IsMade letters-IsCaller run-returns.1

abbrev sample_candidate : ℕ → ℕ → BoundaryCandidate
sample_candidate end_index score = record {
  end_index = end_index;
  text = codes "One two.";
  token_count = 8;
  end_ms = 2000;
  score = pos score;
  token_distance = 0;
  duration_distance = 9;
}

abbrev best_of_two : SelectedBoundary
best_of_two = record {
  candidate = sample_candidate 1 60;
  reason = codes "soft_max";
  hard_limit_exceeded = false;
  unsplittable = false;
}

select_candidate-greatest_example :
    IsOneOf best_of_two.candidate (sample_candidate 0 40 ∷ sample_candidate 1 60 ∷ [])
    × All (Outdoes best_of_two.candidate) (sample_candidate 0 40 ∷ sample_candidate 1 60 ∷ [])
unfolding select_candidate max_from key_lt
select_candidate-greatest_example =
    select_candidate-greatest (sample_candidate 0 40 ∷ sample_candidate 1 60 ∷ [])
      (codes "soft_max") refl

abbrev transcript : TranscriptArtifact whole
transcript = record {
  resource_id = video;
  representation_id = hex_id id_representation b'0';
  representation_kind = codes "audio_transcript";
  atoms = atoms;
  producer_fingerprint = fingerprint b'a';
  normalization_fingerprint = fingerprint b'b';
  language = some (codes "en");
  duration_ms = some 5000;
  metadata = Fields.end;
}

transcript-accepted : make_transcript_artifact whole codec transcript ≡ ok transcript
unfolding make_transcript_artifact representation_id require_duration covers_last every
    all_different is_range_from no_neighbours validate_media_id require_text require_any_text
    has_content is_space utf8_encodable is_id_of full_match times is_lower_hex require_int
    stable_media_id canonical_json freeze_json traverse sort_by items_list items_of fields_list
    fields_of field_before str_lt str_beq id_payload weight sample_digest require_optional_text
    freeze_metadata
transcript-accepted = refl

make_transcript_artifact-validate_atoms_example :
    (transcript.atoms ≡ atoms) × (validate_atoms whole transcript.atoms (some video) ≡ ok video)
make_transcript_artifact-validate_atoms_example =
    make_transcript_artifact-validate_atoms whole codec transcript atoms-IsMade transcript-accepted
