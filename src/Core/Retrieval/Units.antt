-- ===== src/Core/Retrieval/Units.antt =====
-- `_deduplicate_units` and `_group_resources` of
-- packages/mdrack-core/src/mdrack_core/application/retrieval.py
use mdrack.Base.{
  ℕ, ◌+◌, Bool, true, false, ◌&&◌, ◌||◌, List, [], ◌∷◌, ◌++◌, map, take, contains, ltb, eqb,
  if◌then◌else◌,
}
use mdrack.Base.Results.{Result, ok, err, ◌>>=◌, traverse}
use mdrack.Base.Dict.{Dict, get_or, insert}
use mdrack.Base.Order.{sort_by}
use mdrack.Base.Text.{Str, str_eq, str_lt}
use mdrack.Base.Floats.{Floats}
use mdrack.Core.Errors.{PyError, value_error, index_error}
use mdrack.Core.Search.{RankedCandidate}
use mdrack.Core.Fusion.{FusionCandidate, make_candidate}

module _ (F : Floats) where
  -- The loop of `_deduplicate_units`, over `seen`
  unfoldable pub deduplicate_loop : List (RankedCandidate F) → List Str → List (FusionCandidate F)
  deduplicate_loop [] seen = []
  deduplicate_loop (c ∷ cs) seen = elim (contains c.unit_id seen) [
    | true ↦ deduplicate_loop cs seen
    | false ↦
        (record { logical_id = c.unit_id; representative = c; evidence = c ∷ [] })
        ∷ deduplicate_loop cs (c.unit_id ∷ seen)
  ]

  -- `_deduplicate_units`
  unfoldable pub deduplicate_units :
      List (RankedCandidate F) → Result PyError (List (FusionCandidate F))
  unfolding deduplicate_loop
  deduplicate_units candidates = traverse (make_candidate F) (deduplicate_loop candidates [])

  -- A member of a list in `by_resource`: first seen and candidate
  abbrev pub Seen : Type 0
  Seen = ℕ × RankedCandidate F

  -- The first loop of `_group_resources`, over `first_seen`, `seen_units` and `by_resource`
  unfoldable pub collect_resources :
      List (RankedCandidate F) → ℕ → List Str → Dict Str (List Seen) → Dict Str (List Seen)
  collect_resources [] first_seen seen_units by_resource = by_resource
  collect_resources (c ∷ cs) first_seen seen_units by_resource =
      elim (contains c.unit_id seen_units) [
        | true ↦ collect_resources cs (first_seen + 1) seen_units by_resource
        | false ↦ collect_resources cs (first_seen + 1) (c.unit_id ∷ seen_units) (
            insert c.resource_id (get_or c.resource_id [] by_resource ++ ((first_seen, c) ∷ []))
              by_resource)
      ]

  -- The key `(rank, first_seen, unit_id)`
  unfoldable pub seen_before : Seen → Seen → Bool
  seen_before (n, c) (m, d) =
      ltb c.rank d.rank
      || (eqb c.rank d.rank && (ltb n m || (eqb n m && str_lt c.unit_id d.unit_id)))

  unfoldable pub min_seen : ℕ → List Seen → ℕ
  min_seen m [] = m
  min_seen m ((n, c) ∷ entries) = min_seen (if ltb n m then n else m) entries

  -- `min(first_seen for first_seen, _ in entries)`
  unfoldable pub first_of_entries : List Seen → Result PyError ℕ
  unfolding min_seen
  first_of_entries [] = err value_error
  first_of_entries ((n, c) ∷ entries) = ok (min_seen n entries)

  -- A group from its resource's entries and the same in order
  unfoldable pub group_ordered :
      ℕ → Str → List Seen → List Seen → Result PyError (ℕ × FusionCandidate F)
  unfolding make_candidate first_of_entries
  group_ordered evidence_limit resource_id entries [] = err index_error
  group_ordered evidence_limit resource_id entries (s ∷ rest) = do
    first ← first_of_entries entries
    g ← make_candidate F (record {
      logical_id = resource_id;
      representative = s.1;
      evidence = map (λ (e : Seen). e.1) (take evidence_limit (s ∷ rest));
    })
    ok (first, g)

  -- One round of the second loop of `_group_resources`
  unfoldable pub group_resource : ℕ → Str × List Seen → Result PyError (ℕ × FusionCandidate F)
  unfolding group_ordered
  group_resource evidence_limit (resource_id, entries) =
      group_ordered evidence_limit resource_id entries (sort_by seen_before entries)

  -- The key `(first_seen, logical_id)`
  unfoldable pub group_before : ℕ × FusionCandidate F → ℕ × FusionCandidate F → Bool
  group_before (n, g) (m, h) = ltb n m || (eqb n m && str_lt g.logical_id h.logical_id)

  -- `_group_resources`
  unfoldable pub group_resources :
      List (RankedCandidate F) → ℕ → Result PyError (List (FusionCandidate F))
  unfolding collect_resources group_resource
  group_resources candidates evidence_limit = do
    grouped ← traverse (group_resource evidence_limit) (collect_resources candidates 0 [] [])
    ok (map (λ (g : ℕ × FusionCandidate F). g.1) (sort_by group_before grouped))
