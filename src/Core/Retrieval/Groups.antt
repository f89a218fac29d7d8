-- ===== src/Core/Retrieval/Groups.antt =====
-- The result of `_group_resources`: one group for each resource, each around its best candidate.
use mathlib.Core.List.{Perm}
use mathlib.Core.List.Perm
use mdrack.Base.{
  ℕ, ◌≡◌, refl, sym, ap, ap₂, subst, some, List, [], ◌∷◌, map, Distinct, All, All-map,
}
use mdrack.Base.Results.{ok, traverse, >>=-eq-ok, traverse-Each, Each}
use mdrack.Base.Dict.{Dict, keys, lookup, get_or, items-lookup}
use mdrack.Base.Order.{sort_by, sort_by-perm, sort_by-All}
use mdrack.Base.Text.{Str, str_eq}
use mdrack.Base.Floats.{Floats}
use mdrack.Core.Search.{RankedCandidate}
use mdrack.Core.Fusion.{FusionCandidate}
use mdrack.Core.Fusion.Ids.{distinct_from, distinct_from-Distinct}
use mdrack.Core.Retrieval.Units.{
  Seen, collect_resources, group_resource, group_before, group_resources,
}
use mdrack.Core.Retrieval.Candidates.{unit_ids, Unseen}
use mdrack.Core.Retrieval.Grouping.{
  resource_ids, entries_of, collect_resources-entries, collect_resources-keys, IsGroupOf,
  group_resource-IsGroupOf,
}

module _ (F : Floats) where
  Unseen-none : (cs : List (RankedCandidate F)) → Unseen F [] cs
  Unseen-none [] = tt
  Unseen-none (c ∷ cs) = (refl, Unseen-none cs)

  module _ (limit : ℕ) (cs : List (RankedCandidate F)) (distinct : Distinct (unit_ids F cs)) where
    by_resource : Dict Str (List (Seen F))
    by_resource = collect_resources F cs 0 [] []

    by_resource-keys : keys by_resource ≡ distinct_from [] (resource_ids F cs)
    unfolding by_resource
    by_resource-keys = collect_resources-keys F cs 0 [] [] (Unseen-none cs) distinct

    by_resource-entries :
        (p : Str × List (Seen F)) → lookup p.0 by_resource ≡ some p.1 → p.1 ≡ entries_of F p.0 0 cs
    unfolding by_resource get_or lookup
    by_resource-entries p found =
        let all : get_or p.0 [] by_resource ≡ entries_of F p.0 0 cs =
          collect_resources-entries F cs 0 [] [] p.0 (Unseen-none cs) distinct in
        rw (found, get_or) at all

    groups_made :
        (ps : Dict Str (List (Seen F))) (grouped : List (ℕ × FusionCandidate F))
        → All (λ p. p.1 ≡ entries_of F p.0 0 cs) ps
        → Each (λ p g. group_resource F limit p ≡ ok g) ps grouped
        → All (λ g. IsGroupOf F limit cs g.1) grouped
          × (map (λ (g : ℕ × FusionCandidate F). g.1.logical_id) grouped ≡ keys ps)
    groups_made [] [] h e = (tt, refl)
    groups_made [] (g ∷ gs) h e = absurd e
    groups_made (p ∷ ps) [] h e = absurd e
    groups_made ((id, entries) ∷ ps) (g ∷ gs) h e =
        let (same, is) = group_resource-IsGroupOf F limit cs id entries g h.0 e.0 in
        let (all, ids) = groups_made ps gs h.1 e.1 in ((is, all), ap₂ ◌∷◌ same ids)

    by_resource-All : All (λ p. p.1 ≡ entries_of F p.0 0 cs) by_resource
    by_resource-All =
        All-map (λ p. lookup p.0 by_resource ≡ some p.1) (λ p. p.1 ≡ entries_of F p.0 0 cs)
          by_resource by_resource-entries
          (items-lookup by_resource (
            subst (λ l. Distinct l) (sym by_resource-keys)
              (distinct_from-Distinct (resource_ids F cs))))

    groups-All :
        (l : List (ℕ × FusionCandidate F))
        → All (λ g. IsGroupOf F limit cs g.1) l
        → All (IsGroupOf F limit cs) (map (λ (g : ℕ × FusionCandidate F). g.1) l)
    groups-All [] h = tt
    groups-All (g ∷ l) h = (h.0, groups-All l h.1)

    map-groups :
        (l : List (ℕ × FusionCandidate F))
        → map (λ (g : FusionCandidate F). g.logical_id) (map (λ (g : ℕ × FusionCandidate F). g.1) l)
          ≡ map (λ (g : ℕ × FusionCandidate F). g.1.logical_id) l
    map-groups [] = refl
    map-groups (g ∷ l) = ap (◌∷◌ g.1.logical_id) (map-groups l)

    -- For candidates with distinct units, when grouping returns there is one group for each
    -- resource among them, made of candidates of that resource, within the evidence limit, around
    -- a candidate of least rank.
    pub group_resources-IsGroupOf :
        (gs : List (FusionCandidate F))
        → group_resources F cs limit ≡ ok gs
        → Perm
            (map (λ (g : FusionCandidate F). g.logical_id) gs)
            (distinct_from [] (resource_ids F cs))
          × All (IsGroupOf F limit cs) gs
    unfolding group_resources by_resource
    group_resources-IsGroupOf gs h =
        let (grouped, p, q) =
          >>=-eq-ok (traverse (group_resource F limit) (collect_resources F cs 0 [] []))
            (λ grouped.
              ok (map (λ (g : ℕ × FusionCandidate F). g.1) (sort_by (group_before F) grouped)))
            h in
        let sorted = sort_by (group_before F) grouped in
        let e : map (λ (g : ℕ × FusionCandidate F). g.1) sorted ≡ gs = cc in
        let (all, ids) =
          groups_made (collect_resources F cs 0 [] []) grouped by_resource-All
            (traverse-Each (group_resource F limit) (collect_resources F cs 0 [] []) p) in
        (
          rw (← e) (
              rw (map-groups sorted) (
                Perm.trans
                  (Perm.map (λ (g : ℕ × FusionCandidate F). g.1.logical_id)
                    (sort_by-perm (group_before F) grouped))
                  (rw ids (rw by_resource-keys Perm.rfl)))),
          rw (← e) (
              groups-All sorted
                (sort_by-All (group_before F) (λ g. IsGroupOf F limit cs g.1) grouped all)),
        )
