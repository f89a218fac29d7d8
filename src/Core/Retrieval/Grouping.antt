-- ===== src/Core/Retrieval/Grouping.antt =====
-- `_group_resources` against the candidates of each resource.
use mathlib.Core.List.{append-nil, append_assoc}
use mdrack.Base.{
  ℕ, ◌+◌, ◌≤◌, ◌≡◌, sym, ap, ◌∙◌, subst, true, false, List, [], ◌∷◌, ◌++◌, map, take, length,
  length-take, length-map, contains, Distinct, All, All-map, All-take, All-Unit, arith, Bool-cases,
  inl, inr, ◌⊎◌, ◌==◌, if◌then◌else◌,
}
use mdrack.Base.Results.{ok}
use mdrack.Base.Dict.{Dict, keys, get_or, insert, get_or-insert, keys-insert}
use mdrack.Base.Order.{sort_by, sort_by-All, All-sort_by, Sorted, IsOrderOn, sort_by-Sorted}
use mdrack.Base.Text.{Str, str_eq, str_lt_asymm, str_lt_chain}
use mdrack.Base.Floats.{Floats}
use mdrack.Core.Search.{RankedCandidate}
use mdrack.Core.Fusion.{FusionCandidate}
use mdrack.Core.Fusion.Ids.{distinct_from, distinct_from-step}
use mdrack.Core.Retrieval.Units.{
  Seen, collect_resources, seen_before, group_ordered, group_resource,
}
use mdrack.Core.Retrieval.Candidates.{unit_ids, Unseen, Unseen-cons}

module _ (F : Floats) where
  abbrev pub resource_ids : List (RankedCandidate F) → List Str
  resource_ids = map (λ (c : RankedCandidate F). c.resource_id)

  -- The candidates of one resource, with their places from `n` on.
  abbrev pub entries_of : Str → ℕ → List (RankedCandidate F) → List (Seen F)
  entries_of id n [] = []
  entries_of id n (c ∷ cs) =
      if c.resource_id == id then (n, c) ∷ entries_of id (n + 1) cs else entries_of id (n + 1) cs

  collect_new :
      (c : RankedCandidate F) (cs : List (RankedCandidate F)) (n : ℕ) (seen : List Str)
      (d : Dict Str (List (Seen F)))
      → contains c.unit_id seen ≡ false
      → collect_resources F (c ∷ cs) n seen d
        ≡ collect_resources F cs
            (n + 1)
            (c.unit_id ∷ seen)
            (insert c.resource_id (get_or c.resource_id [] d ++ ((n, c) ∷ [])) d)
  unfolding collect_resources
  collect_new c cs n seen d h = rw (h, collect_resources)

  entries_step :
      (c : RankedCandidate F) (cs : List (RankedCandidate F)) (n : ℕ) (d : Dict Str (List (Seen F)))
      (id : Str)
      → ((c.resource_id == id) ≡ true) ⊎ ((c.resource_id == id) ≡ false)
      → get_or id [] (insert c.resource_id (get_or c.resource_id [] d ++ ((n, c) ∷ [])) d)
          ++ entries_of id (n + 1) cs
        ≡ get_or id [] d ++ entries_of id n (c ∷ cs)
  entries_step c cs n d id (inl p) =
      let same : c.resource_id ≡ id = (str_eq.beq_iff c.resource_id id).0 p in
      rw (get_or-insert c.resource_id id (get_or c.resource_id [] d ++ ((n, c) ∷ [])) [] d, p)
        (append_assoc (get_or c.resource_id [] d) ((n, c) ∷ []) (entries_of id (n + 1) cs)
          ∙ ap (λ i. get_or i [] d ++ ((n, c) ∷ entries_of id (n + 1) cs)) same)
  entries_step c cs n d id (inr p) =
      rw (get_or-insert c.resource_id id (get_or c.resource_id [] d ++ ((n, c) ∷ [])) [] d) (rw p)

  -- Where no unit stands twice, a resource's list is what its candidates are.
  pub collect_resources-entries :
      (cs : List (RankedCandidate F)) (n : ℕ) (seen : List Str) (d : Dict Str (List (Seen F)))
      (id : Str)
      → Unseen F seen cs
      → Distinct (unit_ids F cs)
      → get_or id [] (collect_resources F cs n seen d) ≡ get_or id [] d ++ entries_of id n cs
  unfolding collect_resources
  collect_resources-entries [] n seen d id u k = sym (append-nil (get_or id [] d))
  collect_resources-entries (c ∷ cs) n seen d id u k = rw (collect_new c cs n seen d u.0) (
      collect_resources-entries cs (n + 1) (c.unit_id ∷ seen) _ id
        (Unseen-cons F c.unit_id seen cs u.1 k.0) k.1
      ∙ entries_step c cs n d id (Bool-cases (c.resource_id == id)))

  pub collect_resources-keys :
      (cs : List (RankedCandidate F)) (n : ℕ) (seen : List Str) (d : Dict Str (List (Seen F)))
      → Unseen F seen cs
      → Distinct (unit_ids F cs)
      → keys (collect_resources F cs n seen d) ≡ keys d ++ distinct_from (keys d) (resource_ids cs)
  unfolding collect_resources
  collect_resources-keys [] n seen d u k = sym (append-nil (keys d))
  collect_resources-keys (c ∷ cs) n seen d u k = rw (collect_new c cs n seen d u.0) (
      rw (distinct_from-step c.resource_id (resource_ids cs) (keys d)) (
        rw (← keys-insert c.resource_id (get_or c.resource_id [] d ++ ((n, c) ∷ [])) d) (
          collect_resources-keys cs (n + 1) (c.unit_id ∷ seen) _
            (Unseen-cons F c.unit_id seen cs u.1 k.0) k.1)))

  seen_order : IsOrderOn (seen_before F) (λ s. Unit {0})
  unfolding seen_before
  seen_order = record {
    asymm = λ (n, c) (m, d) u v h. ground (arith, str_lt_asymm c.unit_id d.unit_id);
    chain = λ (n, c) (m, d) (l, e) u v w h k.
        ground (arith, str_lt_chain c.unit_id d.unit_id e.unit_id);
  }

  -- What a group says of the candidates `cs` of its branch.
  pub record IsGroupOf (limit : ℕ) (cs : List (RankedCandidate F)) (g : FusionCandidate F)
      : Type 0 where
    -- the representative and all evidence belong to the group's resource
    pub own : g.representative.resource_id ≡ g.logical_id
    pub evidence_own : All (λ (c : RankedCandidate F). c.resource_id ≡ g.logical_id) g.evidence
    pub bounded : length g.evidence ≤ limit
    -- no candidate of the resource ranks before the representative
    pub best :
        All
          (λ (c : RankedCandidate F).
            (c.resource_id == g.logical_id) ≡ true → g.representative.rank ≤ c.rank)
          cs

  entries-own :
      (id : Str) (n : ℕ) (cs : List (RankedCandidate F))
      → All (λ (s : Seen F). s.1.resource_id ≡ id) (entries_of id n cs)
  entries-own id n [] = tt
  entries-own id n (c ∷ cs) = elim (Bool-cases (c.resource_id == id)) [
    | inl p ↦ rw p ((str_eq.beq_iff c.resource_id id).0 p, entries-own id (n + 1) cs)
    | inr p ↦ rw p (entries-own id (n + 1) cs)
  ]

  entries-best :
      (id : Str) (n m : ℕ) (cs : List (RankedCandidate F))
      → All (λ (s : Seen F). m ≤ s.1.rank) (entries_of id n cs)
      → All (λ (c : RankedCandidate F). (c.resource_id == id) ≡ true → m ≤ c.rank) cs
  entries-best id n m [] h = tt
  entries-best id n m (c ∷ cs) h = elim (Bool-cases (c.resource_id == id)) [
    | inl p ↦ let h' = rw p at h in (λ q. h'.0, entries-best id (n + 1) m cs h'.1)
    | inr p ↦ let h' = rw p at h in (λ q. cc, entries-best id (n + 1) m cs h')
  ]

  seen_before-le : (s t : Seen F) → seen_before F t s ≡ false → s.1.rank ≤ t.1.rank
  unfolding seen_before
  seen_before-le (n, c) (m, d) h = ground arith

  group_ordered-parts :
      (limit : ℕ) (id : Str) (entries : List (Seen F)) (s : Seen F) (rest : List (Seen F))
      (g : ℕ × FusionCandidate F)
      → group_ordered F limit id entries (s ∷ rest) ≡ ok g
      → (g.1.logical_id ≡ id)
        × (g.1.representative ≡ s.1)
        × (g.1.evidence ≡ map (λ (e : Seen F). e.1) (take limit (s ∷ rest)))
  unfolding group_ordered
  group_ordered-parts limit id entries s rest g h = (ground arith, ground arith, ground arith)

  All-candidates :
      (id : Str) (entries : List (Seen F))
      → All (λ (s : Seen F). s.1.resource_id ≡ id) entries
      → All (λ (c : RankedCandidate F). c.resource_id ≡ id) (map (λ (s : Seen F). s.1) entries)
  All-candidates id [] h = tt
  All-candidates id (s ∷ entries) h = (h.0, All-candidates id entries h.1)

  -- A group is made of its sorted entries.
  group_ordered-IsGroupOf :
      (limit : ℕ) (cs : List (RankedCandidate F)) (id : Str) (entries ordered : List (Seen F))
      (g : ℕ × FusionCandidate F)
      → All (λ (s : Seen F). s.1.resource_id ≡ id) ordered
      → Sorted (seen_before F) ordered
      → ((m : ℕ)
          → All (λ (s : Seen F). m ≤ s.1.rank) ordered
          → All (λ (c : RankedCandidate F). (c.resource_id == id) ≡ true → m ≤ c.rank) cs)
      → group_ordered F limit id entries ordered ≡ ok g
      → (g.1.logical_id ≡ id) × IsGroupOf limit cs g.1
  unfolding group_ordered
  group_ordered-IsGroupOf limit cs id entries [] g own sorted best h = cc
  group_ordered-IsGroupOf limit cs id entries (s ∷ rest) g own sorted best h =
      let (same, rep, ev) = group_ordered-parts limit id entries s rest g h in
      let evidence = take limit (s ∷ rest) in
      (
        same,
        record {
          own = rw (rep, same) own.0;
          evidence_own =
              rw (ev, same)
                (All-candidates id evidence
                  (All-take (λ (e : Seen F). e.1.resource_id ≡ id) limit (s ∷ rest) own));
          bounded =
              rw (ev, length-map (λ (e : Seen F). e.1) evidence)
                (omega (arith, length-take limit (s ∷ rest)));
          best =
              rw (rep, same)
                (best s.1.rank (
                  omega arith,
                  All-map (λ t. seen_before F t s ≡ false) (λ t. s.1.rank ≤ t.1.rank) rest
                      (λ t. seen_before-le s t) sorted.0,
                ));
        },
      )

  pub group_resource-IsGroupOf :
      (limit : ℕ) (cs : List (RankedCandidate F)) (id : Str) (entries : List (Seen F))
      (g : ℕ × FusionCandidate F)
      → entries ≡ entries_of id 0 cs
      → group_resource F limit (id, entries) ≡ ok g
      → (g.1.logical_id ≡ id) × IsGroupOf limit cs g.1
  unfolding group_resource
  group_resource-IsGroupOf limit cs id entries g e h =
      group_ordered-IsGroupOf limit cs id entries (sort_by (seen_before F) entries) g
        (sort_by-All (seen_before F) (λ s. s.1.resource_id ≡ id) entries
          (subst (All (λ s. s.1.resource_id ≡ id)) (sym e) (entries-own id 0 cs)))
        (sort_by-Sorted (seen_before F) seen_order entries (All-Unit entries))
        (λ m all. entries-best id 0 m cs (
          subst (All (λ s. m ≤ s.1.rank)) e
            (All-sort_by (seen_before F) (λ s. m ≤ s.1.rank) entries all)))
        h
