-- ===== src/Core/Retrieval/Scoping.antt =====
-- `_effective_scope` of packages/mdrack-core/src/mdrack_core/application/retrieval.py
use mdrack.Base.{Option, none, some, List, [], ◌∷◌, contains, keep_if}
use mdrack.Base.Text.{Str, str_eq}
use mdrack.Core.Search.{SearchScope, BranchScopeOverride}

-- One categorical field: `none` where the two lists have no value in common.
unfoldable pub narrow : List Str → List Str → Option (List Str)
narrow global_values [] = some global_values
narrow [] (b ∷ bs) = some (b ∷ bs)
narrow (g ∷ gs) (b ∷ bs) = elim (keep_if (λ value. contains value (b ∷ bs)) (g ∷ gs)) [
  | [] ↦ none
  | v ∷ vs ↦ some (v ∷ vs)
]

infixl 5 ◌>>=?◌
abbrev pub ◌>>=?◌ : {A B : Type 0} → Option A → (A → Option B) → Option B
none >>=? f = none
some a >>=? f = f a

-- `_effective_scope`
unfoldable pub effective_scope : SearchScope → Option BranchScopeOverride → Option SearchScope
effective_scope s none = some s
effective_scope s (some o) = narrow s.resource_kinds o.resource_kinds >>=? λ resource_kinds.
    narrow s.media_types o.media_types >>=? λ media_types.
    narrow s.source_namespaces o.source_namespaces >>=? λ source_namespaces.
    narrow s.representation_kinds o.representation_kinds >>=? λ representation_kinds.
    narrow s.modalities o.modalities >>=? λ modalities.
    narrow s.unit_kinds o.unit_kinds >>=? λ unit_kinds. some (record {
      resource_kinds = resource_kinds;
      media_types = media_types;
      source_namespaces = source_namespaces;
      representation_kinds = representation_kinds;
      modalities = modalities;
      unit_kinds = unit_kinds;
      facets_any = s.facets_any;
      facets_all = s.facets_all;
      facets_none = s.facets_none;
    })
