-- ===== src/Core/Retrieval/Scope.antt =====
-- `_effective_scope` admits exactly what both the request's scope and the branch's own admit.
use mdrack.Base.{
  ◌≡◌, refl, ◌∙◌, Bool, true, false, ◌&&◌, Option, none, some, List, [], ◌∷◌, arith, contains,
  keep_if, Bool-cases, inl, inr, ◌==◌, ◌≢◌,
}
use mdrack.Base.Text.{Str, str_eq}
use mdrack.Core.Search.{SearchScope, BranchScopeOverride}
use mdrack.Core.Retrieval.Scoping.{narrow, effective_scope, ◌>>=?◌}

-- The categorical fields of a unit and its resource, which a scope filters by.
pub record Subject : Type 0 where
  pub resource_kind : Str
  pub media_type : Str
  pub source_namespace : Str
  pub representation_kind : Str
  pub modality : Str
  pub unit_kind : Str

-- An empty filter admits every value.
abbrev pub admits : List Str → Str → Bool
admits [] v = true
admits (x ∷ xs) v = contains v (x ∷ xs)

abbrev pub scope_admits : SearchScope → Subject → Bool
scope_admits s u =
    ((((admits s.resource_kinds u.resource_kind && admits s.media_types u.media_type)
          && admits s.source_namespaces u.source_namespace)
        && admits s.representation_kinds u.representation_kind)
      && admits s.modalities u.modality)
    && admits s.unit_kinds u.unit_kind

abbrev pub override_admits : BranchScopeOverride → Subject → Bool
override_admits s u =
    ((((admits s.resource_kinds u.resource_kind && admits s.media_types u.media_type)
          && admits s.source_namespaces u.source_namespace)
        && admits s.representation_kinds u.representation_kind)
      && admits s.modalities u.modality)
    && admits s.unit_kinds u.unit_kind

contains-keep_if :
    (bs gs : List Str) (v : Str)
    → contains v (keep_if (λ value. contains value bs) gs) ≡ (contains v gs && contains v bs)
contains-keep_if bs [] v = refl
contains-keep_if bs (g ∷ gs) v = elim (Bool-cases (g == v)) [
  | inl p ↦
      rw ((str_eq.beq_iff g v).0 p) (ground (arith, contains-keep_if bs gs v, str_eq.beq_iff v v))
  | inr p ↦ ground (arith, contains-keep_if bs gs v)
]

-- What a narrowed field admits; a missing one admits nothing.
abbrev pub field_admits : Option (List Str) → Str → Bool
field_admits none v = false
field_admits (some xs) v = admits xs v

contains-admits : (xs : List Str) (v : Str) → xs ≢ [] → admits xs v ≡ contains v xs
contains-admits [] v h = absurd (h refl)
contains-admits (x ∷ xs) v h = refl

pub field_admits-narrow :
    (gs bs : List Str) (v : Str) → field_admits (narrow gs bs) v ≡ (admits gs v && admits bs v)
unfolding narrow
field_admits-narrow gs [] v = ground arith
field_admits-narrow [] (b ∷ bs) v = refl
field_admits-narrow (g ∷ gs) (b ∷ bs) v =
    split (keep_if (λ value. contains value (b ∷ bs)) (g ∷ gs))
      (contains-keep_if (b ∷ bs) (g ∷ gs) v)
  where
    split :
        (kept : List Str)
        → contains v kept ≡ (contains v (g ∷ gs) && contains v (b ∷ bs))
        → field_admits (elim kept [ [] ↦ none | w ∷ ws ↦ some (w ∷ ws) ]) v
          ≡ (contains v (g ∷ gs) && contains v (b ∷ bs))
    split [] h = h
    split (w ∷ ws) h = h

-- What an effective scope admits; a missing one admits nothing.
abbrev pub effective_admits : Option SearchScope → Subject → Bool
effective_admits none u = false
effective_admits (some s) u = scope_admits s u

-- The facet clauses stay those of the request.
abbrev pub KeepsFacets : SearchScope → Option SearchScope → Type 0
KeepsFacets s none = Unit
KeepsFacets s (some e) =
    (e.facets_any ≡ s.facets_any) × (e.facets_all ≡ s.facets_all) × (e.facets_none ≡ s.facets_none)

pair_up : (x y g b h c : Bool) → x ≡ (g && b) → y ≡ (h && c) → (x && y) ≡ ((g && h) && (b && c))
pair_up x y g b h c e f = ground arith

regroup :
    {k m n r d t : Bool} (a b c e f g a' b' c' e' f' g' : Bool)
    → k ≡ (a && a')
    → m ≡ (b && b')
    → n ≡ (c && c')
    → r ≡ (e && e')
    → d ≡ (f && f')
    → t ≡ (g && g')
    → (((((k && m) && n) && r) && d) && t)
      ≡ ((((((a && b) && c) && e) && f) && g) && (((((a' && b') && c') && e') && f') && g'))
regroup {k} {m} {n} {r} {d} {t} a b c e f g a' b' c' e' f' g' p q s u v w =
    let two = pair_up k m a a' b b' p q in
    let three = pair_up (k && m) n (a && b) (a' && b') c c' two s in
    let four = pair_up ((k && m) && n) r ((a && b) && c) ((a' && b') && c') e e' three u in
    let five =
      pair_up (((k && m) && n) && r) d (((a && b) && c) && e) (((a' && b') && c') && e') f f' four
        v in
    pair_up ((((k && m) && n) && r) && d) t ((((a && b) && c) && e) && f)
      ((((a' && b') && c') && e') && f') g g' five w

and_false : (b : Bool) → (b && false) ≡ false
and_false true = refl
and_false false = refl

-- The effective scope from its six narrowed fields.
assemble : SearchScope → (k m n r d t : Option (List Str)) → Option SearchScope
assemble s k m n r d t = k >>=? λ resource_kinds. m >>=? λ media_types. n >>=? λ source_namespaces.
    r >>=? λ representation_kinds. d >>=? λ modalities. t >>=? λ unit_kinds. some (record s {
      resource_kinds = resource_kinds;
      media_types = media_types;
      source_namespaces = source_namespaces;
      representation_kinds = representation_kinds;
      modalities = modalities;
      unit_kinds = unit_kinds;
    })

assemble-admits :
    (s : SearchScope) (u : Subject) (k m n r d t : Option (List Str))
    → effective_admits (assemble s k m n r d t) u ≡ (
        ((((field_admits k u.resource_kind && field_admits m u.media_type)
              && field_admits n u.source_namespace)
            && field_admits r u.representation_kind)
          && field_admits d u.modality)
        && field_admits t u.unit_kind)
unfolding assemble
assemble-admits s u none m n r d t = refl
assemble-admits s u (some k) none n r d t = simp and_false
assemble-admits s u (some k) (some m) none r d t = simp and_false
assemble-admits s u (some k) (some m) (some n) none d t = simp and_false
assemble-admits s u (some k) (some m) (some n) (some r) none t = simp and_false
assemble-admits s u (some k) (some m) (some n) (some r) (some d) none = simp and_false
assemble-admits s u (some k) (some m) (some n) (some r) (some d) (some t) = refl

assemble-KeepsFacets :
    (s : SearchScope) (k m n r d t : Option (List Str)) → KeepsFacets s (assemble s k m n r d t)
unfolding assemble
assemble-KeepsFacets s none m n r d t = tt
assemble-KeepsFacets s (some k) none n r d t = tt
assemble-KeepsFacets s (some k) (some m) none r d t = tt
assemble-KeepsFacets s (some k) (some m) (some n) none d t = tt
assemble-KeepsFacets s (some k) (some m) (some n) (some r) none t = tt
assemble-KeepsFacets s (some k) (some m) (some n) (some r) (some d) none = tt
assemble-KeepsFacets s (some k) (some m) (some n) (some r) (some d) (some t) = (refl, refl, refl)

-- The effective scope of a branch admits a subject exactly when the request's scope and the
-- branch's override both do, a missing one admits none, and the facet clauses stay the request's.
pub effective_scope-admits :
    (s : SearchScope) (o : BranchScopeOverride) (u : Subject)
    → (effective_admits (effective_scope s (some o)) u ≡ (scope_admits s u && override_admits o u))
      × KeepsFacets s (effective_scope s (some o))
unfolding effective_scope assemble
effective_scope-admits s o u = (
  assemble-admits s u (narrow s.resource_kinds o.resource_kinds)
        (narrow s.media_types o.media_types) (narrow s.source_namespaces o.source_namespaces)
        (narrow s.representation_kinds o.representation_kinds) (narrow s.modalities o.modalities)
        (narrow s.unit_kinds o.unit_kinds)
      ∙ regroup (admits s.resource_kinds u.resource_kind) (admits s.media_types u.media_type)
          (admits s.source_namespaces u.source_namespace)
          (admits s.representation_kinds u.representation_kind) (admits s.modalities u.modality)
          (admits s.unit_kinds u.unit_kind) (admits o.resource_kinds u.resource_kind)
          (admits o.media_types u.media_type) (admits o.source_namespaces u.source_namespace)
          (admits o.representation_kinds u.representation_kind) (admits o.modalities u.modality)
          (admits o.unit_kinds u.unit_kind)
          (field_admits-narrow s.resource_kinds o.resource_kinds u.resource_kind)
          (field_admits-narrow s.media_types o.media_types u.media_type)
          (field_admits-narrow s.source_namespaces o.source_namespaces u.source_namespace)
          (field_admits-narrow s.representation_kinds o.representation_kinds u.representation_kind)
          (field_admits-narrow s.modalities o.modalities u.modality)
          (field_admits-narrow s.unit_kinds o.unit_kinds u.unit_kind),
  assemble-KeepsFacets s (narrow s.resource_kinds o.resource_kinds)
      (narrow s.media_types o.media_types) (narrow s.source_namespaces o.source_namespaces)
      (narrow s.representation_kinds o.representation_kinds) (narrow s.modalities o.modalities)
      (narrow s.unit_kinds o.unit_kinds),
)
