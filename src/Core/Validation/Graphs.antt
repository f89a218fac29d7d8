-- ===== src/Core/Validation/Graphs.antt =====
-- The resource graphs that the validator accepts.
use mdrack.Base.{
  ◌≡◌, refl, sym, ap, ◌∙◌, true, false, not, Option, none, some, List, [], ◌∷◌, map, length,
  contains, Distinct, All, eqb, eqb_iff, if◌then◌else◌, Eq, ◌==◌, arith, ◌⊎◌, inl, inr, Bool-cases,
  All-map,
}
use mdrack.Base.Results.{Result, ok, >>-eq-ok, >>=-eq-ok, require, require-eq-ok}
use mdrack.Base.Dict.{Dict, lookup, insert, lookup-insert}
use mdrack.Base.Text.{Str, str_eq}
use mdrack.Base.Floats.{Floats}
use mdrack.Core.Errors.{PyError, value_error}
use mdrack.Core.Json.{Json}
use mdrack.Core.Common.{check_all}
use mdrack.Core.Records.{
  RepresentationRecord, SearchUnitRecord, EmbeddingSpaceRecord, VectorRecord, PreparedResourceBatch,
}
use mdrack.Core.Validation.{
  require_unique, index_by, check_unit, check_vector, require_some, validate_unique, validate_graph,
  validate_persisted_strings, validate_prepared_batch, is_empty,
}

module _ {A : Type 0} where
  abbrev pub Member : A → List A → Type 0
  Member a [] = ⊥
  Member a (x ∷ xs) = (a ≡ x) ⊎ Member a xs

  check_all-All :
      (f : A → Result PyError (Unit {0})) (xs : List A)
      → check_all f xs ≡ ok tt
      → All (λ x. f x ≡ ok tt) xs
  unfolding check_all
  check_all-All f [] h = tt
  check_all-All f (x ∷ xs) h =
      let (p, q) = >>-eq-ok (f x) (check_all f xs) h in (p, check_all-All f xs q)

  -- What a dict that is built from a list holds.
  lookup-index_by :
      (key : A → Str) (xs : List A) (d : Dict Str A) (k : Str) (a : A)
      → lookup k (index_by key xs d) ≡ some a
      → (Member a xs × (key a ≡ k)) ⊎ (lookup k d ≡ some a)
  unfolding index_by
  lookup-index_by key [] d k a h = inr h
  lookup-index_by key (x ∷ xs) d k a h = elim (lookup-index_by key xs (insert (key x) x d) k a h) [
    | inl p ↦ inl (inr p.0, p.1)
    | inr p ↦ elim (Bool-cases (key x == k)) [
      | inl e ↦
          let same : ◌≡◌ {A = Option A} (some x) (some a) =
            sym (ap (λ b. if b then some x else lookup k d) e)
            ∙ sym (lookup-insert (key x) k x d)
            ∙ p in
          let owner : a ≡ x = cc in inl (inl owner, ap key owner ∙ (str_eq.beq_iff (key x) k).0 e)
      | inr e ↦ inr (
          sym (ap (λ b. if b then some x else lookup k d) e)
          ∙ sym (lookup-insert (key x) k x d)
          ∙ p)
    ]
  ]

  module _ ⦃e : Eq A⦄ where
    All-apart :
        (x : A) (seen ys : List A)
        → All (λ y. contains y (x ∷ seen) ≡ false) ys
        → All (λ y. contains y seen ≡ false) ys × (contains x ys ≡ false)
    All-apart x seen [] h = (tt, refl)
    All-apart x seen (y ∷ ys) h =
        let (rest, apart) = All-apart x seen ys h.1 in
        ((ground arith, rest), ground (arith, e.beq_iff x y, e.beq_iff y x))

    require_unique-Distinct :
        (xs seen : List A)
        → require_unique xs seen ≡ ok tt
        → Distinct xs × All (λ x. contains x seen ≡ false) xs
    unfolding require_unique
    require_unique-Distinct [] seen h = (tt, tt)
    require_unique-Distinct (x ∷ xs) seen h =
        let (p, q) =
          >>-eq-ok (require (not (contains x seen)) value_error) (require_unique xs (x ∷ seen)) h in
        let new = require-eq-ok (not (contains x seen)) value_error p in
        let (distinct, apart) = require_unique-Distinct xs (x ∷ seen) q in
        let (rest, once) = All-apart x seen xs apart in ((once, distinct), (ground arith, rest))

module _ (F : Floats) (canonical_json : Json F → Str) where
  -- A unit belongs to the resource and to a representation of its modality.
  abbrev pub IsOwned : PreparedResourceBatch F → SearchUnitRecord F → Type 0
  IsOwned b u =
      (u.resource_id ≡ b.resource.resource_id)
      × (r : RepresentationRecord F) × Member r b.representations
      × (r.representation_id ≡ u.representation_id)
      × (u.modality ≡ r.modality)

  -- A vector belongs to a unit and to a space of its length.
  abbrev pub IsPlaced : PreparedResourceBatch F → VectorRecord F → Type 0
  IsPlaced b v =
      (contains v.unit_id (map (λ (u : SearchUnitRecord F). u.unit_id) b.units) ≡ true)
      × (s : EmbeddingSpaceRecord F) × Member s b.spaces
      × (s.space_id ≡ v.space_id)
      × (length v.vector ≡ s.dimensions)

  -- A resource graph whose parts belong together.
  pub record IsGraph (b : PreparedResourceBatch F) : Type 0 where
    pub representations :
        Distinct (map (λ (r : RepresentationRecord F). r.representation_id) b.representations)
    pub units : Distinct (map (λ (u : SearchUnitRecord F). u.unit_id) b.units)
    pub spaces : Distinct (map (λ (s : EmbeddingSpaceRecord F). s.space_id) b.spaces)
    pub owned : All (IsOwned b) b.units
    pub placed : All (IsPlaced b) b.vectors

  require_some-ok :
      {A : Type 0} (o : Option A) (a : A) → require_some F canonical_json o ≡ ok a → o ≡ some a
  require_some-ok none a h = cc
  require_some-ok (some b) a h = cc

  check_unit-IsOwned :
      (b : PreparedResourceBatch F) (u : SearchUnitRecord F)
      → check_unit F canonical_json b.resource.resource_id
          (index_by (λ (r : RepresentationRecord F). r.representation_id) b.representations [])
          u
        ≡ ok tt
      → IsOwned b u
  unfolding check_unit lookup
  check_unit-IsOwned b u h =
      let key = λ (r : RepresentationRecord F). r.representation_id in
      let found = lookup u.representation_id (index_by key b.representations []) in
      let (p, q) = >>-eq-ok (require (u.resource_id == b.resource.resource_id) value_error) _ h in
      let (r, s, t) = >>=-eq-ok (require_some F canonical_json found) _ q in
      let m : Member r b.representations × (r.representation_id ≡ u.representation_id) =
        elim (lookup-index_by key b.representations [] u.representation_id r
          (require_some-ok found r s)) [ inl m ↦ m | inr m ↦ cc ] in
      (
        (str_eq.beq_iff u.resource_id b.resource.resource_id).0 (require-eq-ok _ value_error p),
        r,
        m.0,
        m.1,
        (str_eq.beq_iff u.modality r.modality).0 (require-eq-ok _ value_error t),
      )

  check_vector-IsPlaced :
      (b : PreparedResourceBatch F) (v : VectorRecord F)
      → check_vector F canonical_json
          (map (λ (u : SearchUnitRecord F). u.unit_id) b.units)
          (index_by (λ (s : EmbeddingSpaceRecord F). s.space_id) b.spaces [])
          v
        ≡ ok tt
      → IsPlaced b v
  unfolding check_vector lookup
  check_vector-IsPlaced b v h =
      let key = λ (s : EmbeddingSpaceRecord F). s.space_id in
      let units = map (λ (u : SearchUnitRecord F). u.unit_id) b.units in
      let found = lookup v.space_id (index_by key b.spaces []) in
      let (p, q) = >>-eq-ok (require (contains v.unit_id units) value_error) _ h in
      let (r, s, t) = >>=-eq-ok (require_some F canonical_json found) _ q in
      let (w, x) = >>-eq-ok (require (eqb (length v.vector) r.dimensions) value_error) _ t in
      let m : Member r b.spaces × (r.space_id ≡ v.space_id) =
        elim (lookup-index_by key b.spaces [] v.space_id r (require_some-ok found r s)) [
          | inl m ↦ m
          | inr m ↦ cc
        ] in
      (
        require-eq-ok _ value_error p,
        r,
        m.0,
        m.1,
        (eqb_iff (length v.vector) r.dimensions).0 (require-eq-ok _ value_error w),
      )

  -- In a batch that the validator accepts, representations, units and spaces have distinct ids,
  -- each unit belongs to the resource and to a representation of its modality, and each vector to
  -- a unit of the batch and to a space of its length.
  pub validate_prepared_batch-IsGraph :
      (b : PreparedResourceBatch F) → validate_prepared_batch F canonical_json b ≡ ok tt → IsGraph b
  unfolding validate_prepared_batch validate_unique validate_graph
  validate_prepared_batch-IsGraph b h =
      let (_, h1) =
        >>-eq-ok (require (not (is_empty F canonical_json b.representations)) value_error) _ h in
      let (_, h2) = >>-eq-ok (require (not (is_empty F canonical_json b.units)) value_error) _ h1 in
      let (_, h3) = >>-eq-ok (validate_persisted_strings F canonical_json b) _ h2 in
      let (unique, graph) =
        >>-eq-ok (validate_unique F canonical_json b) (validate_graph F canonical_json b) h3 in
      let (u1, v1) =
        >>-eq-ok
          (require_unique
            (map (λ (r : RepresentationRecord F). r.representation_id) b.representations) [])
          _ unique in
      let (u2, v2) =
        >>-eq-ok (require_unique (map (λ (u : SearchUnitRecord F). u.unit_id) b.units) []) _ v1 in
      let (u3, v3) =
        >>-eq-ok (require_unique (map (λ (s : EmbeddingSpaceRecord F). s.space_id) b.spaces) []) _
          v2 in
      let (_, g1) =
        >>-eq-ok
          (check_all
            (λ (r : RepresentationRecord F).
              require (r.resource_id == b.resource.resource_id) value_error)
            b.representations)
          _ graph in
      let checked_unit =
        check_unit F canonical_json b.resource.resource_id
          (index_by (λ (r : RepresentationRecord F). r.representation_id) b.representations []) in
      let checked_vector =
        check_vector F canonical_json (map (λ (u : SearchUnitRecord F). u.unit_id) b.units)
          (index_by (λ (s : EmbeddingSpaceRecord F). s.space_id) b.spaces []) in
      let (us, g2) = >>-eq-ok (check_all checked_unit b.units) _ g1 in
      let (vs, _) = >>-eq-ok (check_all checked_vector b.vectors) _ g2 in
      record {
        representations = (require_unique-Distinct _ [] u1).0;
        units = (require_unique-Distinct _ [] u2).0;
        spaces = (require_unique-Distinct _ [] u3).0;
        owned =
            All-map (λ u. checked_unit u ≡ ok tt) (IsOwned b) b.units (check_unit-IsOwned b)
              (check_all-All checked_unit b.units us);
        placed =
            All-map (λ v. checked_vector v ≡ ok tt) (IsPlaced b) b.vectors (check_vector-IsPlaced b)
              (check_all-All checked_vector b.vectors vs);
      }
