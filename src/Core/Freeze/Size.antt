-- ===== src/Core/Freeze/Size.antt =====
-- The size of what `freeze_json_mapping` accepts.
use mdrack.Base.{
  ℕ, zero, suc, ◌+◌, ◌≤◌, ◌≡◌, refl, sym, subst, List, [], ◌∷◌, map, length, leb, arith,
}
use mdrack.Base.Results.{Result, ok, err, >>-eq-ok, >>=-eq-ok, require, require-eq-ok}
use mdrack.Base.Order.{sort_by, length-sort_by}
use mdrack.Base.Text.{Str}
use mdrack.Base.Floats.{Floats}
use mdrack.Core.Errors.{PyError, value_error}
use mdrack.Core.Json.{Json, Items, Fields}
use mdrack.Core.Common.{require_utf8_encodable, require_finite_number, check_all}
use mdrack.Core.Freeze.{
  max_json_items, max_json_depth, items_list, items_of, fields_list, fields_of, count_items,
  freeze_items, freeze_fields, field_before, freeze_json_value, freeze_json_mapping,
}

module _ (F : Floats) where
  -- The members of all sequences and mappings in a value
  unfoldable mutual
    pub size : Json F → ℕ
    size (Json.tuple vs) = size_items vs
    size (Json.mapping fs) = size_fields fs
    size _ = 0

    pub size_items : Items F → ℕ
    size_items Items.nil = 0
    size_items (Items.cons v vs) = suc (size v + size_items vs)

    pub size_fields : Fields F → ℕ
    size_fields Fields.end = 0
    size_fields (Fields.field k v fs) = suc (size v + size_fields fs)

  -- The counter moves by the size of the value, and stays within the limit.
  abbrev IsCounted : ℕ → Json F × ℕ → Type 0
  IsCounted n r = (r.1 ≡ n + size r.0) × (n ≤ max_json_items → r.1 ≤ max_json_items)

  abbrev Counts : (Json F → ℕ → Result PyError (Json F × ℕ)) → Type 0
  Counts freeze = (v : Json F) (n : ℕ) (r : Json F × ℕ) → freeze v n ≡ ok r → IsCounted n r

  -- The same for `k` members, which were counted before they are frozen.
  abbrev AreCounted : ℕ → ℕ → List (Json F) × ℕ → Type 0
  AreCounted n k r =
      (r.1 + k ≡ n + size_items (items_of F r.0)) × (n ≤ max_json_items → r.1 ≤ max_json_items)

  abbrev AreFieldsCounted : ℕ → ℕ → List (Str × Json F) × ℕ → Type 0
  AreFieldsCounted n k r =
      (r.1 + k ≡ n + size_fields (fields_of F r.0)) × (n ≤ max_json_items → r.1 ≤ max_json_items)

  count_items-ok : (n k m : ℕ) → count_items F n k ≡ ok m → (m ≡ n + k) × (m ≤ max_json_items)
  unfolding count_items
  count_items-ok n k m h =
      let (p, q) = >>-eq-ok (require (leb (n + k) max_json_items) value_error) (ok (n + k)) h in
      let bound = require-eq-ok (leb (n + k) max_json_items) value_error p in
      let e : n + k ≡ m = cc in (sym e, ground arith)

  freeze_items-AreCounted :
      (freeze : Json F → ℕ → Result PyError (Json F × ℕ)) (vs : List (Json F)) (n : ℕ)
      (r : List (Json F) × ℕ)
      → Counts freeze
      → freeze_items F freeze vs n ≡ ok r
      → AreCounted n (length vs) r
  unfolding freeze_items size items_of
  freeze_items-AreCounted freeze [] n r c h =
      let e : ◌≡◌ {A = List (Json F) × ℕ} ([], n) r = cc in subst (AreCounted n 0) e (refl, λ b. b)
  freeze_items-AreCounted freeze (v ∷ vs) n r c h =
      let (first, p, q) = >>=-eq-ok (freeze v n) _ h in
      let (rest, u, w) = >>=-eq-ok (freeze_items F freeze vs first.1) _ q in
      let (a, b) = c v n first p in
      let (x, y) = freeze_items-AreCounted freeze vs first.1 rest c u in
      let e : ◌≡◌ {A = List (Json F) × ℕ} (first.0 ∷ rest.0, rest.1) r = cc in
      subst (AreCounted n (suc (length vs))) e (omega arith, λ l. y (b l))

  freeze_fields-AreFieldsCounted :
      (freeze : Json F → ℕ → Result PyError (Json F × ℕ)) (fs : List (Str × Json F)) (n : ℕ)
      (r : List (Str × Json F) × ℕ)
      → Counts freeze
      → freeze_fields F freeze fs n ≡ ok r
      → AreFieldsCounted n (length fs) r
  unfolding freeze_fields size fields_of
  freeze_fields-AreFieldsCounted freeze [] n r c h =
      let e : ◌≡◌ {A = List (Str × Json F) × ℕ} ([], n) r = cc in
      subst (AreFieldsCounted n 0) e (refl, λ b. b)
  freeze_fields-AreFieldsCounted freeze (f ∷ fs) n r c h =
      let (first, p, q) = >>=-eq-ok (freeze f.1 n) _ h in
      let (rest, u, w) = >>=-eq-ok (freeze_fields F freeze fs first.1) _ q in
      let (a, b) = c f.1 n first p in
      let (x, y) = freeze_fields-AreFieldsCounted freeze fs first.1 rest c u in
      let e : ◌≡◌ {A = List (Str × Json F) × ℕ} ((f.0, first.0) ∷ rest.0, rest.1) r = cc in
      subst (AreFieldsCounted n (suc (length fs))) e (omega arith, λ l. y (b l))

  -- A value that counts no members.
  leaf-IsCounted :
      (w : Json F) (n : ℕ) (r : Json F × ℕ)
      → size w ≡ 0
      → ◌≡◌ {A = Result PyError (Json F × ℕ)} (ok (w, n)) (ok r)
      → IsCounted n r
  leaf-IsCounted w n r z h =
      let e : ◌≡◌ {A = Json F × ℕ} (w, n) r = cc in subst (IsCounted n) e (omega arith, λ b. b)

  freeze_json_value-Counts : (levels : ℕ) → Counts (freeze_json_value F levels)
  unfolding freeze_json_value size
  freeze_json_value-Counts zero v n r h = cc
  freeze_json_value-Counts (suc levels) Json.null n r h = leaf-IsCounted Json.null n r refl h
  freeze_json_value-Counts (suc levels) (Json.bool b) n r h =
      leaf-IsCounted (Json.bool b) n r refl h
  freeze_json_value-Counts (suc levels) (Json.int i) n r h = leaf-IsCounted (Json.int i) n r refl h
  freeze_json_value-Counts (suc levels) (Json.float x) n r h =
      leaf-IsCounted (Json.float x) n r refl (>>-eq-ok (require_finite_number F x) _ h).1
  freeze_json_value-Counts (suc levels) (Json.str s) n r h =
      leaf-IsCounted (Json.str s) n r refl (>>-eq-ok (require_utf8_encodable s) _ h).1
  freeze_json_value-Counts (suc levels) (Json.tuple vs) n r h =
      let l = items_list F vs in
      let (count, p, q) = >>=-eq-ok (count_items F n (length l)) _ h in
      let (frozen, u, w) = >>=-eq-ok (freeze_items F (freeze_json_value F levels) l count) _ q in
      let (a, b) = count_items-ok n (length l) count p in
      let (x, y) =
        freeze_items-AreCounted (freeze_json_value F levels) l count frozen
          (freeze_json_value-Counts levels) u in
      let e : ◌≡◌ {A = Json F × ℕ} (Json.tuple (items_of F frozen.0), frozen.1) r = cc in
      subst (IsCounted n) e (omega arith, λ _. y b)
  freeze_json_value-Counts (suc levels) (Json.mapping fs) n r h =
      let l = fields_list F fs in
      let sorted = sort_by (field_before F) l in
      let (count, p, q) = >>=-eq-ok (count_items F n (length l)) _ h in
      let (_, t) =
        >>-eq-ok (check_all require_utf8_encodable (map (λ (f : Str × Json F). f.0) l)) _ q in
      let (frozen, u, w) =
        >>=-eq-ok (freeze_fields F (freeze_json_value F levels) sorted count) _ t in
      let (a, b) = count_items-ok n (length l) count p in
      let (x, y) =
        freeze_fields-AreFieldsCounted (freeze_json_value F levels) sorted count frozen
          (freeze_json_value-Counts levels) u in
      let e : ◌≡◌ {A = Json F × ℕ} (Json.mapping (fields_of F frozen.0), frozen.1) r = cc in
      subst (IsCounted n) e (omega (arith, length-sort_by (field_before F) l), λ _. y b)

  -- In a JSON mapping that freeze_json_mapping returns, all sequences and mappings together have
  -- at most MAX_JSON_ITEMS members.
  pub freeze_json_mapping-size :
      (canonical_json : Json F → Str) (fs gs : Fields F)
      → freeze_json_mapping F canonical_json fs ≡ ok gs
      → size_fields gs ≤ max_json_items
  unfolding freeze_json_mapping size
  freeze_json_mapping-size canonical_json fs gs h =
      let (frozen, p, q) =
        >>=-eq-ok (freeze_json_value F (max_json_depth + 1) (Json.mapping fs) 0) _ h in
      let (_, s) = >>-eq-ok (require _ value_error) _ q in
      let (a, b) = freeze_json_value-Counts (max_json_depth + 1) (Json.mapping fs) 0 frozen p in
      unwrap frozen.0 s (omega arith)
    where
      unwrap :
          (v : Json F)
          → ◌≡◌ {A = Result PyError (Fields F)}
              (elim v [ Json.mapping gs ↦ ok gs | other ↦ err value_error ])
              (ok gs)
          → size v ≤ max_json_items
          → size_fields gs ≤ max_json_items
      unwrap (Json.mapping hs) e l =
          let same : hs ≡ gs = cc in subst (λ g. size_fields g ≤ max_json_items) same l
      unwrap Json.null e l = cc
      unwrap (Json.bool c) e l = cc
      unwrap (Json.int i) e l = cc
      unwrap (Json.float x) e l = cc
      unwrap (Json.str t) e l = cc
      unwrap (Json.tuple vs) e l = cc
