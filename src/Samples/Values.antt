-- ===== src/Samples/Values.antt =====
-- Sample values: whole numbers as floats, candidates, branches, requests and ports.
use mdrack.Base.{ℕ, ◌+◌, ◌/◌, refl, Bool, true, false, none, List, [], ◌∷◌, map, ltb, eqb, arith}
use mdrack.Base.Text.{Str, codes}
use mdrack.Base.Floats.{Floats, IsIeee}
use mdrack.Base.Results.{ok, err}
use mdrack.Core.Errors.{timeout_error}
use mdrack.Core.Json.{Fields}
use mdrack.Core.Records.{Locator}
use mdrack.Core.Search.{
  RankedCandidate, SearchScope, BranchScopeOverride, LexicalBranch, VectorBranch, SearchRequest,
}
use mdrack.Core.Fusion.{FusionCandidate, FusionBranch}
use mdrack.Core.Retrieval.Scope.{Subject}
use mdrack.Core.Retrieval.Branches.{SearchPort, candidate, listed}

abbrev pub whole : Floats
whole = record {
  Float = ℕ;
  zero_float = 0;
  one_float = 1;
  add = λ x y. x + y;
  fits_float = λ n. ltb n 1000000;
  div_int = λ x n. x / n;
  div_negative = λ x n. 0;
  lt = ltb;
  feq = eqb;
  is_finite = λ x. true;
  is_nan = λ x. false;
  hypot = λ v. 1;
}

pub whole-IsIeee : IsIeee whole
whole-IsIeee = record {
  finite_not_nan = λ x h. refl;
  zero_nonneg = (refl, refl);
  add_nonneg = λ x y h k. (refl, ground arith);
  div_nonneg = λ x n p h. (refl, ground arith);
  lt_asymm = λ x y h. ground arith;
  lt_chain = λ x y z h k l p q. ground arith;
  feq_iff = λ x y h k. ground arith;
}

abbrev pub place : Locator whole
place = record { kind = codes "chunk"; payload = Fields.end }

-- A candidate of a branch by unit, resource and rank.
abbrev pub ranked : Str → Str → Str → ℕ → RankedCandidate whole
ranked branch unit resource rank = record {
  unit_id = unit;
  resource_id = resource;
  representation_id = codes "text";
  rank = rank;
  raw_score = 1;
  branch_id = branch;
  evidence_locator = place;
  metadata = Fields.end;
}

abbrev pub lex : Str
lex = codes "lex"

abbrev pub vec : Str
vec = codes "vec"

abbrev pub lex_hits : List (RankedCandidate whole)
lex_hits =
    ranked lex (codes "u1") (codes "a") 1
    ∷ ranked lex (codes "u2") (codes "b") 2
    ∷ ranked lex (codes "u3") (codes "a") 3
    ∷ []

abbrev pub vec_hits : List (RankedCandidate whole)
vec_hits = ranked vec (codes "u2") (codes "b") 1 ∷ ranked vec (codes "u4") (codes "b") 2 ∷ []

abbrev pub unit_candidate : RankedCandidate whole → FusionCandidate whole
unit_candidate c = record { logical_id = c.unit_id; representative = c; evidence = c ∷ [] }

-- The vector branch names its first unit again, and weighs more.
abbrev pub branches : List (FusionBranch whole)
branches =
    (record { branch_id = lex; weight = 6100; candidates = map unit_candidate lex_hits })
    ∷ (record {
      branch_id = vec;
      weight = 9300;
      candidates =
          unit_candidate (ranked vec (codes "u2") (codes "b") 1) ∷ map unit_candidate vec_hits;
    })
    ∷ []

abbrev pub any_scope : SearchScope
any_scope = record {
  resource_kinds = [];
  media_types = [];
  source_namespaces = [];
  representation_kinds = [];
  modalities = [];
  unit_kinds = [];
  facets_any = [];
  facets_all = [];
  facets_none = [];
}

abbrev pub lexical : LexicalBranch whole
lexical = record {
  branch_id = lex;
  query = codes "cubical";
  weight = 6100;
  candidate_limit = 10;
  scope_override = none;
}

abbrev pub vectorial : VectorBranch whole
vectorial = record {
  branch_id = vec;
  space_id = codes "s";
  vector = 1 ∷ 2 ∷ [];
  weight = 9300;
  candidate_limit = 10;
  expected_fingerprint = none;
  scope_override = none;
}

abbrev pub request : Str → Bool → SearchRequest whole
request target allow_partial = record {
  lexical_branches = lexical ∷ [];
  vector_branches = vectorial ∷ [];
  scope = any_scope;
  target = target;
  limit = 2;
  rrf_k = 60;
  evidence_limit_per_resource = 2;
  allow_partial = allow_partial;
  request_id = none;
}

-- A port whose two branches answer.
abbrev pub answering : SearchPort whole
answering = record {
  search_lexical = λ b s. ok (listed (map candidate lex_hits));
  search_vector = λ b s. ok (listed (map candidate vec_hits));
}

-- A port whose vector branch times out.
abbrev pub failing : SearchPort whole
failing = record {
  search_lexical = λ b s. ok (listed (map candidate lex_hits));
  search_vector = λ b s. err timeout_error;
}

abbrev pub images : SearchScope
images = record any_scope { resource_kinds = codes "image" ∷ codes "note" ∷ [] }

abbrev pub pictures : BranchScopeOverride
pictures = record {
  resource_kinds = codes "image" ∷ codes "video" ∷ [];
  media_types = [];
  source_namespaces = [];
  representation_kinds = [];
  modalities = codes "image" ∷ [];
  unit_kinds = [];
}

abbrev pub jpeg : Subject
jpeg = record {
  resource_kind = codes "image";
  media_type = codes "image/jpeg";
  source_namespace = codes "local";
  representation_kind = codes "original";
  modality = codes "image";
  unit_kind = codes "whole_resource";
}
