-- ===== src/Core/Fusion.antt =====
-- packages/mdrack-core/src/mdrack_core/application/fusion.py
mod Steps
pub mod Rounds
pub mod Scores
pub mod Ids
mod FirstSeen
pub mod Total
pub mod Ranking
pub mod Evidence
use mdrack.Base.{
  ℕ, ◌+◌, Bool, true, false, not, ◌&&◌, ◌||◌, Option, none, some, List, [], ◌∷◌, ◌++◌, map, take,
  contains, ltb, leb, eqb, if◌then◌else◌, Eq, ◌==◌, ◌≡◌, ◌↔◌, arith,
}
use mdrack.Base.Results.{Result, ok, err, ◌>>=◌, ◌>>◌, require, traverse}
use mdrack.Base.Dict.{Dict, lookup, insert, set_default, get_or}
use mdrack.Base.Order.{sort_by}
use mdrack.Base.Text.{Str, str_eq, str_lt, has_content}
use mdrack.Base.Floats.{Floats}
use mdrack.Core.Errors.{PyError, value_error, key_error, overflow_error}
use mdrack.Core.Search.{RankedCandidate}

-- A pair of texts as a key.
abbrev pub key_beq : Str × Str → Str × Str → Bool
key_beq (a, b) (c, d) = (a == c) && (b == d)

pub key_beq_iff : (p q : Str × Str) → (key_beq p q ≡ true) ↔ (p ≡ q)
key_beq_iff (a, b) (c, d) = ground (arith, str_eq.beq_iff a c, str_eq.beq_iff b d)

instance abbrev pub key_eq : Eq (Str × Str)
key_eq = record { beq = key_beq; beq_iff = key_beq_iff }

module _ (F : Floats) where
  pub record FusionCandidate : Type 0 where
    pub logical_id : Str
    pub representative : RankedCandidate F
    pub evidence : List (RankedCandidate F)

  pub record FusionBranch : Type 0 where
    pub branch_id : Str
    pub weight : F.Float
    pub candidates : List FusionCandidate

  pub record FusedCandidate : Type 0 where
    pub logical_id : Str
    pub score : F.Float
    pub first_seen : ℕ
    pub representative : RankedCandidate F
    pub evidence : List (RankedCandidate F)

  -- `FusionCandidate.__post_init__`
  unfoldable pub make_candidate : FusionCandidate → Result PyError FusionCandidate
  make_candidate c = do require (has_content c.logical_id) value_error; ok c

  -- `FusionBranch.__post_init__`
  unfoldable pub make_branch : FusionBranch → Result PyError FusionBranch
  make_branch b = do
    require (has_content b.branch_id) value_error
    require (F.is_finite b.weight && F.lt F.zero_float b.weight) value_error
    ok b

  -- A member of a list in `evidence_by_id`: rank, evidence ordinal and candidate.
  abbrev pub Entry : Type 0
  Entry = ℕ × ℕ × RankedCandidate F

  -- The local variables of `weighted_rrf` that live across branches.
  pub record Tally : Type 0 where
    pub scores : Dict Str F.Float
    pub first_seen : Dict Str ℕ
    pub representatives : Dict Str (RankedCandidate F)
    pub evidence_by_id : Dict Str (List Entry)
    pub candidate_ordinal : ℕ
    pub evidence_ordinal : ℕ

  abbrev pub evidence_key : RankedCandidate F → Str × Str
  evidence_key item = (item.branch_id, item.unit_id)

  -- `for item in candidate.evidence`, over `known_evidence`, `evidence` and `evidence_ordinal`
  unfoldable pub add_evidence :
      List (RankedCandidate F) → List (Str × Str) → List Entry → ℕ → List Entry × ℕ
  add_evidence [] known evidence ordinal = (evidence, ordinal)
  add_evidence (item ∷ items) known evidence ordinal =
      let seen = contains (evidence_key item) known in
      add_evidence items (if seen then known else evidence_key item ∷ known)
        (if seen then evidence else evidence ++ ((item.rank, ordinal, item) ∷ [])) (ordinal + 1)

  -- `weight / n` for a positive `int`
  unfoldable pub divide : F.Float → ℕ → Result PyError F.Float
  divide weight n = do require (F.fits_float n) overflow_error; ok (F.div_int weight n)

  -- What the inner loop stores for a logical id that is new in its branch, with the quotient
  -- `share`.
  unfoldable pub record_candidate : F.Float → FusionCandidate → Tally → Tally
  unfolding add_evidence
  record_candidate share c t =
      let id = c.logical_id in
      let evidence = get_or id [] t.evidence_by_id in
      let (evidence', ordinal) =
        add_evidence c.evidence (map (λ (e : Entry). evidence_key e.2) evidence) evidence
          t.evidence_ordinal in
      record {
        scores = insert id (F.add (get_or id F.zero_float t.scores) share) t.scores;
        first_seen = set_default id t.candidate_ordinal t.first_seen;
        representatives = set_default id c.representative t.representatives;
        evidence_by_id = insert id evidence' t.evidence_by_id;
        candidate_ordinal = t.candidate_ordinal + 1;
        evidence_ordinal = ordinal;
      }

  -- The body of the inner loop for a logical id that is new in its branch, at `branch_rank`.
  unfoldable pub tally_candidate : F.Float → ℕ → ℕ → FusionCandidate → Tally → Result PyError Tally
  unfolding divide record_candidate
  tally_candidate weight rrf_k branch_rank c t = do
    share ← divide weight (rrf_k + branch_rank)
    ok (record_candidate share c t)

  -- `for candidate in branch.candidates`, with `seen_in_branch` and `branch_rank`
  unfoldable pub tally_candidates :
      F.Float → ℕ → List FusionCandidate → List Str → ℕ → Tally → Result PyError Tally
  tally_candidates weight rrf_k [] seen branch_rank t = ok t
  tally_candidates weight rrf_k (c ∷ cs) seen branch_rank t = elim (contains c.logical_id seen) [
    | true ↦ tally_candidates weight rrf_k cs seen branch_rank t
    | false ↦ (do
      t' ← tally_candidate weight rrf_k (branch_rank + 1) c t
      tally_candidates weight rrf_k cs (seen ++ (c.logical_id ∷ [])) (branch_rank + 1) t')
  ]

  -- `for branch in branches`
  unfoldable pub tally_branches : ℕ → List FusionBranch → Tally → Result PyError Tally
  tally_branches rrf_k [] t = ok t
  tally_branches rrf_k (b ∷ bs) t = do
    t' ← tally_candidates b.weight rrf_k b.candidates [] 0 t
    tally_branches rrf_k bs t'

  abbrev pub empty_tally : Tally
  empty_tally = record {
    scores = [];
    first_seen = [];
    representatives = [];
    evidence_by_id = [];
    candidate_ordinal = 0;
    evidence_ordinal = 0;
  }

  -- The key `(rank, ordinal, unit_id)`
  unfoldable pub entry_before : Entry → Entry → Bool
  entry_before (rank, ordinal, item) (rank', ordinal', item') =
      ltb rank rank'
      || (eqb rank rank'
          && (ltb ordinal ordinal' || (eqb ordinal ordinal' && str_lt item.unit_id item'.unit_id)))

  -- The key `(-score, first_seen, logical_id)`
  unfoldable pub fused_before : FusedCandidate → FusedCandidate → Bool
  fused_before a b =
      if F.feq a.score b.score
      then ltb a.first_seen b.first_seen
        || (eqb a.first_seen b.first_seen && str_lt a.logical_id b.logical_id)
      else F.lt b.score a.score

  -- `d[k]`
  unfoldable pub index : {V : Type 0} → Option V → Result PyError V
  index o = elim o [ some v ↦ ok v | none ↦ err key_error ]

  abbrev pub fused_candidate : ℕ → Tally → Str × F.Float → ℕ → RankedCandidate F → FusedCandidate
  fused_candidate evidence_limit t (id, score) seen representative = record {
    logical_id = id;
    score = score;
    first_seen = seen;
    representative = representative;
    evidence =
        map (λ (e : Entry). e.2)
          (take evidence_limit (sort_by entry_before (get_or id [] t.evidence_by_id)));
  }

  -- One element of the comprehension `fused`.
  unfoldable pub fuse : ℕ → Tally → Str × F.Float → Result PyError FusedCandidate
  unfolding index
  fuse evidence_limit t (id, score) = do
    seen ← index (lookup id t.first_seen)
    representative ← index (lookup id t.representatives)
    ok (fused_candidate evidence_limit t (id, score) seen representative)

  -- The comprehension `fused` and its sort.
  unfoldable pub fuse_all : ℕ → Tally → Result PyError (List FusedCandidate)
  fuse_all evidence_limit t = do
    fused ← traverse (fuse evidence_limit t) t.scores
    ok (sort_by fused_before fused)

  unfoldable pub weighted_rrf : List FusionBranch → ℕ → ℕ → Result PyError (List FusedCandidate)
  weighted_rrf branches rrf_k evidence_limit = do
    require (leb 1 rrf_k) value_error
    require (leb 1 evidence_limit) value_error
    t ← tally_branches rrf_k branches empty_tally
    fuse_all evidence_limit t
