-- ===== src/Samples/Host.antt =====
-- A scan of four files against three rows.
use mdrack.Base.{
  refl, ◌||◌, All, Distinct, ◌+◌, ◌≡◌, not, ◌&&◌, Option, none, some, List, [], ◌∷◌, map, contains,
  keep_if, length, ◌==◌, if◌then◌else◌,
}
use mdrack.Base.Dict.{lookup}
use mdrack.Base.Text.{Str, codes, str_eq}
use mdrack.Host.Changes.{index_rows, detect_changes}
use mdrack.Host.Scoring.{RankedResult, reciprocal_rank_fusion}
use mdrack.Base.Int.{pos, negsuc}
use mdrack.Base.Results.{ok, err}
use mdrack.Core.Errors.{zero_division_error}
use mdrack.Host.Scoring.Ranks.{
  chunk_ids, IsRanked, reciprocal_rank_fusion-ids, reciprocal_rank_fusion-ranks,
}
use mdrack.Samples.Values.{whole}
use mdrack.Host.Changes.Laws.{is_stale, is_current, detect_changes-files, detect_changes-deleted}

abbrev rows : List (Str × Str)
rows = (codes "a.md", codes "11") ∷ (codes "b.md", codes "22") ∷ (codes "gone.md", codes "33") ∷ []

abbrev files : List Str
files = codes "a.md" ∷ codes "b.md" ∷ codes "c.md" ∷ codes "d.md" ∷ []

-- `a.md` is as it was; `d.md` cannot be read.
abbrev disk : Str → Option Str
disk f = if f == codes "d.md" then none else some (codes "11")

abbrev path : Str → Str
path f = f

detect_changes-files_example :
    ((detect_changes path disk rows files).new_files
      ≡ keep_if (λ (f : Str). not (contains f (map (λ (r : Str × Str). r.0) rows))) files)
    × ((detect_changes path disk rows files).changed_files
        ≡ keep_if (λ (f : Str). is_stale (lookup f (index_rows [] rows)) (disk f)) files)
    × ((detect_changes path disk rows files).unchanged_files
        ≡ keep_if (λ (f : Str). is_current (lookup f (index_rows [] rows)) (disk f)) files)
    × (length (detect_changes path disk rows files).new_files
          + length (detect_changes path disk rows files).changed_files
          + length (detect_changes path disk rows files).unchanged_files
        ≡ length files)
detect_changes-files_example = detect_changes-files path disk rows files

detect_changes-deleted_example :
    contains (codes "gone.md") (detect_changes path disk rows files).deleted_files ≡ (
      contains (codes "gone.md") (map (λ (r : Str × Str). r.0) rows)
      && not (contains (codes "gone.md") (map path files)))
detect_changes-deleted_example = detect_changes-deleted path disk rows files (codes "gone.md")

abbrev by_words : List Str
by_words = codes "c1" ∷ codes "c2" ∷ codes "c1" ∷ []

abbrev by_sense : List Str
by_sense = codes "c2" ∷ codes "c3" ∷ []

abbrev merged : List (RankedResult whole)
merged = elim (reciprocal_rank_fusion whole by_words by_sense (pos 60)) [
  | ok out ↦ out
  | err e ↦ []
]

merged_ok : reciprocal_rank_fusion whole by_words by_sense (pos 60) ≡ ok merged
unfolding reciprocal_rank_fusion mdrack.Base.Text.str_beq mdrack.Base.Dict.lookup
    mdrack.Base.Dict.set_default mdrack.Base.Results.traverse
merged_ok = refl

-- A negative k can meet a rank.
no_quotient : reciprocal_rank_fusion whole by_words by_sense (negsuc 1) ≡ err zero_division_error
unfolding reciprocal_rank_fusion mdrack.Base.Text.str_beq mdrack.Base.Dict.lookup
    mdrack.Base.Dict.set_default mdrack.Base.Results.traverse
no_quotient = refl

reciprocal_rank_fusion-ids_example :
    (contains (codes "c3") (chunk_ids whole merged)
      ≡ (contains (codes "c3") by_words || contains (codes "c3") by_sense))
    × Distinct (chunk_ids whole merged)
reciprocal_rank_fusion-ids_example =
    reciprocal_rank_fusion-ids whole by_words by_sense (pos 60) (codes "c3") {out = merged}
      merged_ok

reciprocal_rank_fusion-ranks_example : All (IsRanked whole by_words by_sense (pos 60)) merged
reciprocal_rank_fusion-ranks_example =
    reciprocal_rank_fusion-ranks whole by_words by_sense (pos 60) {out = merged} merged_ok
