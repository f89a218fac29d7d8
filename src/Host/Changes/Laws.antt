-- ===== src/Host/Changes/Laws.antt =====
-- A plan sorts every scanned file into one list and names the deleted files.
use mdrack.Base.{
  suc, ◌+◌, ◌≡◌, refl, sym, ap, ap₂, ◌∙◌, Bool, true, false, not, ◌&&◌, ◌||◌, Option, none, some,
  List, [], ◌∷◌, ◌++◌, map, contains, contains-add_key, keep_if, length, ◌==◌, Bool-cases, inl, inr,
  arith, if◌then◌else◌,
}
use mathlib.Core.Path.{fun_ext}
use mathlib.Core.List.{append_assoc, append-nil}
use mdrack.Base.Dict.{Dict, keys, lookup, insert, keys-insert, lookup-some, lookup-none}
use mdrack.Base.Order.{sort_by, contains-sort_by}
use mdrack.Base.Text.{Str, str_eq, str_lt}
use mdrack.Host.Changes.{
  ChangePlan, Change, new, changed, unchanged, index_rows, change_of, record_change, scan_files,
  detect_changes, classify_change, disk_hash_of,
}

unfoldable pub is_new : Change → Bool
is_new new = true
is_new _ = false

unfoldable pub is_changed : Change → Bool
is_changed changed = true
is_changed _ = false

unfoldable pub is_unchanged : Change → Bool
is_unchanged unchanged = true
is_unchanged _ = false

contains-index_rows :
    (p : Str) (hashes : Dict Str Str) (rows : List (Str × Str))
    → contains p (keys (index_rows hashes rows))
      ≡ (contains p (keys hashes) || contains p (map (λ (r : Str × Str). r.0) rows))
unfolding index_rows
contains-index_rows p hashes [] = ground arith
contains-index_rows p hashes (row ∷ rows) = ground (
  arith,
  contains-index_rows p (insert row.0 row.1 hashes) rows,
  ap (λ (ks : List Str). contains p ks) (keys-insert row.0 row.1 hashes),
  contains-add_key p row.0 (keys hashes),
)

contains-keep_if :
    (p : Str) (keep : Str → Bool) (xs : List Str)
    → contains p (keep_if keep xs) ≡ (contains p xs && keep p)
contains-keep_if p keep [] = refl
contains-keep_if p keep (x ∷ xs) = elim (Bool-cases (x == p)) [
  | inl e ↦
      let f : x ≡ p = (str_eq.beq_iff x p).0 e in
      rw f (ground (arith, contains-keep_if p keep xs, (str_eq.beq_iff p p).1 refl))
  | inr e ↦ ground (arith, contains-keep_if p keep xs, e)
]

map_id : (xs : List Str) → map (λ (x : Str). x) xs ≡ xs
map_id [] = refl
map_id (x ∷ xs) = ap (◌∷◌ x) (map_id xs)

contains-sorted : (p : Str) (xs : List Str) → contains p (sort_by str_lt xs) ≡ contains p xs
contains-sorted p xs =
    let e = contains-sort_by str_lt (λ (x : Str). x) p xs in
    rw (map_id (sort_by str_lt xs), map_id xs) at e

-- A stored hash that differs from the hash on disk, which is empty for a file that cannot be read
unfoldable pub is_stale : Option Str → Option Str → Bool
is_stale none disk = false
is_stale (some v) none = not (v == [])
is_stale (some v) (some h) = not (v == h)

-- A stored hash that is the hash on disk
unfoldable pub is_current : Option Str → Option Str → Bool
is_current none disk = false
is_current (some v) none = v == []
is_current (some v) (some h) = v == h

compare-is_stale :
    (b : Bool)
    → (is_changed (if b then unchanged else changed) ≡ not b)
      × (is_unchanged (if b then unchanged else changed) ≡ b)
unfolding is_changed is_unchanged
compare-is_stale true = (refl, refl)
compare-is_stale false = (refl, refl)

classify_change-is_stale :
    (stored disk : Option Str)
    → (is_changed (classify_change stored (disk_hash_of disk)) ≡ is_stale stored disk)
      × (is_unchanged (classify_change stored (disk_hash_of disk)) ≡ is_current stored disk)
unfolding is_changed is_unchanged classify_change disk_hash_of is_stale is_current
classify_change-is_stale none disk = (refl, refl)
classify_change-is_stale (some v) none = compare-is_stale (v == [])
classify_change-is_stale (some v) (some h) = compare-is_stale (v == h)

-- A stored hash makes no new file.
classify_change-is_new : (v h : Str) → is_new (classify_change (some v) h) ≡ false
unfolding is_new classify_change
classify_change-is_new v h = elim (Bool-cases (v == h)) [ inl e ↦ rw e refl | inr e ↦ rw e refl ]

module _ {File : Type 0} (as_posix : File → Str) (file_hash : File → Option Str) where
  -- The files that take a branch
  abbrev pub files_with : (Change → Bool) → Dict Str Str → List File → List File
  files_with test hashes = keep_if (λ (f : File). test (change_of as_posix file_hash hashes f))

  -- What the loop adds to each list
  record Scans (hashes : Dict Str Str) (files : List File) (p q : ChangePlan File) : Type 0 where
    news : q.new_files ≡ p.new_files ++ files_with is_new hashes files
    changes : q.changed_files ≡ p.changed_files ++ files_with is_changed hashes files
    rests : q.unchanged_files ≡ p.unchanged_files ++ files_with is_unchanged hashes files

  step-Scans :
      (hashes : Dict Str Str) (rel : File) (files : List File) (c : Change) (p q : ChangePlan File)
      → change_of as_posix file_hash hashes rel ≡ c
      → Scans hashes files (record_change as_posix file_hash rel c p) q
      → Scans hashes (rel ∷ files) p q
  unfolding record_change is_new is_changed is_unchanged
  step-Scans hashes rel files new p q e s = record {
    news = rw e (s.news ∙ append_assoc p.new_files (rel ∷ []) (files_with is_new hashes files));
    changes = rw e s.changes;
    rests = rw e s.rests;
  }
  step-Scans hashes rel files changed p q e s = record {
    news = rw e s.news;
    changes =
        rw e (
          s.changes ∙ append_assoc p.changed_files (rel ∷ []) (files_with is_changed hashes files));
    rests = rw e s.rests;
  }
  step-Scans hashes rel files unchanged p q e s = record {
    news = rw e s.news;
    changes = rw e s.changes;
    rests = rw e (
        s.rests ∙ append_assoc p.unchanged_files (rel ∷ []) (files_with is_unchanged hashes files));
  }

  scan_files-Scans :
      (hashes : Dict Str Str) (files : List File) (seen : List Str) (p : ChangePlan File)
      → Scans hashes files p (scan_files as_posix file_hash hashes files seen p).0
  unfolding scan_files
  scan_files-Scans hashes [] seen p = record {
    news = sym (append-nil p.new_files);
    changes = sym (append-nil p.changed_files);
    rests = sym (append-nil p.unchanged_files);
  }
  scan_files-Scans hashes (rel ∷ files) seen p =
      step-Scans hashes rel files (change_of as_posix file_hash hashes rel) p _ refl (
        scan_files-Scans hashes files (as_posix rel ∷ seen)
          (record_change as_posix file_hash rel (change_of as_posix file_hash hashes rel) p))

  scan_files-seen :
      (path : Str) (hashes : Dict Str Str) (files : List File) (seen : List Str)
      (p : ChangePlan File)
      → contains path (scan_files as_posix file_hash hashes files seen p).1
        ≡ (contains path (map as_posix files) || contains path seen)
  unfolding scan_files
  scan_files-seen path hashes [] seen p = refl
  scan_files-seen path hashes (rel ∷ files) seen p = ground (
    arith,
    scan_files-seen path hashes files (as_posix rel ∷ seen)
        (record_change as_posix file_hash rel (change_of as_posix file_hash hashes rel) p),
  )

  change_of-is_new :
      (rows : List (Str × Str)) (rel : File)
      → is_new (change_of as_posix file_hash (index_rows [] rows) rel)
        ≡ not (contains (as_posix rel) (map (λ (r : Str × Str). r.0) rows))
  unfolding change_of is_new classify_change
  change_of-is_new rows rel =
      let known = contains-index_rows (as_posix rel) [] rows in
      elim (Bool-cases (contains (as_posix rel) (map (λ (r : Str × Str). r.0) rows))) [
        | inl e ↦
            let (v, q) =
              lookup-some (as_posix rel) (index_rows [] rows) (ground (arith, known, e)) in
            rw (e, q, classify_change-is_new v (disk_hash_of (file_hash rel))) refl
        | inr e ↦
            rw (e, lookup-none (as_posix rel) (index_rows [] rows) (ground (arith, known, e))) refl
      ]

  length-files_with :
      (hashes : Dict Str Str) (files : List File)
      → length (files_with is_new hashes files)
          + length (files_with is_changed hashes files)
          + length (files_with is_unchanged hashes files)
        ≡ length files
  unfolding is_new is_changed is_unchanged
  length-files_with hashes [] = refl
  length-files_with hashes (f ∷ files) =
      branches (change_of as_posix file_hash hashes f) refl (length-files_with hashes files)
    where
      branches :
          (c : Change)
          → change_of as_posix file_hash hashes f ≡ c
          → length (files_with is_new hashes files)
              + length (files_with is_changed hashes files)
              + length (files_with is_unchanged hashes files)
            ≡ length files
          → length (files_with is_new hashes (f ∷ files))
              + length (files_with is_changed hashes (f ∷ files))
              + length (files_with is_unchanged hashes (f ∷ files))
            ≡ suc (length files)
      branches new e ih = rw e (omega (arith, ih))
      branches changed e ih = rw e (omega (arith, ih))
      branches unchanged e ih = rw e (omega (arith, ih))

  -- Detect_changes lists as new the files that no row names, as changed those whose stored hash
  -- differs from the hash on disk, which is empty where the file cannot be read, as unchanged
  -- those with an equal hash, each in the order of the scan, and the three lists together are as
  -- long as the scan.
  pub detect_changes-files :
      (rows : List (Str × Str)) (files : List File)
      → ((detect_changes as_posix file_hash rows files).new_files
          ≡ keep_if
              (λ (f : File). not (contains (as_posix f) (map (λ (r : Str × Str). r.0) rows)))
              files)
        × ((detect_changes as_posix file_hash rows files).changed_files
            ≡ keep_if
                (λ (f : File). is_stale (lookup (as_posix f) (index_rows [] rows)) (file_hash f))
                files)
        × ((detect_changes as_posix file_hash rows files).unchanged_files
            ≡ keep_if
                (λ (f : File). is_current (lookup (as_posix f) (index_rows [] rows)) (file_hash f))
                files)
        × (length (detect_changes as_posix file_hash rows files).new_files
              + length (detect_changes as_posix file_hash rows files).changed_files
              + length (detect_changes as_posix file_hash rows files).unchanged_files
            ≡ length files)
  unfolding detect_changes change_of
  detect_changes-files rows files =
      let s =
        scan_files-Scans (index_rows [] rows) files [] (record {
          new_files = [];
          changed_files = [];
          unchanged_files = [];
          deleted_files = [];
        }) in
      let all = length-files_with (index_rows [] rows) files in
      let n = ap (λ (test : File → Bool). keep_if test files) (fun_ext (change_of-is_new rows)) in
      let stale =
        ap (λ (test : File → Bool). keep_if test files)
          (fun_ext (λ f.
            (classify_change-is_stale (lookup (as_posix f) (index_rows [] rows))
              (file_hash f)).0)) in
      let current =
        ap (λ (test : File → Bool). keep_if test files)
          (fun_ext (λ f.
            (classify_change-is_stale (lookup (as_posix f) (index_rows [] rows))
              (file_hash f)).1)) in
      (
        s.news ∙ n,
        s.changes ∙ stale,
        s.rests ∙ current,
        ap₂ ◌+◌ (ap₂ ◌+◌ (ap length s.news) (ap length s.changes)) (ap length s.rests) ∙ all,
      )

  -- Detect_changes lists a path as deleted exactly when a row names it and no scanned file has
  -- it.
  pub detect_changes-deleted :
      (rows : List (Str × Str)) (files : List File) (path : Str)
      → contains path (detect_changes as_posix file_hash rows files).deleted_files ≡ (
          contains path (map (λ (r : Str × Str). r.0) rows)
          && not (contains path (map as_posix files)))
  unfolding detect_changes
  detect_changes-deleted rows files path =
      let start : ChangePlan File = record {
        new_files = [];
        changed_files = [];
        unchanged_files = [];
        deleted_files = [];
      } in
      let seen : List Str = (scan_files as_posix file_hash (index_rows [] rows) files [] start).1 in
      let gone : Str → Bool = λ (q : Str). not (contains q seen) in
      contains-sorted path (keep_if gone (keys (index_rows [] rows)))
      ∙ contains-keep_if path gone (keys (index_rows [] rows))
      ∙ ground (
        arith,
        contains-index_rows path [] rows,
        scan_files-seen path (index_rows [] rows) files [] start,
      )
