-- ===== src/Host/Changes.antt =====
-- src/mdrack/indexing/change_detector.py: what a scan of the files means for the index. The rows of
-- the active files and the hash of a file on disk are parameters: `none` is a file that cannot be
-- read.
pub mod Laws
use mdrack.Base.{
  ℕ, Bool, true, false, not, ◌&&◌, ◌||◌, Option, none, some, List, [], ◌∷◌, ◌++◌, map, contains,
  keep_if, ◌==◌, if◌then◌else◌,
}
use mdrack.Base.Dict.{Dict, keys, lookup, insert}
use mdrack.Base.Order.{sort_by}
use mdrack.Base.Text.{Str, str_eq, str_lt}

pub record ChangePlan (File : Type 0) : Type 0 where
  pub new_files : List File
  pub changed_files : List File
  pub unchanged_files : List File
  pub deleted_files : List Str

-- `{row["relative_path"]: row["source_hash"] for row in rows}`
unfoldable pub index_rows : Dict Str Str → List (Str × Str) → Dict Str Str
unfolding insert
index_rows hashes [] = hashes
index_rows hashes (row ∷ rows) = index_rows (insert row.0 row.1 hashes) rows

-- The branch that a file takes
pub data Change : Type 0 where
  new changed unchanged : Change

-- The three tests on the stored hash
unfoldable pub classify_change : Option Str → Str → Change
classify_change none disk_hash = new
classify_change (some db_hash) disk_hash = if db_hash == disk_hash then unchanged else changed

-- `compute_file_hash` with its `except` clause
unfoldable pub disk_hash_of : Option Str → Str
disk_hash_of none = []
disk_hash_of (some h) = h

module _ {File : Type 0} (as_posix : File → Str) (file_hash : File → Option Str) where
  -- One file appended to the list of its branch
  unfoldable pub record_change : File → Change → ChangePlan File → ChangePlan File
  record_change rel new p = record p { new_files = p.new_files ++ (rel ∷ []) }
  record_change rel changed p = record p { changed_files = p.changed_files ++ (rel ∷ []) }
  record_change rel unchanged p = record p { unchanged_files = p.unchanged_files ++ (rel ∷ []) }

  -- The branch of a file
  unfoldable pub change_of : Dict Str Str → File → Change
  unfolding classify_change disk_hash_of lookup
  change_of hashes rel =
      classify_change (lookup (as_posix rel) hashes) (disk_hash_of (file_hash rel))

  -- The loop over the scanned files, with `seen`
  unfoldable pub scan_files :
      Dict Str Str → List File → List Str → ChangePlan File → ChangePlan File × List Str
  unfolding record_change change_of
  scan_files hashes [] seen p = (p, seen)
  scan_files hashes (rel ∷ files) seen p =
      scan_files hashes files (as_posix rel ∷ seen) (record_change rel (change_of hashes rel) p)

  -- `detect_changes`
  unfoldable pub detect_changes : List (Str × Str) → List File → ChangePlan File
  unfolding index_rows scan_files sort_by
  detect_changes rows files =
      let hashes = index_rows [] rows in
      let (p, seen) =
        scan_files hashes files [] (record {
          new_files = [];
          changed_files = [];
          unchanged_files = [];
          deleted_files = [];
        }) in
      record p {
        deleted_files =
            sort_by str_lt (keep_if (λ (path : Str). not (contains path seen)) (keys hashes));
      }
