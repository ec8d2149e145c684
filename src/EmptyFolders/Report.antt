-- ===== src/EmptyFolders/Report.antt =====
-- The scan of all roots and its report (immich_doctor/storage/empty_folders/scanner.py and
-- models.py).
pub mod Leaves
use immich_doctor.Base.{
  ℕ, ◌+◌, String, Bool, true, false, not, ◌&&◌, ◌||◌, Option, none, some, List, [], ◌∷◌, ◌++◌, ◌<>◌,
  map, Dict, lookup, insert, any, is_empty, length, contains, decimal, ltb, ◌==◌, ◌!=◌, string_eq,
  nat_eq, if◌then◌else◌, filter_by,
}
use Prim.Native.String.{compare}
use text.Mathlib.Text.{is_le, is_lt}
use immich_doctor.Core.Value.{Fields, end, field, int, array, texts, optional_text}
use immich_doctor.Core.Models.{
  CheckResult, CheckStatus, pass, fail, warn, skip, check_status_eq, check_statuses, exit_code_of,
}
use immich_doctor.Storage.PosixPath.{PurePosixPath}
use immich_doctor.Storage.PathMapping.{StorageSettings}
use immich_doctor.EmptyFolders.Scan.{
  Directory, EmptyDirectoryFinding, EntryNote, RootScan, scan_directory,
}

pub record EmptyFolderScanReport : Type 0 where
  pub summary : String
  pub checks : List CheckResult
  pub findings : List EmptyDirectoryFinding
  pub orphan_parents : List EmptyDirectoryFinding
  pub symlink_directories : List EntryNote
  pub entry_errors : List EntryNote
  pub roots_scanned : List String
  pub roots_with_errors : Dict String
  pub metadata : Fields

-- `EmptyFolderScanReport.overall_status`
abbrev pub scan_overall_status : EmptyFolderScanReport → CheckStatus
scan_overall_status r =
    let statuses = check_statuses r.checks in
    if contains statuses fail
    then fail
    else if not (is_empty r.findings)
        || not (is_empty r.orphan_parents)
        || not (is_empty r.symlink_directories)
        || not (is_empty r.entry_errors)
    then warn
    else if contains statuses pass
    then pass
    else skip

abbrev pub scan_exit_code : EmptyFolderScanReport → ℕ
scan_exit_code r = exit_code_of (scan_overall_status r)

abbrev pub size_or_zero : Option ℕ → ℕ
size_or_zero none = 0
size_or_zero (some n) = n

abbrev pub sum_sizes : List EmptyDirectoryFinding → ℕ
sum_sizes [] = 0
sum_sizes (f ∷ l) = size_or_zero f.size_bytes + sum_sizes l

abbrev pub reclaimed_space_bytes : EmptyFolderScanReport → ℕ
reclaimed_space_bytes r = sum_sizes r.findings

-- The key `(item.root_slug, -item.depth, item.relative_path)`.
abbrev pub comes_first : EmptyDirectoryFinding → EmptyDirectoryFinding → Bool
comes_first f g =
    if f.root_slug != g.root_slug
    then is_lt (compare f.root_slug g.root_slug)
    else if f.depth != g.depth
    then ltb g.depth f.depth
    else is_le (compare f.relative_path g.relative_path)

abbrev pub insert_finding :
    EmptyDirectoryFinding → List EmptyDirectoryFinding → List EmptyDirectoryFinding
insert_finding f [] = f ∷ []
insert_finding f (g ∷ l) =
    let rest = insert_finding f l in if comes_first f g then f ∷ g ∷ l else g ∷ rest

abbrev pub sort_findings : List EmptyDirectoryFinding → List EmptyDirectoryFinding
sort_findings [] = []
sort_findings (f ∷ l) = insert_finding f (sort_findings l)

-- `configured_immich_paths`, with the slugs of `_ROOT_SPECS`
abbrev pub with_path : String → Option PurePosixPath → List (String × PurePosixPath)
with_path slug none = []
with_path slug (some path) = (slug, path) ∷ []

abbrev pub configured_immich_paths : StorageSettings → List (String × PurePosixPath)
configured_immich_paths s =
    with_path "library" s.immich_library_root
    ++ (with_path "uploads" s.immich_uploads_path
        ++ (with_path "thumbs" s.immich_thumbs_path
            ++ (with_path "profile" s.immich_profile_path
                ++ with_path "video" s.immich_video_path)))

abbrev pub insert_root :
    String × PurePosixPath → List (String × PurePosixPath) → List (String × PurePosixPath)
insert_root r [] = r ∷ []
insert_root r (q ∷ l) =
    let rest = insert_root r l in if is_le (compare r.0 q.0) then r ∷ q ∷ l else q ∷ rest

abbrev pub sort_roots : List (String × PurePosixPath) → List (String × PurePosixPath)
sort_roots [] = []
sort_roots (r ∷ l) = insert_root r (sort_roots l)

-- What the file system answers: `is_child_path parent child`, the readability check of a root under
-- a name, its tree, and the stat of a directory.
pub record StorageAnswers : Type 0 where
  pub is_child_path : PurePosixPath → PurePosixPath → Bool
  pub readable_check : String → PurePosixPath → CheckResult
  pub tree : PurePosixPath → Directory
  pub stat : PurePosixPath → Option (ℕ × String)

module _ (answers : StorageAnswers) where
  -- `is_parent`
  abbrev pub is_parent : List (String × PurePosixPath) → String × PurePosixPath → Bool
  is_parent roots (slug, path) =
      any (λ other. other.0 != slug && answers.is_child_path path other.1) roots

  abbrev pub is_requested : Option String → String → Bool
  is_requested none slug = true
  is_requested (some root_slug) slug = slug == root_slug

  -- `_effective_roots`
  unfoldable pub effective_roots : StorageSettings → Option String → List (String × PurePosixPath)
  effective_roots settings root_slug =
      let roots = configured_immich_paths settings in
      sort_roots (
        filter_by
          (λ root.
            is_requested root_slug root.0 && not (is_parent roots root && root.0 == "library"))
          roots)

  abbrev pub scanned_root : String → PurePosixPath → RootScan
  scanned_root slug path = scan_directory slug path answers.stat [] (answers.tree path)

  abbrev pub add_error : String → Option String → Dict String → Dict String
  add_error slug none d = d
  add_error slug (some m) d = if m == "" then d else insert slug m d

  -- What the loop over the roots has gathered.
  pub record ScannedRoots : Type 0 where
    pub checks : List CheckResult
    pub findings : List EmptyDirectoryFinding
    pub orphan_parents : List EmptyDirectoryFinding
    pub symlink_directories : List EntryNote
    pub entry_errors : List EntryNote
    pub roots_with_errors : Dict String
    pub scanned_root_slugs : List String
    pub total_directories : ℕ

  abbrev pub refuse_root : String → CheckResult → ScannedRoots → ScannedRoots
  refuse_root slug check st = record st {
    checks = st.checks ++ (check ∷ []);
    roots_with_errors = insert slug check.message st.roots_with_errors;
  }

  abbrev pub add_root : String → CheckResult → RootScan → ScannedRoots → ScannedRoots
  add_root slug check scan st = record {
    checks = st.checks ++ (check ∷ []);
    findings = st.findings ++ scan.findings;
    orphan_parents = st.orphan_parents ++ scan.orphan_parents;
    symlink_directories = st.symlink_directories ++ scan.symlink_directories;
    entry_errors = st.entry_errors ++ scan.entry_errors;
    roots_with_errors = add_error slug scan.error_message st.roots_with_errors;
    scanned_root_slugs = st.scanned_root_slugs ++ (slug ∷ []);
    total_directories = st.total_directories + scan.directory_count;
  }

  abbrev pub scan_root : String × PurePosixPath → ScannedRoots → ScannedRoots
  scan_root (slug, path) st =
      let check = answers.readable_check ("empty_folder_root_" <> slug) path in
      if check.status == fail
      then refuse_root slug check st
      else add_root slug check (scanned_root slug path) st

  unfoldable pub scan_roots : List (String × PurePosixPath) → ScannedRoots → ScannedRoots
  unfolding scan_directory
  scan_roots [] st = st
  scan_roots (root ∷ roots) st = scan_roots roots (scan_root root st)

  abbrev pub root_count_check : List (String × PurePosixPath) → CheckResult
  root_count_check roots = record {
    name = "empty_folder_root_count";
    status = pass;
    message = "Scanning " <> decimal (length roots) <> " storage roots for empty directories.";
    details = field "roots" (array (texts (map (λ r. r.0) roots))) end;
  }

  abbrev pub no_roots_check : CheckResult
  no_roots_check = record {
    name = "empty_folder_roots";
    status = fail;
    message = "No storage roots are configured for empty-folder scanning.";
    details = end;
  }

  abbrev pub no_roots_report : Option String → EmptyFolderScanReport
  no_roots_report root_slug = record {
    summary = "Empty-folder scan failed because no storage roots are configured.";
    checks = no_roots_check ∷ [];
    findings = [];
    orphan_parents = [];
    symlink_directories = [];
    entry_errors = [];
    roots_scanned = [];
    roots_with_errors = [];
    metadata = field "requested_root_slug" (optional_text root_slug) end;
  }

  abbrev pub scan_summary : List EmptyDirectoryFinding → List String → String
  scan_summary findings slugs =
      if is_empty slugs
      then "Empty-folder scan could not read any configured storage roots."
      else if is_empty findings
      then "Empty-folder scan found no empty leaf directories across "
        <> decimal (length slugs)
        <> " scanned roots."
      else "Empty-folder scan found "
        <> decimal (length findings)
        <> " empty leaf directories across "
        <> decimal (length slugs)
        <> " scanned roots."

  abbrev pub started : List (String × PurePosixPath) → ScannedRoots
  started roots = record {
    checks = root_count_check roots ∷ [];
    findings = [];
    orphan_parents = [];
    symlink_directories = [];
    entry_errors = [];
    roots_with_errors = [];
    scanned_root_slugs = [];
    total_directories = 0;
  }

  abbrev pub report_of : Option String → ScannedRoots → EmptyFolderScanReport
  report_of root_slug st = record {
    summary = scan_summary st.findings st.scanned_root_slugs;
    checks = st.checks;
    findings = sort_findings st.findings;
    orphan_parents = sort_findings st.orphan_parents;
    symlink_directories = st.symlink_directories;
    entry_errors = st.entry_errors;
    roots_scanned = st.scanned_root_slugs;
    roots_with_errors = st.roots_with_errors;
    metadata =
        field "requested_root_slug" (optional_text root_slug)
          (field "directories_scanned" (int st.total_directories) end);
  }

  -- `scan`
  unfoldable pub scan_storage : StorageSettings → Option String → EmptyFolderScanReport
  unfolding effective_roots scan_roots
  scan_storage settings root_slug =
      let roots = effective_roots settings root_slug in
      if is_empty roots
      then no_roots_report root_slug
      else report_of root_slug (scan_roots roots (started roots))
