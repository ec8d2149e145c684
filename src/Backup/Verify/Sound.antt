-- ===== src/Backup/Verify/Sound.antt =====
-- When the verification of manifests passes (immich_doctor/backup/verify/service.py).
use immich_doctor.Base.{
  String, Bool, true, false, not, ◌&&◌, ◌||◌, ◌≡◌, refl, ap, ◌∙◌, Option, none, some, List, [], ◌∷◌,
  ◌++◌, all, is_empty, contains, ◌==◌, if◌then◌else◌, arith,
}
use mathlib.Core.Path.{ap₂}
use immich_doctor.Core.Models.{CheckResult, fail, check_status_eq, check_statuses}
use immich_doctor.Effects.Result.{PyError, Result, ok, raised}
use immich_doctor.Effects.World.{Platform}
use immich_doctor.Storage.PosixPath.{PurePosixPath}
use immich_doctor.Catalog.Snapshots.{is_some}
use immich_doctor.Backup.Models.{
  SnapshotKind, pre_repair, post_repair, periodic, manual, SnapshotCoverage, files_only, db_only,
  paired, snapshot_kind_eq, snapshot_coverage_eq, BackupSnapshot,
}
use immich_doctor.Backup.Store.{
  SnapshotFiles, load_snapshot_from_path, list_snapshot_manifest_paths,
}
use immich_doctor.Backup.Verify.{
  is_json_path, coverage_error, consistency_error_of, snapshot_consistency_error, consistency_check,
  manifest_check, manifest_checks, reference_integrity, checks_of_paths, snapshot_checks,
}

abbrev pub agree : Bool → Bool → Bool
agree a b = if a then b else not b

-- A snapshot holds files unless it covers the database only, and a database artifact unless it
-- covers files only; a snapshot around a repair names its run; its manifest is a JSON file.
abbrev pub is_consistent : BackupSnapshot → Bool
is_consistent s =
    is_json_path s.manifest_path
    && (is_some s.repair_run_id || s.kind == periodic || s.kind == manual)
    && agree (s.coverage == db_only) (is_empty s.file_artifacts)
    && agree (s.coverage == files_only) (not (is_some s.db_artifact))

coverage_error-none :
    (c : SnapshotCoverage) (no_files has_db : Bool)
    → is_some (coverage_error c no_files has_db)
      ≡ not (agree (c == db_only) no_files && agree (c == files_only) (not has_db))
coverage_error-none files_only no_files has_db = ground arith
coverage_error-none db_only no_files has_db = ground arith
coverage_error-none paired no_files has_db = ground arith

error_of-none :
    (is_json : Bool) (k : SnapshotKind) (has_run : Bool) (c : SnapshotCoverage)
    (no_files has_db : Bool)
    → is_some (consistency_error_of is_json k has_run c no_files has_db)
      ≡ not (
          is_json
          && (has_run || k == periodic || k == manual)
          && agree (c == db_only) no_files
          && agree (c == files_only) (not has_db))
error_of-none false k has_run c no_files has_db = refl
error_of-none true pre_repair false c no_files has_db = refl
error_of-none true pre_repair true c no_files has_db = coverage_error-none c no_files has_db
error_of-none true post_repair false c no_files has_db = refl
error_of-none true post_repair true c no_files has_db = coverage_error-none c no_files has_db
error_of-none true periodic false c no_files has_db = coverage_error-none c no_files has_db
error_of-none true periodic true c no_files has_db = coverage_error-none c no_files has_db
error_of-none true manual false c no_files has_db = coverage_error-none c no_files has_db
error_of-none true manual true c no_files has_db = coverage_error-none c no_files has_db

pub error-is_consistent :
    (s : BackupSnapshot) → is_some (snapshot_consistency_error s) ≡ not (is_consistent s)
unfolding snapshot_consistency_error
error-is_consistent s =
    error_of-none (is_json_path s.manifest_path) s.kind (is_some s.repair_run_id) s.coverage
      (is_empty s.file_artifacts) (is_some s.db_artifact)

not-not : (b : Bool) → not (not b) ≡ b
not-not true = refl
not-not false = refl

fails_and : (a b p q : Bool) → a ≡ not p → b ≡ not q → (a || b) ≡ not (p && q)
fails_and a b p q e f = ground arith

module _ (platform : Platform) (root : PurePosixPath) (error_text : PyError → String) where
  -- The manifest is read, parsed and consistent.
  abbrev pub is_sound : Result BackupSnapshot → Bool
  is_sound (raised e) = false
  is_sound (ok s) = is_consistent s

  abbrev has_failure : List CheckResult → Bool
  has_failure checks = contains (check_statuses checks) fail

  check-fails :
      (s : BackupSnapshot) (o : Option String)
      → ((consistency_check platform root error_text s o).status == fail) ≡ is_some o
  check-fails s none = refl
  check-fails s (some e) = refl

  manifest-fails :
      (name : String) (r : Result BackupSnapshot)
      → let (check, valid) = manifest_check platform root error_text name r in
        ((check.status == fail) ≡ not (is_sound r)) × (valid ≡ is_sound r)
  manifest-fails name (raised e) = (refl, refl)
  manifest-fails name (ok s) =
      let e = error-is_consistent s in
      (check-fails s (snapshot_consistency_error s) ∙ e, ap not e ∙ not-not (is_consistent s))

  manifests-fail :
      (files : SnapshotFiles) (names : List String)
      → let (checks, valid) = manifest_checks platform root error_text files names in
        (has_failure checks
          ≡ not (all (λ name. is_sound (load_snapshot_from_path platform root name files)) names))
        × (valid ≡ all (λ name. is_sound (load_snapshot_from_path platform root name files)) names)
  manifests-fail files [] = (refl, refl)
  manifests-fail files (name ∷ names) =
      let (f, v) = manifest-fails name (load_snapshot_from_path platform root name files) in
      let (fs, vs) = manifests-fail files names in
      (fails_and _ _ _ _ f fs, ap₂ (λ a b. a && b) v vs)

  has_failure-integrity :
      (checks : List CheckResult) (valid : Bool)
      → has_failure
          (checks ++ (if valid then reference_integrity platform root error_text ∷ [] else []))
        ≡ has_failure checks
  has_failure-integrity [] true = refl
  has_failure-integrity [] false = refl
  has_failure-integrity (c ∷ checks) valid =
      ap (λ b. (c.status == fail) || b) (has_failure-integrity checks valid)

  paths-fail :
      (files : SnapshotFiles) (names : List String)
      → has_failure (checks_of_paths platform root error_text files names)
        ≡ not (all (λ name. is_sound (load_snapshot_from_path platform root name files)) names)
  paths-fail files [] = refl
  paths-fail files (name ∷ names) =
      has_failure-integrity (manifest_checks platform root error_text files (name ∷ names)).0
        (manifest_checks platform root error_text files (name ∷ names)).1
      ∙ (manifests-fail files (name ∷ names)).0

  -- A check of the snapshots fails exactly if some manifest cannot be read or parsed, or is not
  -- consistent: each snapshot holds files unless it covers the database only, and a database
  -- artifact unless it covers files only, names its run if it stands around a repair, and has a
  -- JSON file for its manifest.
  pub snapshot_checks-fail :
      (files : SnapshotFiles)
      → contains (check_statuses (snapshot_checks platform root error_text files)) fail
        ≡ not (
            all
              (λ name. is_sound (load_snapshot_from_path platform root name files))
              (list_snapshot_manifest_paths platform root files))
  unfolding snapshot_checks
  snapshot_checks-fail files = paths-fail files (list_snapshot_manifest_paths platform root files)
