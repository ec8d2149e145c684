-- ===== src/Backup/Verify.antt =====
-- The verification of snapshot manifests (immich_doctor/backup/verify/service.py).
pub mod Sound
use immich_doctor.Base.{
  ℕ, String, Bool, true, false, not, ◌&&◌, ◌||◌, Option, none, some, List, [], ◌∷◌, ◌++◌, ◌<>◌, map,
  is_empty, length, contains, decimal, ◌==◌, ◌!=◌, string_eq, if◌then◌else◌,
}
use Prim.Native.Char.{Char}
use immich_doctor.Core.Value.{Fields, end, field, int, str, optional_text}
use immich_doctor.Core.Models.{CheckResult, CheckStatus, pass, fail, skip, ValidationReport}
use immich_doctor.Effects.Result.{PyError, Result, ok, raised}
use immich_doctor.Effects.World.{Platform}
use immich_doctor.Storage.Text.{text_ends_with}
use immich_doctor.Storage.PosixPath.{PurePosixPath, as_posix, join_path}
use immich_doctor.Catalog.Snapshots.{is_some}
use immich_doctor.Backup.Models.{
  SnapshotKind, pre_repair, post_repair, periodic, manual, SnapshotCoverage, files_only, db_only,
  paired, snapshot_kind_eq, snapshot_coverage_eq, snapshot_kind_value, snapshot_coverage_value,
  BackupSnapshot,
}
use immich_doctor.Backup.Store.{
  SnapshotFiles, load_snapshot_from_path, list_snapshot_manifest_paths,
}

abbrev pub last_name : List String → String
last_name [] = ""
last_name (w ∷ []) = w
last_name (w ∷ v ∷ ws) = last_name (v ∷ ws)

-- `path.suffix == ".json"`: a name that is nothing but a suffix has none.
unfoldable pub is_json_path : PurePosixPath → Bool
unfolding text_ends_with
is_json_path path =
    let name = last_name path.names in text_ends_with name ".json" && name != ".json"

-- What the coverage asks of the artifacts.
abbrev pub coverage_error : SnapshotCoverage → Bool → Bool → Option String
coverage_error files_only no_files has_db =
    if no_files || has_db
    then some "Files-only snapshot must contain file artifacts and no db artifact."
    else none
coverage_error db_only no_files has_db =
    if not no_files || not has_db
    then some "DB-only snapshot must contain exactly one db artifact."
    else none
coverage_error paired no_files has_db =
    if no_files || not has_db
    then some "Paired snapshot must contain both file artifacts and a db artifact."
    else none

-- The guards of `snapshot_consistency_error`, in their order.
abbrev pub consistency_error_of :
    Bool → SnapshotKind → Bool → SnapshotCoverage → Bool → Bool → Option String
consistency_error_of is_json kind has_run coverage no_files has_db =
    if not is_json
    then some "Snapshot manifest path must point to a JSON file."
    else if contains (pre_repair ∷ post_repair ∷ []) kind && not has_run
    then some "Repair-classified snapshots must reference a repair run ID."
    else if not (contains (pre_repair ∷ post_repair ∷ periodic ∷ manual ∷ []) kind)
    then some "Snapshot kind is unsupported."
    else coverage_error coverage no_files has_db

unfoldable pub snapshot_consistency_error : BackupSnapshot → Option String
unfolding is_json_path
snapshot_consistency_error s =
    consistency_error_of (is_json_path s.manifest_path) s.kind (is_some s.repair_run_id) s.coverage
      (is_empty s.file_artifacts) (is_some s.db_artifact)

abbrev pub drop_suffix : Char → String → String → String
drop_suffix c s rest = if String.◌∷◌ c s == ".json" then "" else String.◌∷◌ c rest

abbrev pub before_suffix : String → String
before_suffix String.[] = ""
before_suffix (String.◌∷◌ c s) = drop_suffix c s (before_suffix s)

-- `path.stem` of a name that ends with `.json`
unfoldable pub manifest_stem : String → String
manifest_stem name = if name == ".json" then name else before_suffix name

-- `str(exc)` is a parameter.
module _ (platform : Platform) (root : PurePosixPath) (error_text : PyError → String) where
  abbrev pub unreadable_check : String → PyError → CheckResult
  unreadable_check name e = record {
    name = "backup_snapshot_manifest:" <> manifest_stem name;
    status = fail;
    message = "Snapshot manifest could not be parsed safely.";
    details =
        field "manifest_path" (str (as_posix (join_path root name)))
          (field "error" (str (error_text e)) end);
  }

  abbrev pub snapshot_details : BackupSnapshot → Fields → Fields
  snapshot_details s more = field "snapshot_id" (str s.snapshot_id) (
      field "kind" (str (snapshot_kind_value s.kind)) (
        field "coverage" (str (snapshot_coverage_value s.coverage))
          (field "manifest_path" (str (as_posix s.manifest_path)) more)))

  abbrev pub consistency_check : BackupSnapshot → Option String → CheckResult
  consistency_check s (some error) = record {
    name = "backup_snapshot:" <> s.snapshot_id;
    status = fail;
    message = error;
    details = snapshot_details s end;
  }
  consistency_check s none = record {
    name = "backup_snapshot:" <> s.snapshot_id;
    status = pass;
    message = "Snapshot manifest structure matches declared snapshot coverage.";
    details = snapshot_details s (field "repair_run_id" (optional_text s.repair_run_id) end);
  }

  -- The check of one manifest, and whether `valid` stays set.
  abbrev pub manifest_check : String → Result BackupSnapshot → CheckResult × Bool
  manifest_check name (raised e) = (unreadable_check name e, false)
  manifest_check name (ok s) =
      let error = snapshot_consistency_error s in (consistency_check s error, not (is_some error))

  abbrev pub manifest_checks : SnapshotFiles → List String → List CheckResult × Bool
  manifest_checks files [] = ([], true)
  manifest_checks files (name ∷ names) =
      let (check, valid) = manifest_check name (load_snapshot_from_path platform root name files) in
      let (checks, rest_valid) = manifest_checks files names in
      (check ∷ checks, valid && rest_valid)

  abbrev pub manifests_found : ℕ → CheckResult
  manifests_found count = record {
    name = "backup_snapshot_manifests";
    status = pass;
    message = "Found " <> decimal count <> " persisted backup snapshot manifests.";
    details = field "count" (int count) end;
  }

  abbrev pub no_manifests : CheckResult
  no_manifests = record {
    name = "backup_snapshot_manifests";
    status = skip;
    message = "No persisted backup snapshot manifests found yet.";
    details = end;
  }

  abbrev pub reference_integrity : CheckResult
  reference_integrity = record {
    name = "backup_snapshot_reference_integrity";
    status = pass;
    message = "Snapshot manifests passed current manifest-structure checks.";
    details = end;
  }

  abbrev pub checks_of_paths : SnapshotFiles → List String → List CheckResult
  checks_of_paths files [] = no_manifests ∷ []
  checks_of_paths files (name ∷ names) =
      let (checks, valid) = manifest_checks files (name ∷ names) in
      manifests_found (length (name ∷ names))
      ∷ (checks ++ (if valid then reference_integrity ∷ [] else []))

  -- `_snapshot_checks`
  unfoldable pub snapshot_checks : SnapshotFiles → List CheckResult
  unfolding list_snapshot_manifest_paths load_snapshot_from_path snapshot_consistency_error
  snapshot_checks files = checks_of_paths files (list_snapshot_manifest_paths platform root files)

  -- `run`: what the adapters check is a parameter, and with no target only the tools are checked.
  abbrev pub target_check : Option PurePosixPath → CheckResult
  target_check none = record {
    name = "backup_target_configured";
    status = fail;
    message = "Backup target path is not configured.";
    details = end;
  }
  target_check (some path) = record {
    name = "backup_target_configured";
    status = pass;
    message = "Backup target path is configured.";
    details = field "path" (str (as_posix path)) end;
  }

  abbrev pub no_tools_check : CheckResult
  no_tools_check = record {
    name = "required_external_tools";
    status = skip;
    message = "No required external tools configured.";
    details = end;
  }

  abbrev pub target_checks :
      Option PurePosixPath → List CheckResult → SnapshotFiles → List CheckResult
  target_checks none directory_checks files = target_check none ∷ []
  target_checks (some path) directory_checks files =
      target_check (some path) ∷ (directory_checks ++ snapshot_checks files)

  unfoldable pub verify_backups :
      Option PurePosixPath
      → List CheckResult
      → List String
      → (List String → List CheckResult)
      → SnapshotFiles
      → String
      → ℕ
      → ValidationReport
  unfolding snapshot_checks
  verify_backups target directory_checks tools tool_checks files environment generated_at = record {
    domain = "backup";
    action = "verify";
    summary =
        "Backup verification completed for current target-readiness and "
        <> "snapshot-manifest checks.";
    checks =
        target_checks target directory_checks files
        ++ (if is_empty tools then no_tools_check ∷ [] else tool_checks tools);
    sections = [];
    metrics = [];
    recommendations = [];
    metadata = field "environment" (str environment) end;
    generated_at = generated_at;
  }
