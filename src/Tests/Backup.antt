-- ===== src/Tests/Backup.antt =====
-- Snapshots, their verification and the simulation of a restore at concrete data.
use immich_doctor.Base.{
  String, ◌≡◌, refl, true, false, not, none, some, [], ◌∷◌, all, contains, ◌==◌, string_eq,
  if◌then◌else◌,
}
use immich_doctor.Core.Models.{fail, check_status_eq, check_statuses}
use immich_doctor.Effects.Result.{PyError, ok}
use immich_doctor.Storage.Text.{text_ends_with, has_infix}
use immich_doctor.Storage.PosixPath.{PathRoot, PurePosixPath}
use immich_doctor.Backup.Models.{
  BackupSnapshot, BackupArtifact, manual, files_only, paired, snapshot_kind_value, snapshot_kind_of,
  snapshot_coverage_value, snapshot_coverage_of, target_to_dict, artifact_to_dict, snapshot_to_dict,
  argument, target_from_dict, artifact_from_dict, snapshot_from_dict,
}
use immich_doctor.Backup.Store.{
  SnapshotFiles, persist_snapshot, load_snapshot_from_path, load_snapshot,
  list_snapshot_manifest_paths, list_snapshots,
}
use immich_doctor.Backup.Store.Persisted.{placed, persisted, load-persist}
use immich_doctor.Backup.Verify.{
  is_json_path, snapshot_consistency_error, manifest_stem, snapshot_checks, verify_backups,
}
use immich_doctor.Backup.Verify.Sound.{is_sound, snapshot_checks-fail}
use immich_doctor.Backup.Restore.{
  RestoreRequest, restore_blockers, simulate_snapshot, simulate_restore,
}
use immich_doctor.Backup.Instructions.{
  restore_overall_status, restore_exit_code, detect_restore_instruction_profile,
  build_restore_instructions, blocked,
}
use immich_doctor.Backup.Restore.Ready.{blocker_codes, simulate-verified}
use immich_doctor.Tests.Code.{repair_code}
use immich_doctor.Tests.Platform.{plain}
use immich_doctor.Tests.Storage.{storage_code, absolute_of}

backup_code : Unit {0}
unfolding repair_code storage_code text_ends_with has_infix snapshot_kind_value snapshot_kind_of
    snapshot_coverage_value snapshot_coverage_of target_to_dict artifact_to_dict snapshot_to_dict
    argument target_from_dict artifact_from_dict snapshot_from_dict persist_snapshot
    load_snapshot_from_path load_snapshot list_snapshot_manifest_paths list_snapshots is_json_path
    snapshot_consistency_error manifest_stem snapshot_checks verify_backups restore_overall_status
    restore_exit_code detect_restore_instruction_profile build_restore_instructions restore_blockers
    simulate_snapshot simulate_restore
backup_code = tt

abbrev dump : BackupArtifact
dump = record {
  name = "database";
  kind = "database_dump";
  target = record {
    kind = "local";
    reference = "/backup";
    display_name = "Backup";
    writable_required = true;
  };
  relative_path = record { root = PathRoot.relative; names = "db" ∷ "dump.sql" ∷ [] };
  size_bytes = some 5;
  checksum = none;
}

abbrev manifests : PurePosixPath
manifests = absolute_of ("manifests" ∷ "snapshots" ∷ [])

abbrev full_snapshot : BackupSnapshot
full_snapshot = record {
  snapshot_id = "s1";
  kind = manual;
  created_at = 4;
  source_fingerprint = "f";
  coverage = paired;
  file_artifacts = dump ∷ [];
  db_artifact = some dump;
  manifest_path = absolute_of ("manifests" ∷ "snapshots" ∷ "s1.json" ∷ []);
  verified = false;
  repair_run_id = none;
}

abbrev no_text : PyError → String
no_text e = ""

abbrev stored : SnapshotFiles
stored = persisted plain manifests full_snapshot []

load-persist_example :
    ((persist_snapshot plain manifests full_snapshot []).0
      ≡ ok (placed plain manifests full_snapshot []))
    × (load_snapshot plain manifests "s1" stored ≡ ok full_snapshot)
    × (load_snapshot_from_path plain manifests "s2.json" stored ≡ (
        if ◌==◌ {A = String} "s1.json" "s2.json"
        then ok full_snapshot
        else load_snapshot_from_path plain manifests "s2.json" []))
unfolding backup_code
load-persist_example =
    load-persist plain manifests full_snapshot [] "s2.json" refl
      (
        (((refl, refl), ((refl, refl), tt)), tt),
        ((refl, refl), ((refl, refl), tt)),
        ((refl, refl), ((refl, refl), ((refl, refl), tt))),
      )
      ((refl, refl), ((refl, refl), ((refl, refl), tt)))

snapshot_checks-fail_example :
    contains (check_statuses (snapshot_checks plain manifests no_text stored)) fail
    ≡ not (
        all
          (λ name.
            is_sound plain manifests no_text (load_snapshot_from_path plain manifests name stored))
          (list_snapshot_manifest_paths plain manifests stored))
snapshot_checks-fail_example = snapshot_checks-fail plain manifests no_text stored

abbrev restore_s1 : RestoreRequest
restore_s1 = record { snapshot_id = some "s1"; repair_run_id = none }

-- The database is not in it.
abbrev files_snapshot : BackupSnapshot
files_snapshot = record full_snapshot { coverage = files_only; db_artifact = none }

simulate-verified_example :
    (blocker_codes (simulate_snapshot "docker" none restore_s1 files_snapshot "manual")
      ≡ "snapshot_coverage_insufficient" ∷ "missing_db_artifact" ∷ [])
    × ((simulate_snapshot "docker" none restore_s1 files_snapshot "manual").readiness ≡ blocked)
    × (restore_exit_code (simulate_snapshot "docker" none restore_s1 files_snapshot "manual") ≡ 1)
unfolding backup_code
simulate-verified_example = simulate-verified "docker" none restore_s1 files_snapshot "manual" refl
