-- ===== src/Tests/Metadata.antt =====
-- The metadata repair at concrete data.
use immich_doctor.Base.{String, ◌≡◌, refl, Bool, true, false, none, List, [], ◌∷◌, All, string_eq}
use immich_doctor.Core.Value.{end}
use immich_doctor.Core.Models.{pass}
use immich_doctor.Effects.Result.{PyError, ok}
use immich_doctor.Effects.World.{M}
use immich_doctor.Effects.Within.{Within}
use immich_doctor.Repair.Models.{
  RepairRun, RepairRunStatus, RepairJournalEntry, RepairJournalEntryStatus,
}
use immich_doctor.Repair.Store.{load_journal_entries}
use immich_doctor.Repair.Undo.Restore.{execute_entry}
use immich_doctor.Repair.Undo.Plan.Eligible.{IsUndoable}
use immich_doctor.MetadataFailures.Models.{
  caused_by_permission_error, secondary, high, SuggestedAction, MetadataFailureDiagnostic,
  MetadataRepairAction, MetadataFailureInspectResult,
}
use immich_doctor.MetadataFailures.Diagnose.{diagnose, inspect_result}
use immich_doctor.Integrity.Installation.{Installation}
use immich_doctor.MetadataFailures.Diagnose.Actions.{Offers, diagnose-Offers}
use immich_doctor.MetadataFailures.Repair.{apply_permission_fix, action_entry, record_action}
use immich_doctor.MetadataFailures.Repair.Undone.{
  apply_permission_fix-undone, apply_permission_fix-IsUndoable,
}
use immich_doctor.MetadataFailures.Repair.Bounded.{KeepsFile}
use immich_doctor.MetadataFailures.Run.{guard, guarded_apply, act, run}
use immich_doctor.MetadataFailures.Scope.{
  BackupResult, Request, Prepared, db_fingerprint, file_fingerprint,
}
use immich_doctor.MetadataFailures.Run.Bounded.{act-keeps, run-dry}
use immich_doctor.MetadataFailures.Run.Refused.{
  IsRefused, guarded_apply-drifted, guarded_apply-unsaved,
}
use immich_doctor.Tests.Integrity.{jpeg_inspection, photos, rows, files}
use immich_doctor.Tests.MetadataCode.{metadata_code}
use immich_doctor.Tests.Platform.{plain}

abbrev message : PyError → String
message e = "error"

abbrev locked : MetadataFailureDiagnostic
locked = record {
  diagnostic_id = "metadata_failure:2";
  asset_id = "2";
  job_name = "metadata_extraction";
  root_cause = caused_by_permission_error;
  failure_level = secondary;
  suggested_action = SuggestedAction.fix_permissions;
  confidence = high;
  source_path = "/locked.jpg";
  source_file_status = "FILE_PERMISSION_DENIED";
  source_message = "";
  available_actions = SuggestedAction.fix_permissions ∷ SuggestedAction.report_only ∷ [];
  file_findings = [];
  details = end;
}

abbrev running : RepairRun
running = record {
  repair_run_id = "run";
  started_at = "s";
  ended_at = none;
  scope = end;
  status = RepairRunStatus.running;
  live_state_fingerprint = "f";
  plan_token_id = "t";
  pre_repair_snapshot_id = none;
  post_repair_snapshot_id = none;
}

apply_permission_fix-undone_example :
    (a : MetadataRepairAction) × ((apply_permission_fix plain message locked photos).0 ≡ ok a)
    × (a.applied ≡ true)
    × ((q : String)
        → (execute_entry plain running
              (action_entry "e" "c" running RepairJournalEntryStatus.applied locked a)
              (apply_permission_fix plain message locked photos).1).1.files
            q
          ≡ photos.files q)
unfolding metadata_code
apply_permission_fix-undone_example =
    apply_permission_fix-undone plain message locked 0o100200 photos refl running running "e" "c"
      (apply_permission_fix plain message locked photos).1 refl

apply_permission_fix-IsUndoable_example :
    (a : MetadataRepairAction) × ((apply_permission_fix plain message locked photos).0 ≡ ok a)
    × (e : RepairJournalEntry) × ((load_journal_entries running.repair_run_id
          (record_action plain running locked a
            (apply_permission_fix plain message locked photos).1).1).0
        ≡ ok (e ∷ []))
    × IsUndoable plain (apply_permission_fix plain message locked photos).1 e
unfolding metadata_code
apply_permission_fix-IsUndoable_example =
    apply_permission_fix-IsUndoable plain message locked 0o100200 photos refl refl running
      (apply_permission_fix plain message locked photos).1 {es = []} refl refl

abbrev no_database : Installation
no_database = record {
  environment = "test";
  manifests_path = "/manifests";
  postgres_dsn = none;
  has_library_root = false;
  is_absolute = λ p. true;
  library_holds = λ w p. true;
  validate_connection =
      λ w. record { name = "postgres_connection"; status = pass; message = ""; details = end };
  missing = λ w. none;
  ffprobe_available = λ w. true;
  assets = λ w n o. rows;
  candidates = λ w n o. rows;
  asset_files = λ w ids. files;
}

abbrev request : Bool → Request
request apply = record {
  apply = apply;
  limit = none;
  offset = 0;
  diagnostic_ids = [];
  flags = record {
    retry_jobs = false;
    requeue = false;
    fix_permissions = true;
    quarantine_corrupt = false;
    mark_unrecoverable = false;
  };
}

diagnose-Offers_example : All Offers (diagnose no_database jpeg_inspection photos rows files)
diagnose-Offers_example = diagnose-Offers no_database jpeg_inspection photos rows files

abbrev failing_backup : String → String → M BackupResult
failing_backup id fingerprint w = (
  ok (record { status = "fail"; summary = ""; warnings = []; details = end; snapshot = none }),
  w,
)

run-dry_example :
    (run plain no_database jpeg_inspection (request false) failing_backup photos).1.files
      "/locked.jpg"
    ≡ photos.files "/locked.jpg"
run-dry_example =
    run-dry plain no_database jpeg_inspection (request false) failing_backup refl photos
      "/locked.jpg"

abbrev nothing_found : MetadataFailureInspectResult
nothing_found = inspect_result no_database jpeg_inspection photos none 0 "now"

-- Prepared with a token that is bound to some fingerprint of the database.
abbrev prepared : String → List MetadataFailureDiagnostic → Prepared
prepared fingerprint diagnostics = record {
  inspected = nothing_found;
  diagnostics = diagnostics;
  scope = end;
  plan_token = record {
    token_id = "t";
    created_at = "c";
    scope = end;
    db_fingerprint = fingerprint;
    file_fingerprint = file_fingerprint plain [];
    expires_at = none;
  };
  repair_run = running;
  selected = SuggestedAction.fix_permissions ∷ [];
}

act-keeps_example : Within (KeepsFile "/a.jpg") (
    act plain no_database jpeg_inspection
      (request true)
      (prepared "d" (locked ∷ []))
      running
      []
      (record { name = "pre_repair_snapshot"; status = pass; message = ""; details = end }))
unfolding metadata_code
act-keeps_example =
    act-keeps "/a.jpg" plain no_database jpeg_inspection (request true) (prepared "d" (locked ∷ []))
      running []
      (record { name = "pre_repair_snapshot"; status = pass; message = ""; details = end })
      (refl, tt)

guarded_apply-drifted_example :
    IsRefused
      (prepared "d" [])
      photos
      (guarded_apply plain no_database jpeg_inspection
        (request true)
        failing_backup
        (prepared "d" [])
        photos).1
unfolding metadata_code
guarded_apply-drifted_example =
    guarded_apply-drifted plain no_database jpeg_inspection (request true) failing_backup
      (prepared "d" []) photos refl refl

guarded_apply-unsaved_example :
    IsRefused
      (prepared (db_fingerprint plain []) [])
      (guard plain no_database jpeg_inspection
        (request true)
        (prepared (db_fingerprint plain []) [])
        photos).1
      (guarded_apply plain no_database jpeg_inspection
        (request true)
        failing_backup
        (prepared (db_fingerprint plain []) [])
        photos).1
unfolding metadata_code
guarded_apply-unsaved_example =
    guarded_apply-unsaved plain no_database jpeg_inspection (request true) failing_backup
      (prepared (db_fingerprint plain []) []) photos _ refl refl refl refl
