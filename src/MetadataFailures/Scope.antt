-- ===== src/MetadataFailures/Scope.antt =====
-- The scope of a repair, its fingerprints and its checks
-- (immich_doctor/runtime/metadata_failures/repair_service.py).
use immich_doctor.Base.{ℕ, String, Bool, Option, List, [], ◌∷◌, map, string_eq, if◌then◌else◌}
use immich_doctor.Core.Value.{
  bool, int, str, optional_int, Fields, end, field, object, array, texts, items,
}
use immich_doctor.Core.Models.{CheckResult, pass, fail, skip}
use immich_doctor.Effects.World.{Platform}
use immich_doctor.Repair.Guards.{fingerprint_payload, ApplyGuardResult}
use immich_doctor.Repair.Models.{RepairRun, PlanToken}
use immich_doctor.Integrity.Models.{finding_to_dict}
use immich_doctor.MetadataFailures.Models.{
  SuggestedAction, suggested_action_eq, metadata_failure_cause_value, metadata_repair_status_eq,
  MetadataFailureDiagnostic, MetadataFailureInspectResult,
}
use immich_doctor.MetadataFailures.Repair.{RepairFlags}

-- Of the backup's result, what the repair reads.
pub record Snapshot : Type 0 where
  pub snapshot_id : String
  pub kind : String
  pub manifest_path : String
  pub coverage : String

pub record BackupResult : Type 0 where
  pub status : String
  pub summary : String
  pub warnings : List String
  pub details : Fields
  pub snapshot : Option Snapshot

-- The arguments of a repair.
pub record Request : Type 0 where
  pub apply : Bool
  pub limit : Option ℕ
  pub offset : ℕ
  pub diagnostic_ids : List String
  pub flags : RepairFlags

unfoldable pub build_scope : Request → List MetadataFailureDiagnostic → Fields
build_scope q diagnostics = field "domain" (str "runtime.metadata_failures") (
    field "action" (str "repair") (
      field "apply" (bool q.apply) (
        field "limit" (optional_int q.limit) (
          field "offset" (int q.offset) (
            field "diagnostic_ids" (array (texts q.diagnostic_ids)) (
              field "selected_diagnostics"
                (array
                  (texts (map (λ (d : MetadataFailureDiagnostic). d.diagnostic_id) diagnostics)))
                end))))))

-- The set of the actions to take, where no flag is given those that the diagnostics suggest.
unfoldable pub actions_to_take :
    List SuggestedAction → List MetadataFailureDiagnostic → List SuggestedAction
actions_to_take [] diagnostics =
    map (λ (d : MetadataFailureDiagnostic). d.suggested_action) diagnostics
actions_to_take (a ∷ l) diagnostics = a ∷ l

-- The actions in the order of their values.
abbrev pub sorted_actions : List SuggestedAction
sorted_actions =
    SuggestedAction.dangerous_unknown ∷ SuggestedAction.fix_permissions
    ∷ SuggestedAction.inspect_runtime_tooling ∷ SuggestedAction.mark_unrecoverable
    ∷ SuggestedAction.quarantine_corrupt ∷ SuggestedAction.report_only ∷ SuggestedAction.requeue
    ∷ SuggestedAction.retry_jobs ∷ []

unfoldable pub repair_guard_check : ApplyGuardResult → CheckResult
repair_guard_check guard = record {
  name = "repair_apply_guard";
  status = if guard.valid then pass else fail;
  message = guard.reason;
  details = field "valid" (bool guard.valid) (
      field "reason" (str guard.reason) (
        field "token_id" (str guard.token_id) (
          field "expected_db_fingerprint" (str guard.expected_db_fingerprint) (
            field "expected_file_fingerprint" (str guard.expected_file_fingerprint) (
              field "actual_db_fingerprint" (str guard.actual_db_fingerprint)
                (field "actual_file_fingerprint" (str guard.actual_file_fingerprint) end))))));
}

abbrev pub snapshot_refused : BackupResult → CheckResult
snapshot_refused r = record {
  name = "pre_repair_snapshot";
  status = fail;
  message = "Pre-repair snapshot creation failed. Apply stopped before mutating files.";
  details =
      field "summary" (str r.summary)
        (field "warnings" (array (texts r.warnings)) (field "details" (object r.details) end));
}

abbrev pub snapshot_taken : Snapshot → CheckResult
snapshot_taken s = record {
  name = "pre_repair_snapshot";
  status = pass;
  message = "Pre-repair snapshot metadata was created before apply.";
  details = field "snapshot_id" (str s.snapshot_id) (
      field "snapshot_kind" (str s.kind) (
        field "snapshot_manifest_path" (str s.manifest_path)
          (field "coverage" (str s.coverage) end)));
}

abbrev pub snapshot_skipped : CheckResult
snapshot_skipped = record {
  name = "pre_repair_snapshot";
  status = skip;
  message = "Pre-repair snapshot creation is only attempted during apply.";
  details = end;
}

abbrev pub scope_check : CheckResult
scope_check = record {
  name = "repair_scope";
  status = pass;
  message =
      "Repair planning is dry-run by default. Only explicit permission fixes are currently apply-capable.";
  details = end;
}

module _ (platform : Platform) where
  unfoldable pub db_fingerprint : List MetadataFailureDiagnostic → String
  db_fingerprint diagnostics = fingerprint_payload platform (
      array (
        items (
          map
            (λ (d : MetadataFailureDiagnostic). object (
              field "diagnostic_id" (str d.diagnostic_id) (
                field "asset_id" (str d.asset_id) (
                  field "job_name" (str d.job_name)
                    (field "root_cause" (str (metadata_failure_cause_value d.root_cause)) end)))))
            diagnostics)))

  unfoldable pub file_fingerprint : List MetadataFailureDiagnostic → String
  file_fingerprint diagnostics = fingerprint_payload platform (
      array (
        items (
          map
            (λ (d : MetadataFailureDiagnostic). object (
              field "diagnostic_id" (str d.diagnostic_id) (
                field "source_path" (str d.source_path) (
                  field "source_file_status" (str d.source_file_status) (
                    field "file_findings"
                      (array (items (map (λ f. object (finding_to_dict f)) d.file_findings)))
                      end)))))
            diagnostics)))

-- What a repair has set up before it acts.
pub record Prepared : Type 0 where
  pub inspected : MetadataFailureInspectResult
  pub diagnostics : List MetadataFailureDiagnostic
  pub scope : Fields
  pub plan_token : PlanToken
  pub repair_run : RepairRun
  pub selected : List SuggestedAction
