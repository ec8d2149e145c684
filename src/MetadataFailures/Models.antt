-- ===== src/MetadataFailures/Models.antt =====
-- Diagnostics, repair actions and their reports (immich_doctor/runtime/metadata_failures/models.py).
use immich_doctor.Base.{
  ℕ, String, Bool, not, ◌||◌, Option, List, [], ◌∷◌, map, any, is_empty, contains, Eq, eq_of,
  if◌then◌else◌,
}
use immich_doctor.Core.Value.{Fields}
use immich_doctor.Core.Models.{
  CheckStatus, pass, fail, warn, skip, check_status_eq, CheckResult, check_statuses, exit_code_of,
}
use immich_doctor.Integrity.Models.{
  FileIntegrityFinding, FileIntegritySummaryItem, ranked_inspection,
}

pub data MetadataFailureCause : Type 0 where
  caused_by_missing_file caused_by_empty_file caused_by_corrupted_file caused_by_permission_error
        caused_by_path_mismatch caused_by_unsupported_format caused_by_runtime_tooling_error
        immich_bug_suspected unknown :
      MetadataFailureCause

abbrev pub metadata_failure_cause_discrete : Discrete MetadataFailureCause
metadata_failure_cause_discrete = hlevel

instance abbrev pub metadata_failure_cause_eq : Eq MetadataFailureCause
metadata_failure_cause_eq = eq_of metadata_failure_cause_discrete

unfoldable pub metadata_failure_cause_value : MetadataFailureCause → String
metadata_failure_cause_value caused_by_missing_file = "CAUSED_BY_MISSING_FILE"
metadata_failure_cause_value caused_by_empty_file = "CAUSED_BY_EMPTY_FILE"
metadata_failure_cause_value caused_by_corrupted_file = "CAUSED_BY_CORRUPTED_FILE"
metadata_failure_cause_value caused_by_permission_error = "CAUSED_BY_PERMISSION_ERROR"
metadata_failure_cause_value caused_by_path_mismatch = "CAUSED_BY_PATH_MISMATCH"
metadata_failure_cause_value caused_by_unsupported_format = "CAUSED_BY_UNSUPPORTED_FORMAT"
metadata_failure_cause_value caused_by_runtime_tooling_error = "CAUSED_BY_RUNTIME_TOOLING_ERROR"
metadata_failure_cause_value immich_bug_suspected = "IMMICH_BUG_SUSPECTED"
metadata_failure_cause_value unknown = "UNKNOWN"

pub data MetadataFailureLevel : Type 0 where
  primary secondary : MetadataFailureLevel

abbrev pub metadata_failure_level_discrete : Discrete MetadataFailureLevel
metadata_failure_level_discrete = hlevel

instance abbrev pub metadata_failure_level_eq : Eq MetadataFailureLevel
metadata_failure_level_eq = eq_of metadata_failure_level_discrete

unfoldable pub metadata_failure_level_value : MetadataFailureLevel → String
metadata_failure_level_value primary = "primary"
metadata_failure_level_value secondary = "secondary"

pub data SuggestedAction : Type 0 where
  report_only retry_jobs requeue fix_permissions quarantine_corrupt mark_unrecoverable
        inspect_runtime_tooling dangerous_unknown :
      SuggestedAction

abbrev pub suggested_action_discrete : Discrete SuggestedAction
suggested_action_discrete = hlevel

instance abbrev pub suggested_action_eq : Eq SuggestedAction
suggested_action_eq = eq_of suggested_action_discrete

unfoldable pub suggested_action_value : SuggestedAction → String
suggested_action_value report_only = "report_only"
suggested_action_value retry_jobs = "retry_jobs"
suggested_action_value requeue = "requeue"
suggested_action_value fix_permissions = "fix_permissions"
suggested_action_value quarantine_corrupt = "quarantine_corrupt"
suggested_action_value mark_unrecoverable = "mark_unrecoverable"
suggested_action_value inspect_runtime_tooling = "inspect_runtime_tooling"
suggested_action_value dangerous_unknown = "dangerous_unknown"

pub data ConfidenceLevel : Type 0 where
  high medium low : ConfidenceLevel

abbrev pub confidence_level_discrete : Discrete ConfidenceLevel
confidence_level_discrete = hlevel

instance abbrev pub confidence_level_eq : Eq ConfidenceLevel
confidence_level_eq = eq_of confidence_level_discrete

unfoldable pub confidence_level_value : ConfidenceLevel → String
confidence_level_value high = "high"
confidence_level_value medium = "medium"
confidence_level_value low = "low"

pub data MetadataRepairStatus : Type 0 where
  detected planned repaired skipped failed : MetadataRepairStatus

abbrev pub metadata_repair_status_discrete : Discrete MetadataRepairStatus
metadata_repair_status_discrete = hlevel

instance abbrev pub metadata_repair_status_eq : Eq MetadataRepairStatus
metadata_repair_status_eq = eq_of metadata_repair_status_discrete

unfoldable pub metadata_repair_status_value : MetadataRepairStatus → String
metadata_repair_status_value detected = "detected"
metadata_repair_status_value planned = "planned"
metadata_repair_status_value repaired = "repaired"
metadata_repair_status_value skipped = "skipped"
metadata_repair_status_value failed = "failed"

pub record MetadataFailureDiagnostic : Type 0 where
  pub diagnostic_id : String
  pub asset_id : String
  pub job_name : String
  pub root_cause : MetadataFailureCause
  pub failure_level : MetadataFailureLevel
  pub suggested_action : SuggestedAction
  pub confidence : ConfidenceLevel
  pub source_path : String
  pub source_file_status : String
  pub source_message : String
  pub available_actions : List SuggestedAction
  pub file_findings : List FileIntegrityFinding
  pub details : Fields

pub record MetadataFailureSummaryItem : Type 0 where
  pub root_cause : MetadataFailureCause
  pub count : ℕ

pub record MetadataRepairAction : Type 0 where
  pub action : SuggestedAction
  pub diagnostic_id : String
  pub status : MetadataRepairStatus
  pub reason : String
  pub path : String
  pub supports_apply : Bool
  pub dry_run : Bool
  pub applied : Bool
  pub details : Fields

pub record MetadataFailureInspectResult : Type 0 where
  pub domain : String
  pub action : String
  pub summary : String
  pub checks : List CheckResult
  pub integrity_summary : List FileIntegritySummaryItem
  pub metadata_summary : List MetadataFailureSummaryItem
  pub diagnostics : List MetadataFailureDiagnostic
  pub recommendations : List String
  pub metadata : Fields
  pub generated_at : String

pub record MetadataFailureRepairResult : Type 0 where
  pub domain : String
  pub action : String
  pub summary : String
  pub checks : List CheckResult
  pub diagnostics : List MetadataFailureDiagnostic
  pub repair_actions : List MetadataRepairAction
  pub post_validation : Option MetadataFailureInspectResult
  pub recommendations : List String
  pub metadata : Fields
  pub generated_at : String

abbrev pub failing_causes : List MetadataFailureCause
failing_causes =
    caused_by_missing_file ∷ caused_by_empty_file ∷ caused_by_corrupted_file
    ∷ caused_by_permission_error ∷ caused_by_path_mismatch ∷ []

unfoldable pub inspect_overall_status : MetadataFailureInspectResult → CheckStatus
unfolding ranked_inspection
inspect_overall_status r =
    let statuses = check_statuses r.checks in
    ranked_inspection (is_empty r.diagnostics) (
      if not (is_empty r.diagnostics)
      then (if any (λ d. contains failing_causes d.root_cause) r.diagnostics then fail else warn)
        ∷ statuses
      else statuses)

unfoldable pub inspect_exit_code : MetadataFailureInspectResult → ℕ
unfolding exit_code_of
inspect_exit_code r = exit_code_of (inspect_overall_status r)

unfoldable pub repair_overall_status : MetadataFailureRepairResult → CheckStatus
repair_overall_status r =
    let statuses = check_statuses r.checks in
    let action_statuses = map (λ (a : MetadataRepairAction). a.status) r.repair_actions in
    if contains action_statuses failed || contains statuses fail
    then fail
    else if contains action_statuses repaired
    then pass
    else if contains action_statuses planned
    then warn
    else if contains action_statuses skipped
    then skip
    else if not (is_empty r.diagnostics)
    then pass
    else skip

unfoldable pub repair_exit_code : MetadataFailureRepairResult → ℕ
unfolding exit_code_of
repair_exit_code r = exit_code_of (repair_overall_status r)
