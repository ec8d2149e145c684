-- ===== src/MetadataFailures/Causes.antt =====
-- Root causes, and the texts on them (immich_doctor/runtime/metadata_failures/service.py).
use immich_doctor.Base.{
  String, ◌<>◌, Bool, true, false, ◌||◌, Option, none, some, List, [], ◌∷◌, length, count_by,
  filter_by, decimal, nat_eq, string_eq, ◌==◌, ◌!=◌, if◌then◌else◌,
}
use immich_doctor.Core.Value.{Value, str, Fields, end}
use immich_doctor.Core.Models.{CheckResult, check_status_eq, pass, warn, skip}
use immich_doctor.Integrity.Models.{
  FileIntegrityStatus, file_ok, file_missing, file_empty, file_permission_denied, file_truncated,
  file_container_broken, file_corrupted, file_type_mismatch, source, file_role_eq,
  FileIntegrityFinding,
}
use immich_doctor.MetadataFailures.Models.{
  MetadataFailureCause, caused_by_missing_file, caused_by_empty_file, caused_by_corrupted_file,
  caused_by_permission_error, caused_by_path_mismatch, caused_by_unsupported_format,
  caused_by_runtime_tooling_error, immich_bug_suspected, metadata_failure_cause_eq,
  MetadataFailureLevel, primary, secondary, SuggestedAction, report_only, retry_jobs, requeue,
  fix_permissions, quarantine_corrupt, mark_unrecoverable, inspect_runtime_tooling,
  dangerous_unknown, ConfidenceLevel, high, medium, low, MetadataFailureDiagnostic,
  MetadataFailureSummaryItem,
}

pub record Classification : Type 0 where
  pub root_cause : MetadataFailureCause
  pub failure_level : MetadataFailureLevel
  pub suggested_action : SuggestedAction
  pub confidence : ConfidenceLevel

abbrev pub class :
    MetadataFailureCause → MetadataFailureLevel → SuggestedAction → ConfidenceLevel → Classification
class c l a k = record { root_cause = c; failure_level = l; suggested_action = a; confidence = k }

unfoldable pub available_actions : MetadataFailureCause → List SuggestedAction
available_actions caused_by_missing_file = report_only ∷ mark_unrecoverable ∷ []
available_actions caused_by_empty_file = report_only ∷ mark_unrecoverable ∷ []
available_actions caused_by_corrupted_file = report_only ∷ quarantine_corrupt ∷ []
available_actions caused_by_permission_error = fix_permissions ∷ report_only ∷ []
available_actions caused_by_path_mismatch = report_only ∷ []
available_actions caused_by_unsupported_format = report_only ∷ mark_unrecoverable ∷ []
available_actions caused_by_runtime_tooling_error = inspect_runtime_tooling ∷ report_only ∷ []
available_actions immich_bug_suspected = retry_jobs ∷ requeue ∷ report_only ∷ []
available_actions MetadataFailureCause.unknown = dangerous_unknown ∷ []

-- From `source_finding.details.get("probe_error_category")` on.
abbrev pub is_tooling_error : Option Value → Bool
is_tooling_error (some (str c)) = c == "tool_missing" || c == "runtime_tooling_error"
is_tooling_error _ = false

abbrev pub unexplained : Bool → FileIntegrityStatus → Classification
unexplained true _ = class caused_by_runtime_tooling_error primary inspect_runtime_tooling medium
unexplained false file_ok = class immich_bug_suspected primary retry_jobs low
unexplained false _ = class MetadataFailureCause.unknown primary dangerous_unknown low

-- The statuses of a finding in the order of the tests; `mismatch` is `_is_path_mismatch`.
unfoldable pub classify : Bool → Bool → FileIntegrityStatus → Classification
classify mismatch tooling file_missing =
    if mismatch
    then class caused_by_path_mismatch secondary report_only medium
    else class caused_by_missing_file secondary report_only high
classify mismatch tooling file_empty = class caused_by_empty_file secondary mark_unrecoverable high
classify mismatch tooling file_permission_denied =
    class caused_by_permission_error secondary fix_permissions high
classify mismatch tooling file_truncated =
    class caused_by_corrupted_file secondary quarantine_corrupt high
classify mismatch tooling file_container_broken =
    class caused_by_corrupted_file secondary quarantine_corrupt high
classify mismatch tooling file_corrupted =
    class caused_by_corrupted_file secondary quarantine_corrupt high
classify mismatch tooling file_type_mismatch =
    class caused_by_unsupported_format secondary mark_unrecoverable medium
classify mismatch tooling s = unexplained tooling s

-- The findings on one asset.
unfoldable pub findings_of : String → List FileIntegrityFinding → List FileIntegrityFinding
findings_of k = filter_by λ f. f.asset_id == k

-- `next((… if finding.file_role == FileRole.SOURCE), None)`
unfoldable pub first_source : List FileIntegrityFinding → Option FileIntegrityFinding
first_source [] = none
first_source (f ∷ l) = let rest = first_source l in if f.file_role == source then some f else rest

-- `_build_metadata_summary`
unfoldable pub cause_counts :
    List MetadataFailureCause → List MetadataFailureDiagnostic → List MetadataFailureSummaryItem
cause_counts [] l = []
cause_counts (c ∷ cs) l =
    let rest = cause_counts cs l in
    let n = count_by (λ (d : MetadataFailureDiagnostic). d.root_cause == c) l in
    if n != 0 then record { root_cause = c; count = n } ∷ rest else rest

abbrev pub all_causes : List MetadataFailureCause
all_causes =
    caused_by_missing_file ∷ caused_by_empty_file ∷ caused_by_corrupted_file
    ∷ caused_by_permission_error ∷ caused_by_path_mismatch ∷ caused_by_unsupported_format
    ∷ caused_by_runtime_tooling_error ∷ immich_bug_suspected ∷ MetadataFailureCause.unknown ∷ []

abbrev pub caused_by : MetadataFailureCause → List MetadataFailureDiagnostic → String
caused_by c l = decimal (count_by (λ (d : MetadataFailureDiagnostic). d.root_cause == c) l)

unfoldable pub inspect_summary : List MetadataFailureDiagnostic → String
inspect_summary [] = "No unresolved metadata extraction candidates were found in the current batch."
inspect_summary (d ∷ ds) =
    let l : List MetadataFailureDiagnostic = d ∷ ds in
    decimal (length l)
    <> " metadata failures detected. "
    <> caused_by caused_by_corrupted_file l
    <> " caused by corrupted or truncated source files. "
    <> caused_by caused_by_permission_error l
    <> " caused by permission denial. "
    <> caused_by immich_bug_suspected l
    <> " likely Immich or runtime processing issues. "
    <> caused_by MetadataFailureCause.unknown l
    <> " remain unexplained."

unfoldable pub inspect_recommendations : List MetadataFailureDiagnostic → List String
inspect_recommendations [] =
    "No metadata failure diagnostics were produced in the current batch." ∷ []
inspect_recommendations (d ∷ ds) =
    "Inspect physical source file integrity before retrying metadata extraction jobs."
    ∷ "Use `runtime metadata-failures repair --dry-run` before any apply-capable action." ∷ []

unfoldable pub profile_check : Option Fields → CheckResult
profile_check none = record {
  name = "runtime_metadata_schema_profile";
  status = pass;
  message =
      "Supported schema profile `immich_runtime_metadata_profile` detected for metadata failure inspection.";
  details = end;
}
profile_check (some missing) = record {
  name = "runtime_metadata_schema_profile";
  status = skip;
  message =
      "Unsupported schema for `immich_runtime_metadata_profile`. Metadata failure inspection will be skipped.";
  details = missing;
}

unfoldable pub ffprobe_check : Bool → CheckResult
ffprobe_check true = record {
  name = "ffprobe_runtime_tool";
  status = pass;
  message = "ffprobe is available for media failure diagnostics.";
  details = end;
}
ffprobe_check false = record {
  name = "ffprobe_runtime_tool";
  status = warn;
  message =
      "ffprobe is not available. Some video or audio failures may degrade to runtime tooling or unknown classifications.";
  details = end;
}
