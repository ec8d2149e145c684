-- ===== src/MetadataFailures/Diagnose.antt =====
-- `RuntimeMetadataFailuresInspectService` (immich_doctor/runtime/metadata_failures/service.py).
pub mod Actions
use immich_doctor.Base.{
  ℕ, String, ◌<>◌, Bool, true, false, not, ◌||◌, Option, none, some, List, [], ◌∷◌, ◌++◌, map,
  length, count_by, filter_by, contains, is_empty, decimal, nat_eq, string_eq, ◌==◌, ◌!=◌,
  if◌then◌else◌,
}
use immich_doctor.Core.Value.{
  Value, null, int, str, Fields, end, field, object, get_field, get_or_null,
}
use immich_doctor.Core.Models.{CheckResult, CheckStatus, check_status_eq, pass, fail, warn, skip}
use immich_doctor.Effects.World.{World, Platform, M, pure, gets, ◌>>=◌, continue, current_instant}
use immich_doctor.Integrity.Models.{
  FileIntegrityStatus, file_ok, file_missing, file_empty, file_permission_denied, file_truncated,
  file_container_broken, file_corrupted, file_type_mismatch, file_unknown_problem, FileRole, source,
  file_role_eq, file_integrity_status_value, FileIntegrityFinding, finding_to_dict,
  FileIntegritySummaryItem, build_summary_items,
}
use immich_doctor.Integrity.Analyzer.{inspect_records}
use immich_doctor.Integrity.Probes.{Inspection, AssetRow, AssetFileRow}
use immich_doctor.MetadataFailures.Models.{
  MetadataFailureCause, caused_by_missing_file, caused_by_empty_file, caused_by_corrupted_file,
  caused_by_permission_error, caused_by_path_mismatch, caused_by_unsupported_format,
  caused_by_runtime_tooling_error, immich_bug_suspected, metadata_failure_cause_eq,
  MetadataFailureLevel, primary, secondary, SuggestedAction, report_only, retry_jobs, requeue,
  fix_permissions, quarantine_corrupt, mark_unrecoverable, inspect_runtime_tooling,
  dangerous_unknown, ConfidenceLevel, high, medium, low, MetadataFailureDiagnostic,
  MetadataFailureSummaryItem, MetadataFailureInspectResult,
}
use immich_doctor.MetadataFailures.Causes.{
  Classification, class, available_actions, is_tooling_error, unexplained, classify, findings_of,
  first_source, cause_counts, all_causes, caused_by, inspect_summary, inspect_recommendations,
  profile_check, ffprobe_check,
}
use immich_doctor.Integrity.Installation.{Installation, default_batch_limit, batch_size_of}

module _ (installation : Installation) where
  unfoldable pub is_path_mismatch : World → String → Bool
  is_path_mismatch w p =
      if not (installation.is_absolute p)
      then true
      else if not installation.has_library_root
      then false
      else not (installation.library_holds w p)

  unfoldable pub classify_root_cause : World → FileIntegrityFinding → Classification
  unfolding is_path_mismatch classify get_field
  classify_root_cause w source_finding =
      classify (is_path_mismatch w source_finding.path)
        (is_tooling_error (get_field "probe_error_category" source_finding.details))
        source_finding.status

  -- Without a finding on the source, and with one.
  unfoldable pub diagnostic_of :
      World
      → AssetRow
      → List FileIntegrityFinding
      → Option FileIntegrityFinding
      → MetadataFailureDiagnostic
  unfolding classify_root_cause available_actions finding_to_dict
  diagnostic_of w row findings none = record {
    diagnostic_id = "metadata_failure:" <> row.id;
    asset_id = row.id;
    job_name = "metadata_extraction";
    root_cause = MetadataFailureCause.unknown;
    failure_level = primary;
    suggested_action = dangerous_unknown;
    confidence = low;
    source_path = row.original_path;
    source_file_status = file_integrity_status_value file_unknown_problem;
    source_message = "Source file finding could not be produced.";
    available_actions = dangerous_unknown ∷ [];
    file_findings = findings;
    details = end;
  }
  diagnostic_of w row findings (some f) =
      let c = classify_root_cause w f in
      record {
        diagnostic_id = "metadata_failure:" <> row.id;
        asset_id = row.id;
        job_name = "metadata_extraction";
        root_cause = c.root_cause;
        failure_level = c.failure_level;
        suggested_action = c.suggested_action;
        confidence = c.confidence;
        source_path = f.path;
        source_file_status = file_integrity_status_value f.status;
        source_message = f.message;
        available_actions = available_actions c.root_cause;
        file_findings = findings;
        details =
            field "primary_file_finding" (object (finding_to_dict f))
              (field "metadataExtractedAt" row.metadata_extracted_at end);
      }

  unfoldable pub build_diagnostic :
      World → List FileIntegrityFinding → AssetRow → MetadataFailureDiagnostic
  unfolding findings_of first_source diagnostic_of
  build_diagnostic w all_findings row =
      let findings = findings_of row.id all_findings in
      diagnostic_of w row findings (first_source findings)

  -- An inspection that ends before its candidates are read.
  abbrev stopped : String → List CheckResult → List String → String → MetadataFailureInspectResult
  stopped summary checks recommendations now = record {
    domain = "runtime.metadata_failures";
    action = "inspect";
    summary = summary;
    checks = checks;
    integrity_summary = [];
    metadata_summary = [];
    diagnostics = [];
    recommendations = recommendations;
    metadata = field "environment" (str installation.environment) end;
    generated_at = now;
  }

  module _ (i : Inspection) where
    -- The diagnostics of a batch, for the rows that the candidate query answers.
    unfoldable pub diagnose :
        World → List AssetRow → List AssetFileRow → List MetadataFailureDiagnostic
    unfolding inspect_records build_diagnostic
    diagnose w rows files = map (build_diagnostic w (inspect_records i w rows files true)) rows

    unfoldable pub candidates_result :
        World → ℕ → ℕ → List CheckResult → String → MetadataFailureInspectResult
    unfolding inspect_records diagnose build_summary_items cause_counts inspect_summary
        inspect_recommendations
    candidates_result w batch_size offset checks now =
        let rows = installation.candidates w batch_size offset in
        let files = installation.asset_files w (map (λ (r : AssetRow). r.id) rows) in
        let diagnostics = diagnose w rows files in
        record {
          domain = "runtime.metadata_failures";
          action = "inspect";
          summary = inspect_summary diagnostics;
          checks = checks;
          integrity_summary = build_summary_items (inspect_records i w rows files true);
          metadata_summary = cause_counts all_causes diagnostics;
          diagnostics = diagnostics;
          recommendations = inspect_recommendations diagnostics;
          metadata =
              field "environment" (str installation.environment)
                (field "limit" (int batch_size) (field "offset" (int offset) end));
          generated_at = now;
        }

    -- From the connection check on.
    unfoldable pub connected_result :
        World → Option ℕ → ℕ → CheckResult → String → MetadataFailureInspectResult
    unfolding profile_check ffprobe_check candidates_result batch_size_of
    connected_result w limit offset connection_check now =
        if connection_check.status == fail
        then stopped "Metadata failure inspection failed because PostgreSQL could not be reached."
            (connection_check ∷ []) [] now
        else elim (installation.missing w) [
          | some missing ↦
              stopped
                "Metadata failure inspection skipped because the current PostgreSQL schema is unsupported."
                (connection_check ∷ profile_check (some missing) ∷ [])
                ("This workflow currently supports only the exact observed runtime metadata profile."
                  ∷ [])
                now
          | none ↦
              candidates_result w (batch_size_of limit) offset
                (connection_check
                  ∷ profile_check none
                  ∷ ffprobe_check (installation.ffprobe_available w)
                  ∷ [])
                now
        ]

    unfoldable pub inspect_result : World → Option ℕ → ℕ → String → MetadataFailureInspectResult
    unfolding connected_result
    inspect_result w limit offset now = elim installation.postgres_dsn [
      | none ↦
          stopped "Metadata failure inspection failed because database access is not configured."
            (record {
              name = "postgres_connection";
              status = fail;
              message = "Database DSN is not configured.";
              details = end;
            }
              ∷ [])
            [] now
      | some dsn ↦ connected_result w limit offset (installation.validate_connection w) now
    ]

    -- `run`: the clock is read when the result is made.
    unfoldable pub inspect : Platform → Option ℕ → ℕ → M MetadataFailureInspectResult
    unfolding gets current_instant pure
    inspect platform limit offset = do
      result ← gets (λ w. inspect_result w limit offset)
      now ← current_instant platform
      pure (result (platform.isoformat now))
