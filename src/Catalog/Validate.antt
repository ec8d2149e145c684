-- ===== src/Catalog/Validate.antt =====
-- `CatalogConsistencyValidationService` (immich_doctor/catalog/consistency_service.py).
pub mod Report
use immich_doctor.Base.{
  ℕ, zero, suc, ◌+◌, String, Bool, true, false, not, ◌≡◌, refl, Option, none, some, List, [], ◌∷◌,
  ◌++◌, ◌<>◌, map, is_empty, length, decimal, ltb, ◌==◌, if◌then◌else◌,
}
use mathlib.Core.Option
use immich_doctor.Core.Value.{
  Value, Fields, end, field, bool, int, str, object, array, items, texts, optional_text,
  optional_int,
}
use immich_doctor.Core.Models.{
  CheckResult, CheckStatus, pass, fail, warn, check_status_eq, ValidationSection, ValidationReport,
}
use immich_doctor.Effects.Result.{Result, ok, raised}
use immich_doctor.Storage.PathMapping.{StorageSettings, MappingMode, runtime, legacy}
use immich_doctor.Catalog.Models.{
  zero_byte_section, db_missing_section, storage_missing_section, orphan_section, unmapped_section,
  CatalogFileRow, DbMissingRow, UnmappedRow, StorageMissingRow, OrphanRow, TextPlatform,
}
use immich_doctor.Catalog.Snapshots.{
  CatalogSnapshotState, CatalogAnswers, prepare_snapshot_state, snapshot_values,
}
use immich_doctor.Catalog.Collect.{ConsistencyAnswers, CatalogConsistencyState, collect}
use immich_doctor.Catalog.Rows.{
  mode_text, classification_field, db_missing_dict, resolved_fields, unmapped_dict,
  storage_missing_dict, orphan_dict, file_dict,
}

-- l[:n]
abbrev pub take {ℓ} : {A : Type ℓ} → ℕ → List A → List A
take zero l = []
take (suc n) [] = []
take (suc n) (x ∷ l) = x ∷ take n l

-- `_section_status`
abbrev pub section_status {ℓ} : {A : Type ℓ} → List A → CheckStatus
section_status rows = if is_empty rows then pass else fail

abbrev pub sampled {ℓ} : {A : Type ℓ} → ℕ → (A → Fields) → List A → List Fields
sampled limit to_dict rows = map to_dict (take limit rows)

unfoldable pub real_issue_count : CatalogConsistencyState → ℕ
real_issue_count state =
    length state.db_missing_rows
    + length state.storage_missing_rows
    + length state.orphan_rows
    + length state.zero_byte_rows
    + length state.unmapped_rows

abbrev pub section : String → CheckStatus → List Fields → ValidationSection
section name status rows = record { name = name; status = status; rows = rows }

module _ (sample_limit : ℕ) (state : CatalogConsistencyState) where
  unfoldable pub consistency_sections : List ValidationSection
  consistency_sections =
      section db_missing_section (section_status state.db_missing_rows)
        (sampled sample_limit db_missing_dict state.db_missing_rows)
      ∷ section storage_missing_section (section_status state.storage_missing_rows)
          (sampled sample_limit storage_missing_dict state.storage_missing_rows)
      ∷ section orphan_section (section_status state.orphan_rows)
          (sampled sample_limit orphan_dict state.orphan_rows)
      ∷ section zero_byte_section (section_status (take sample_limit state.zero_byte_rows))
          (sampled sample_limit file_dict state.zero_byte_rows)
      ∷ section unmapped_section (if is_empty state.unmapped_rows then pass else warn)
          (sampled sample_limit unmapped_dict state.unmapped_rows)
      ∷ []

  abbrev pub metric : String → ℕ → Fields
  metric name value = field "name" (str name) (field "value" (int value) end)

  unfoldable pub consistency_metrics : List Fields
  consistency_metrics =
      metric "db_originals_missing_on_storage" (length state.db_missing_rows)
      ∷ metric "storage_originals_missing_in_db" (length state.storage_missing_rows)
      ∷ metric "orphan_derivatives_without_original" (length state.orphan_rows)
      ∷ metric "zero_byte_files" (length state.zero_byte_rows)
      ∷ metric "unmapped_database_paths" (length state.unmapped_rows)
      ∷ []

  abbrev pub totals : Fields
  totals = field "totalAssetsScanned" (int state.total_assets_scanned) (
      field "dbOriginalsMissingOnStorage" (int (length state.db_missing_rows)) (
        field "storageOriginalsMissingInDb" (int (length state.storage_missing_rows)) (
          field "orphanDerivativesWithoutOriginal" (int (length state.orphan_rows)) (
            field "zeroByteFiles" (int (length state.zero_byte_rows)) (
              field "unmappedDatabasePaths" (int (length state.unmapped_rows)) (
                field "filteredNoiseRemoved" (int state.valid_motion_video_components) (
                  field "validMotionVideoComponents" (int state.valid_motion_video_components)
                    (field "realIssuesRemaining" (int (real_issue_count state)) end))))))))

  abbrev pub is_truncated {ℓ} : {A : Type ℓ} → List A → Value
  is_truncated rows = bool (ltb sample_limit (length rows))

  abbrev pub truncated : Fields
  truncated = field db_missing_section (is_truncated state.db_missing_rows) (
      field storage_missing_section (is_truncated state.storage_missing_rows) (
        field orphan_section (is_truncated state.orphan_rows)
          (field unmapped_section (is_truncated state.unmapped_rows) end)))

  unfoldable pub consistency_metadata : Fields
  unfolding real_issue_count
  consistency_metadata = field "configuredRoots" (array (texts state.configured_root_slugs)) (
      field "latestSnapshots" (snapshot_values state.latest_snapshots) (
        field "snapshotBasis" (array (items (map object state.snapshot_basis))) (
          field "latestScanCommittedAt" (optional_text state.latest_scan_committed_at) (
            field "comparisonWindowStartedAt" (optional_text state.comparison_window_started_at) (
              field "comparisonWindowCommittedAt"
                (optional_text state.comparison_window_committed_at)
                (field "sampleLimit" (int sample_limit)
                  (field "totals" (object totals) (field "truncated" (object truncated) end))))))))

  abbrev pub consistency_summary : String
  consistency_summary =
      "Catalog-backed consistency compared the cached storage inventory "
      <> "against the live database and reports only actionable inconsistencies: "
      <> decimal (length state.db_missing_rows)
      <> " DB originals not found in the current storage snapshot, "
      <> decimal (length state.storage_missing_rows)
      <> " storage originals missing in DB, "
      <> decimal (length state.orphan_rows)
      <> " orphan derivatives, and "
      <> decimal (length state.zero_byte_rows)
      <> " zero-byte findings. "
      <> "Suppressed "
      <> decimal state.valid_motion_video_components
      <> " valid motion video components; "
      <> decimal (real_issue_count state)
      <> " real issues remain."

  -- The report of a comparison.
  unfoldable pub consistency_report : ℕ → ValidationReport
  unfolding consistency_sections consistency_metrics consistency_metadata
  consistency_report generated_at = record {
    domain = "consistency.catalog";
    action = "validate";
    summary = consistency_summary;
    checks = state.checks;
    sections = consistency_sections;
    metrics = consistency_metrics;
    recommendations =
        "Run a catalog rescan from the Storage page when the mounted storage has changed."
        ∷ ("Use the catalog-backed counts as cached storage truth before "
            <> "starting any destructive workflow.")
        ∷ [];
    metadata = consistency_metadata;
    generated_at = generated_at;
  }

-- A report without a comparison.
abbrev pub refused_report : String → List CheckResult → Fields → List String → ℕ → ValidationReport
refused_report summary checks metadata recommendations generated_at = record {
  domain = "consistency.catalog";
  action = "validate";
  summary = summary;
  checks = checks;
  sections = [];
  metrics = [];
  recommendations = recommendations;
  metadata = metadata;
  generated_at = generated_at;
}

abbrev pub waiting_report : CatalogSnapshotState → ℕ → ValidationReport
waiting_report snapshots =
    refused_report "Catalog-backed consistency is waiting for a current committed storage index."
      snapshots.checks snapshots.metadata
      (("Run a catalog scan from the Storage page before starting the "
          <> "consistency validation.")
        ∷ [])

abbrev pub latest_metadata : CatalogSnapshotState → Fields
latest_metadata snapshots = field "latestSnapshots" (snapshot_values snapshots.latest_snapshots) end

abbrev pub no_dsn_check : CheckResult
no_dsn_check = record {
  name = "postgres_connection";
  status = fail;
  message = "Database DSN is not configured.";
  details = end;
}

abbrev pub no_dsn_report : CatalogSnapshotState → ℕ → ValidationReport
no_dsn_report snapshots =
    refused_report "Catalog-backed consistency failed because database access is not configured."
      (snapshots.checks ++ (no_dsn_check ∷ [])) (latest_metadata snapshots) []

abbrev pub unreachable_report : CatalogSnapshotState → CheckResult → ℕ → ValidationReport
unreachable_report snapshots connection =
    refused_report "Catalog-backed consistency failed because PostgreSQL could not be reached."
      (snapshots.checks ++ (connection ∷ [])) (latest_metadata snapshots) []

module _ (platform : TextPlatform) (settings : StorageSettings) (sample_limit : ℕ)
    (first later : ConsistencyAnswers) (now : ℕ) where
  abbrev pub collected_report : Result CatalogConsistencyState → Result ValidationReport
  collected_report (raised e) = raised e
  collected_report (ok state) = ok (consistency_report sample_limit state now)

  abbrev pub run_connected : CatalogSnapshotState → Option String → Result ValidationReport
  run_connected snapshots none = ok (no_dsn_report snapshots now)
  run_connected snapshots (some dsn) =
      if first.connection.status == fail
      then ok (unreachable_report snapshots first.connection now)
      else collected_report (collect platform settings later)

  -- `run`: `first` is what it asks itself, and `later` what `collect` asks again.
  unfoldable pub validate_catalog : Result ValidationReport
  unfolding prepare_snapshot_state collect consistency_report
  validate_catalog =
      let snapshots = prepare_snapshot_state platform first.catalog in
      if not snapshots.ready
      then ok (waiting_report snapshots now)
      else run_connected snapshots first.postgres_dsn
