-- ===== src/Integrity/Inspect.antt =====
-- `RuntimeIntegrityInspectService` (immich_doctor/runtime/integrity/service.py).
pub mod Healthy
use immich_doctor.Base.{
  ℕ, String, ◌<>◌, ◌-◌, Bool, true, false, Option, none, some, List, [], ◌∷◌, map, any, length,
  count_by, decimal, ◌==◌, ◌!=◌, if◌then◌else◌,
}
use immich_doctor.Core.Value.{int, bool, str, Fields, end, field}
use immich_doctor.Core.Models.{CheckResult, check_status_eq, pass, fail, warn, skip}
use immich_doctor.Effects.World.{World}
use immich_doctor.Integrity.Models.{
  file_ok, file_permission_denied, file_integrity_status_eq, FileIntegrityFinding,
  FileIntegrityInspectResult, build_summary_items,
}
use immich_doctor.Integrity.Probes.{Inspection, AssetRow}
use immich_doctor.Integrity.Analyzer.{inspect_records}
use immich_doctor.Integrity.Installation.{Installation, batch_size_of}

abbrev is_defect : FileIntegrityFinding → Bool
is_defect f = f.status != file_ok

unfoldable pub integrity_summary : List FileIntegrityFinding → ℕ → ℕ → String
integrity_summary [] limit offset =
    "Runtime integrity inspection found no files in the current batch (limit="
    <> decimal limit
    <> ", offset="
    <> decimal offset
    <> ")."
integrity_summary (f ∷ l) limit offset =
    let findings : List FileIntegrityFinding = f ∷ l in
    let failed_count = count_by is_defect findings in
    "Runtime integrity inspection checked "
    <> decimal (length findings)
    <> " files. "
    <> decimal (length findings - failed_count)
    <> " passed and "
    <> decimal failed_count
    <> " showed physical file defects or unknown problems."

unfoldable pub integrity_recommendations : List FileIntegrityFinding → List String
integrity_recommendations [] =
    "Increase --limit or adjust --offset to inspect additional files." ∷ []
integrity_recommendations (f ∷ l) =
    let findings : List FileIntegrityFinding = f ∷ l in
    if any (λ (g : FileIntegrityFinding). g.status == file_permission_denied) findings
    then "Investigate file ownership and permissions before retrying metadata extraction." ∷ []
    else if any is_defect findings
    then "Treat physical file defects as primary causes before diagnosing metadata jobs." ∷ []
    else "Physical files in this batch passed the current integrity checks." ∷ []

unfoldable pub integrity_profile_check : Option Fields → CheckResult
integrity_profile_check none = record {
  name = "runtime_metadata_schema_profile";
  status = pass;
  message =
      "Supported schema profile `immich_runtime_metadata_profile` detected for runtime integrity inspection.";
  details = end;
}
integrity_profile_check (some missing) = record {
  name = "runtime_metadata_schema_profile";
  status = skip;
  message =
      "Unsupported schema for `immich_runtime_metadata_profile`. Runtime integrity inspection will be skipped.";
  details = missing;
}

unfoldable pub integrity_ffprobe_check : Bool → CheckResult
integrity_ffprobe_check true = record {
  name = "ffprobe_runtime_tool";
  status = pass;
  message = "ffprobe is available for video and audio container probing.";
  details = end;
}
integrity_ffprobe_check false = record {
  name = "ffprobe_runtime_tool";
  status = warn;
  message =
      "ffprobe is not available. Video and audio corruption checks may degrade to unknown problem classifications.";
  details = end;
}

-- An inspection that ends before its assets are read.
abbrev unread : String → String → List CheckResult → List String → FileIntegrityInspectResult
unread environment summary checks recommendations = record {
  domain = "runtime.integrity";
  action = "inspect";
  summary = summary;
  checks = checks;
  findings = [];
  summary_items = [];
  recommendations = recommendations;
  metadata = field "environment" (str environment) end;
}

module _ (installation : Installation) (i : Inspection) (w : World) (limit : Option ℕ) (offset : ℕ)
    (include_derivatives : Bool) where
  abbrev pub batch : List AssetRow
  batch = installation.assets w (batch_size_of limit) offset

  abbrev pub batch_findings : List FileIntegrityFinding
  batch_findings =
      inspect_records i w batch (installation.asset_files w (map (λ (r : AssetRow). r.id) batch))
        include_derivatives

  unfoldable pub batch_result : List CheckResult → FileIntegrityInspectResult
  unfolding integrity_summary integrity_recommendations build_summary_items
  batch_result checks = record {
    domain = "runtime.integrity";
    action = "inspect";
    summary = integrity_summary batch_findings (batch_size_of limit) offset;
    checks = checks;
    findings = batch_findings;
    summary_items = build_summary_items batch_findings;
    recommendations = integrity_recommendations batch_findings;
    metadata = field "environment" (str installation.environment) (
        field "limit" (int (batch_size_of limit)) (
          field "offset" (int offset)
            (field "include_derivatives" (bool include_derivatives) end)));
  }

  -- From the profile detection on.
  unfoldable pub profiled_result : CheckResult → Option Fields → FileIntegrityInspectResult
  unfolding integrity_profile_check integrity_ffprobe_check batch_result
  profiled_result connection_check (some missing) =
      unread installation.environment
        "Runtime integrity inspection skipped because the current PostgreSQL schema is unsupported."
        (connection_check ∷ integrity_profile_check (some missing) ∷ [])
        ("This workflow currently supports only the exact observed runtime metadata profile." ∷ [])
  profiled_result connection_check none = batch_result (
      connection_check
      ∷ integrity_profile_check none
      ∷ integrity_ffprobe_check (installation.ffprobe_available w)
      ∷ [])

  -- With a DSN, from the connection check on.
  unfoldable pub configured_result : Option String → FileIntegrityInspectResult
  unfolding profiled_result
  configured_result none =
      unread installation.environment
        "Runtime integrity inspection failed because database access is not configured."
        (record {
          name = "postgres_connection";
          status = fail;
          message = "Database DSN is not configured.";
          details = end;
        }
          ∷ [])
        []
  configured_result (some dsn) =
      let connection_check = installation.validate_connection w in
      if connection_check.status == fail
      then unread installation.environment
          "Runtime integrity inspection failed because PostgreSQL could not be reached."
          (connection_check ∷ []) []
      else profiled_result connection_check (installation.missing w)

  -- `run`
  unfoldable pub integrity_inspection : FileIntegrityInspectResult
  unfolding configured_result
  integrity_inspection = configured_result installation.postgres_dsn
