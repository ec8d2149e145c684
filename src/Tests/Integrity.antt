-- ===== src/Tests/Integrity.antt =====
-- The integrity analysis at concrete data.
use immich_doctor.Base.{
  String, ◌≡◌, ◌↔◌, refl, true, false, none, some, List, [], ◌∷◌, ◌==◌, string_eq, if◌then◌else◌,
  length, all, map, contains,
}
use immich_doctor.Core.Value.{null, end}
use immich_doctor.Core.Models.{pass, fail, check_status_eq, check_statuses}
use immich_doctor.Effects.Result.{ok, raised, permission_error}
use immich_doctor.Effects.World.{World, absent, present}
use immich_doctor.Integrity.Models.{
  file_ok, file_integrity_status_eq, FileIntegrityFinding, FileIntegrityInspectResult,
  integrity_exit_code, build_summary_items,
}
use immich_doctor.Integrity.Models.Overall.{integrity_exit_code-zero}
use immich_doctor.Integrity.Analyzer.{source_subject, inspect_file, inspect_records}
use immich_doctor.Integrity.Probes.{Inspection, AssetRow, AssetFileRow}
use immich_doctor.Integrity.Analyzer.Verdict.{is_healthy}
use immich_doctor.Integrity.Analyzer.InOrder.{IsInOrder, inspect_file-IsInOrder}
use immich_doctor.Integrity.Analyzer.Coverage.{sources_of, inspect_records-sources}
use immich_doctor.Integrity.Installation.{Installation, batch_size_of}
use immich_doctor.Integrity.Inspect.{
  integrity_profile_check, integrity_ffprobe_check, batch, batch_result, profiled_result,
  configured_result, integrity_inspection,
}
use immich_doctor.Integrity.Inspect.Healthy.{integrity_inspection-healthy}
use immich_doctor.Tests.MetadataCode.{metadata_code}

abbrev pub jpeg_inspection : Inspection
jpeg_inspection = record {
  st_size = λ w p. 10;
  read_probe = λ w p. if p == "/locked.jpg" then raised permission_error else ok tt;
  probe_image = λ w p. record {
    ok = true;
    detected_format = some "jpeg";
    error_category = none;
    error_message = none;
  };
  probe_av = λ w p. record {
    ok = false;
    detected_format = none;
    error_category = some "tool_missing";
    error_message = none;
  };
  probe_unknown = λ w p. record {
    ok = false;
    detected_format = none;
    error_category = none;
    error_message = none;
  };
  suffix_lower = λ p. ".jpg";
  file_name = λ p. p;
  lower = λ s. if s == "IMAGE" then "image" else s;
  formats = λ s. s ∷ [];
  os_message = λ e. "error";
}

abbrev pub photos : World
photos = record {
  files = λ q.
      if q == "/a.jpg"
      then present 0o100640 true
      else if q == "/locked.jpg"
      then present 0o100200 true
      else absent;
  runs = [];
  plan_tokens = [];
  journals = [];
  quarantine_items = [];
  quarantine_index = [];
  questions = 0;
}

abbrev pub row : String → String → AssetRow
row id p = record { id = id; type = "IMAGE"; original_path = p; metadata_extracted_at = null }

abbrev pub rows : List AssetRow
rows = row "1" "/a.jpg" ∷ row "2" "/locked.jpg" ∷ row "3" "/gone.jpg" ∷ []

abbrev pub files : List AssetFileRow
files = record { id = "f"; asset_id = "1"; type = "preview"; path = "/p.jpg" } ∷ []

abbrev findings : List FileIntegrityFinding
findings = inspect_records jpeg_inspection photos rows files true

inspect_file-IsInOrder_example :
    ((inspect_file jpeg_inspection photos
        (source_subject jpeg_inspection (row "1" "/a.jpg"))).status
      ≡ file_ok)
    ↔ IsInOrder jpeg_inspection photos (source_subject jpeg_inspection (row "1" "/a.jpg"))
inspect_file-IsInOrder_example =
    inspect_file-IsInOrder jpeg_inspection photos
      (source_subject jpeg_inspection (row "1" "/a.jpg"))

one_healthy : (all (λ f. f.status == file_ok) findings ≡ false) × (length findings ≡ 4)
unfolding metadata_code
one_healthy = (refl, refl)

inspect_records-sources_example :
    sources_of (inspect_records jpeg_inspection photos rows files true)
    ≡ map (λ r. inspect_file jpeg_inspection photos (source_subject jpeg_inspection r)) rows
inspect_records-sources_example = inspect_records-sources jpeg_inspection photos rows files true

abbrev inspected : FileIntegrityInspectResult
inspected = record {
  domain = "runtime.integrity";
  action = "inspect";
  summary = "";
  checks = record { name = "postgres_connection"; status = pass; message = ""; details = end } ∷ [];
  findings = findings;
  summary_items = build_summary_items findings;
  recommendations = [];
  metadata = end;
}

integrity_exit_code-zero_example : (integrity_exit_code inspected ≡ 0) ↔ (
    (all (λ f. f.status == file_ok) findings ≡ true)
    × (contains (check_statuses inspected.checks) fail ≡ false))
integrity_exit_code-zero_example = integrity_exit_code-zero inspected

abbrev library : Installation
library = record {
  environment = "test";
  manifests_path = "/manifests";
  postgres_dsn = some "postgresql://";
  has_library_root = false;
  is_absolute = λ p. true;
  library_holds = λ w p. true;
  validate_connection =
      λ w. record { name = "postgres_connection"; status = pass; message = ""; details = end };
  missing = λ w. none;
  ffprobe_available = λ w. false;
  assets = λ w n o. row "1" "/a.jpg" ∷ [];
  candidates = λ w n o. [];
  asset_files = λ w ids. files;
}

integrity_inspection-healthy_example :
    (integrity_exit_code (integrity_inspection library jpeg_inspection photos none 0 false) ≡ 0) ↔ (
      ((library.validate_connection photos).status == fail ≡ false)
      × (all
            (λ r. is_healthy jpeg_inspection photos (source_subject jpeg_inspection r))
            (batch library jpeg_inspection photos none 0 false)
          ≡ true))
integrity_inspection-healthy_example =
    integrity_inspection-healthy jpeg_inspection photos library none 0 {dsn = "postgresql://"} refl
      refl

passes : integrity_exit_code (integrity_inspection library jpeg_inspection photos none 0 false) ≡ 0
unfolding metadata_code integrity_inspection configured_result profiled_result batch_result
    integrity_profile_check integrity_ffprobe_check batch_size_of
passes = refl
