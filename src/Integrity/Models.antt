-- ===== src/Integrity/Models.antt =====
-- Findings and their report (immich_doctor/runtime/integrity/models.py).
pub mod Overall
use immich_doctor.Base.{
  ℕ, suc, String, Bool, true, false, not, ◌&&◌, Option, none, some, List, [], ◌∷◌, map, any,
  count_by, is_empty, contains, nat_eq, Eq, eq_of, ◌==◌, ◌!=◌, if◌then◌else◌,
}
use immich_doctor.Core.Value.{Fields, end, field, str, object, optional_text, optional_int}
use immich_doctor.Core.Models.{
  CheckStatus, pass, fail, warn, skip, check_status_eq, CheckResult, check_statuses, exit_code_of,
}

pub data FileIntegrityStatus : Type 0 where
  file_ok file_missing file_empty file_permission_denied file_truncated : FileIntegrityStatus
  file_container_broken file_corrupted file_type_mismatch file_unknown_problem : FileIntegrityStatus

pub data FileRole : Type 0 where
  source preview thumbnail derivative : FileRole

pub data MediaKind : Type 0 where
  image video audio unknown : MediaKind

abbrev pub file_integrity_status_discrete : Discrete FileIntegrityStatus
file_integrity_status_discrete = hlevel

abbrev pub file_role_discrete : Discrete FileRole
file_role_discrete = hlevel

instance abbrev pub file_integrity_status_eq : Eq FileIntegrityStatus
file_integrity_status_eq = eq_of file_integrity_status_discrete

instance abbrev pub file_role_eq : Eq FileRole
file_role_eq = eq_of file_role_discrete

unfoldable pub file_role_value : FileRole → String
file_role_value source = "source"
file_role_value preview = "preview"
file_role_value thumbnail = "thumbnail"
file_role_value derivative = "derivative"

unfoldable pub file_integrity_status_value : FileIntegrityStatus → String
file_integrity_status_value file_ok = "FILE_OK"
file_integrity_status_value file_missing = "FILE_MISSING"
file_integrity_status_value file_empty = "FILE_EMPTY"
file_integrity_status_value file_permission_denied = "FILE_PERMISSION_DENIED"
file_integrity_status_value file_truncated = "FILE_TRUNCATED"
file_integrity_status_value file_container_broken = "FILE_CONTAINER_BROKEN"
file_integrity_status_value file_corrupted = "FILE_CORRUPTED"
file_integrity_status_value file_type_mismatch = "FILE_TYPE_MISMATCH"
file_integrity_status_value file_unknown_problem = "FILE_UNKNOWN_PROBLEM"

unfoldable pub media_kind_value : MediaKind → String
media_kind_value image = "image"
media_kind_value video = "video"
media_kind_value audio = "audio"
media_kind_value unknown = "unknown"

pub record FileIntegrityFinding : Type 0 where
  pub finding_id : String
  pub asset_id : String
  pub file_role : FileRole
  pub media_kind : MediaKind
  pub path : String
  pub status : FileIntegrityStatus
  pub asset_file_id : Option String
  pub message : String
  pub size_bytes : Option ℕ
  pub detected_format : Option String
  pub extension : Option String
  pub details : Fields

unfoldable pub finding_to_dict : FileIntegrityFinding → Fields
finding_to_dict f = field "finding_id" (str f.finding_id) (
    field "asset_id" (str f.asset_id) (
      field "file_role" (str (file_role_value f.file_role)) (
        field "media_kind" (str (media_kind_value f.media_kind)) (
          field "path" (str f.path) (
            field "status" (str (file_integrity_status_value f.status)) (
              field "asset_file_id" (optional_text f.asset_file_id) (
                field "message" (str f.message) (
                  field "size_bytes" (optional_int f.size_bytes) (
                    field "detected_format" (optional_text f.detected_format) (
                      field "extension" (optional_text f.extension)
                        (field "details" (object f.details) end)))))))))))

pub record FileIntegritySummaryItem : Type 0 where
  pub status : FileIntegrityStatus
  pub count : ℕ

-- Of the inspection's result, the fields that its status reads and the counts.
pub record FileIntegrityInspectResult : Type 0 where
  pub domain : String
  pub action : String
  pub summary : String
  pub checks : List CheckResult
  pub findings : List FileIntegrityFinding
  pub summary_items : List FileIntegritySummaryItem
  pub recommendations : List String
  pub metadata : Fields

abbrev pub physical_defects : List FileIntegrityStatus
physical_defects =
    file_missing ∷ file_empty ∷ file_permission_denied ∷ file_truncated ∷ file_container_broken
    ∷ file_corrupted ∷ file_type_mismatch ∷ file_unknown_problem ∷ []

-- The ladder of an inspection: a skipped check shows only where nothing was inspected.
unfoldable pub ranked_inspection : Bool → List CheckStatus → CheckStatus
ranked_inspection nothing_found statuses =
    if contains statuses fail
    then fail
    else if contains statuses warn
    then warn
    else if nothing_found && contains statuses skip
    then skip
    else if contains statuses pass
    then pass
    else skip

unfoldable pub integrity_overall_status : FileIntegrityInspectResult → CheckStatus
unfolding ranked_inspection
integrity_overall_status r =
    let statuses = check_statuses r.checks in
    ranked_inspection (is_empty r.findings) (
      if any (λ f. contains physical_defects f.status) r.findings
      then fail ∷ statuses
      else if not (is_empty r.findings)
      then pass ∷ statuses
      else statuses)

unfoldable pub integrity_exit_code : FileIntegrityInspectResult → ℕ
unfolding exit_code_of
integrity_exit_code r = exit_code_of (integrity_overall_status r)

abbrev pub all_statuses : List FileIntegrityStatus
all_statuses = file_ok ∷ physical_defects

-- `_build_summary_items`: the statuses that occur, in the order of the enumeration.
unfoldable pub summary_items_of :
    List FileIntegrityStatus → List FileIntegrityFinding → List FileIntegritySummaryItem
summary_items_of [] findings = []
summary_items_of (s ∷ l) findings =
    let rest = summary_items_of l findings in
    let n = count_by (λ (f : FileIntegrityFinding). f.status == s) findings in
    if n != 0 then record { status = s; count = n } ∷ rest else rest

unfoldable pub build_summary_items : List FileIntegrityFinding → List FileIntegritySummaryItem
unfolding summary_items_of
build_summary_items = summary_items_of all_statuses
