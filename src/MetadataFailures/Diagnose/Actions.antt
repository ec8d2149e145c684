-- ===== src/MetadataFailures/Diagnose/Actions.antt =====
-- Which actions a diagnostic offers.
use immich_doctor.Base.{
  ◌≡◌, refl, sym, Bool, true, false, Option, none, some, List, [], ◌∷◌, map, All, contains, ◌==◌,
  string_eq,
}
use immich_doctor.Effects.World.{World}
use immich_doctor.Integrity.Models.{
  FileIntegrityStatus, file_ok, file_missing, file_empty, file_permission_denied, file_truncated,
  file_container_broken, file_corrupted, file_type_mismatch, file_unknown_problem,
  file_integrity_status_value, file_integrity_status_eq, FileIntegrityFinding,
}
use immich_doctor.Integrity.Analyzer.{inspect_records}
use immich_doctor.Integrity.Probes.{Inspection, AssetRow, AssetFileRow}
use immich_doctor.MetadataFailures.Models.{
  fix_permissions, suggested_action_eq, MetadataFailureDiagnostic,
}
use immich_doctor.MetadataFailures.Diagnose.{
  classify_root_cause, diagnostic_of, build_diagnostic, diagnose,
}
use immich_doctor.Integrity.Installation.{Installation}
use immich_doctor.MetadataFailures.Causes.{Classification, available_actions, classify}

-- What is suggested is available, and the permission fix is available exactly on a file without
-- permission.
abbrev IsOffered : FileIntegrityStatus → Classification → Type 0
IsOffered status c =
    (contains (available_actions c.root_cause) c.suggested_action ≡ true)
    × (contains (available_actions c.root_cause) fix_permissions
        ≡ (status == file_permission_denied))

classify-IsOffered :
    (mismatch tooling : Bool) (status : FileIntegrityStatus)
    → IsOffered status (classify mismatch tooling status)
unfolding classify available_actions
classify-IsOffered true tooling file_missing = (refl, refl)
classify-IsOffered false tooling file_missing = (refl, refl)
classify-IsOffered mismatch tooling file_empty = (refl, refl)
classify-IsOffered mismatch tooling file_permission_denied = (refl, refl)
classify-IsOffered mismatch tooling file_truncated = (refl, refl)
classify-IsOffered mismatch tooling file_container_broken = (refl, refl)
classify-IsOffered mismatch tooling file_corrupted = (refl, refl)
classify-IsOffered mismatch tooling file_type_mismatch = (refl, refl)
classify-IsOffered mismatch true file_ok = (refl, refl)
classify-IsOffered mismatch false file_ok = (refl, refl)
classify-IsOffered mismatch true file_unknown_problem = (refl, refl)
classify-IsOffered mismatch false file_unknown_problem = (refl, refl)

-- The same of a diagnostic, whose status is a text.
abbrev pub Offers : MetadataFailureDiagnostic → Type 0
Offers d =
    (contains d.available_actions d.suggested_action ≡ true)
    × (contains d.available_actions fix_permissions
        ≡ (d.source_file_status == file_integrity_status_value file_permission_denied))

status_texts :
    (s : FileIntegrityStatus)
    → (file_integrity_status_value s == file_integrity_status_value file_permission_denied)
      ≡ (s == file_permission_denied)
unfolding file_integrity_status_value
status_texts file_ok = refl
status_texts file_missing = refl
status_texts file_empty = refl
status_texts file_permission_denied = refl
status_texts file_truncated = refl
status_texts file_container_broken = refl
status_texts file_corrupted = refl
status_texts file_type_mismatch = refl
status_texts file_unknown_problem = refl

module _ (installation : Installation) where
  diagnostic_of-Offers :
      (w : World) (row : AssetRow) (l : List FileIntegrityFinding) (o : Option FileIntegrityFinding)
      → Offers (diagnostic_of installation w row l o)
  unfolding diagnostic_of classify_root_cause
  diagnostic_of-Offers w row l none = (refl, sym (status_texts file_unknown_problem))
  diagnostic_of-Offers w row l (some f) =
      let (suggested, fixable) = classify-IsOffered _ _ f.status in
      (suggested, rw (status_texts f.status) fixable)

  All-Offers :
      (w : World) (l : List FileIntegrityFinding) (rows : List AssetRow)
      → All Offers (map (build_diagnostic installation w l) rows)
  unfolding build_diagnostic
  All-Offers w l [] = tt
  All-Offers w l (row ∷ rows) = (diagnostic_of-Offers w row _ _, All-Offers w l rows)

  -- Every diagnostic offers the action that it suggests, and offers the permission fix exactly if
  -- its source file was found to be without permission.
  pub diagnose-Offers :
      (i : Inspection) (w : World) (rows : List AssetRow) (files : List AssetFileRow)
      → All Offers (diagnose installation i w rows files)
  unfolding diagnose
  diagnose-Offers i w rows files = All-Offers w (inspect_records i w rows files true) rows
