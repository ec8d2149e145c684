-- ===== src/MetadataFailures/Repair.antt =====
-- The actions of `RuntimeMetadataFailuresRepairService`
-- (immich_doctor/runtime/metadata_failures/repair_service.py).
pub mod Undone
pub mod Bounded
use immich_doctor.Base.{
  ℕ, String, ◌<>◌, Bool, true, false, not, ◌&&◌, Option, none, some, List, [], ◌∷◌, ◌++◌, map, any,
  count_by, filter_by, contains, decimal, string_eq, ◌==◌, if◌then◌else◌,
}
use immich_doctor.Core.Value.{
  Value, null, int, str, optional_int, Fields, end, field, object, get_or_null,
}
use immich_doctor.Effects.Result.{
  PyError, Result, ok, raised, key_error, file_not_found, permission_error, os_error,
}
use immich_doctor.Effects.World.{
  World, Platform, M, pure, raise, lift, attempt, ◌>>=◌, ◌>>◌, continue, current_instant, fresh_id,
}
use immich_doctor.Filesystem.{stat_path, add_read_permissions, s_imode}
use immich_doctor.Repair.Models.{
  RepairRun, RepairRunStatus, RepairJournalEntry, RepairJournalEntryStatus, UndoType, undo_type_eq,
}
use immich_doctor.Repair.Store.{append_journal_entry}
use immich_doctor.MetadataFailures.Models.{
  SuggestedAction, report_only, retry_jobs, requeue, fix_permissions, quarantine_corrupt,
  mark_unrecoverable, suggested_action_eq, suggested_action_value, metadata_failure_cause_value,
  confidence_level_value, MetadataRepairStatus, metadata_repair_status_eq,
  MetadataFailureDiagnostic, MetadataRepairAction,
}

-- The flags of a repair.
pub record RepairFlags : Type 0 where
  pub retry_jobs : Bool
  pub requeue : Bool
  pub fix_permissions : Bool
  pub quarantine_corrupt : Bool
  pub mark_unrecoverable : Bool

abbrev flagged : Bool → SuggestedAction → List SuggestedAction
flagged b a = if b then a ∷ [] else []

-- A set of actions is a list, of which only the membership is read.
unfoldable pub selected_actions : RepairFlags → List SuggestedAction
selected_actions flags =
    flagged flags.retry_jobs SuggestedAction.retry_jobs
    ++ flagged flags.requeue SuggestedAction.requeue
    ++ flagged flags.fix_permissions SuggestedAction.fix_permissions
    ++ flagged flags.quarantine_corrupt SuggestedAction.quarantine_corrupt
    ++ flagged flags.mark_unrecoverable SuggestedAction.mark_unrecoverable

unfoldable pub filter_diagnostics :
    List MetadataFailureDiagnostic → List String → List MetadataFailureDiagnostic
filter_diagnostics diagnostics [] = diagnostics
filter_diagnostics diagnostics (i ∷ ids) =
    filter_by (λ (d : MetadataFailureDiagnostic). contains (i ∷ ids) d.diagnostic_id) diagnostics

unfoldable pub supports_apply : SuggestedAction → Bool
supports_apply action = action == SuggestedAction.fix_permissions

unfoldable pub plan_reason : SuggestedAction → MetadataFailureDiagnostic → String
plan_reason action d =
    "Planned `"
    <> suggested_action_value action
    <> "` because root cause `"
    <> metadata_failure_cause_value d.root_cause
    <> "` was classified with "
    <> confidence_level_value d.confidence
    <> " confidence."

-- What the `try` of `_apply_permission_fix` comes to.
pub data FixOutcome : Type 0 where
  fixed : ℕ → ℕ → FixOutcome
  not_fixed : Option ℕ → PyError → FixOutcome

-- The three handlers; they name every `OSError`.
unfoldable pub caught : Option ℕ → PyError → M FixOutcome
unfolding pure raise
caught old_mode file_not_found = pure (not_fixed old_mode file_not_found)
caught old_mode permission_error = pure (not_fixed old_mode permission_error)
caught old_mode (os_error n) = pure (not_fixed old_mode (os_error n))
caught old_mode e = raise e

module _ (p : String) where
  unfoldable pub after_fix : ℕ → Result ℕ → M FixOutcome
  unfolding pure
  after_fix old_mode (ok st_mode) = pure (fixed old_mode (s_imode st_mode))
  after_fix old_mode (raised e) = caught (some old_mode) e

  unfoldable pub after_old_mode : Result ℕ → M FixOutcome
  unfolding attempt stat_path add_read_permissions
  after_old_mode (ok st_mode) = do
    read_back ← attempt (add_read_permissions p >> stat_path p)
    after_fix (s_imode st_mode) read_back
  after_old_mode (raised e) = caught none e

  unfoldable pub permission_fix : M FixOutcome
  unfolding attempt stat_path
  permission_fix = do found ← attempt (stat_path p); after_old_mode found

-- `os_message e` is `exc.strerror or str(exc)`.
module _ (os_message : PyError → String) where
  abbrev failed_fix : MetadataFailureDiagnostic → String → Fields → MetadataRepairAction
  failed_fix d reason details = record {
    action = SuggestedAction.fix_permissions;
    diagnostic_id = d.diagnostic_id;
    status = MetadataRepairStatus.failed;
    reason = reason;
    path = d.source_path;
    supports_apply = true;
    dry_run = false;
    applied = false;
    details = details;
  }

  unfoldable pub fix_action : MetadataFailureDiagnostic → FixOutcome → MetadataRepairAction
  fix_action d (fixed old_mode new_mode) = record {
    action = SuggestedAction.fix_permissions;
    diagnostic_id = d.diagnostic_id;
    status = MetadataRepairStatus.repaired;
    reason = "Read permissions were granted to the source file.";
    path = d.source_path;
    supports_apply = true;
    dry_run = false;
    applied = true;
    details = field "old_mode" (int old_mode) (field "new_mode" (int new_mode) end);
  }
  fix_action d (not_fixed old_mode file_not_found) =
      failed_fix d "Permission repair failed because the file is missing."
        (field "old_mode" (optional_int old_mode) end)
  fix_action d (not_fixed old_mode permission_error) =
      failed_fix d "Permission repair failed because the current process cannot chmod the file."
        (field "old_mode" (optional_int old_mode) end)
  fix_action d (not_fixed old_mode e) =
      failed_fix d ("Permission repair failed: " <> os_message e <> ".")
        (field "old_mode" (optional_int old_mode) (field "error" (str (os_message e)) end))

-- An action that changes nothing.
abbrev inert :
    SuggestedAction
    → MetadataFailureDiagnostic
    → MetadataRepairStatus
    → String
    → Bool
    → Bool
    → Fields
    → MetadataRepairAction
inert action d status reason supports dry details = record {
  action = action;
  diagnostic_id = d.diagnostic_id;
  status = status;
  reason = reason;
  path = d.source_path;
  supports_apply = supports;
  dry_run = dry;
  applied = false;
  details = details;
}

-- `status_map[repair_action.status]`
unfoldable pub journal_status : MetadataRepairStatus → Result RepairJournalEntryStatus
journal_status MetadataRepairStatus.detected = raised (key_error "detected")
journal_status MetadataRepairStatus.planned = ok RepairJournalEntryStatus.planned
journal_status MetadataRepairStatus.repaired = ok RepairJournalEntryStatus.applied
journal_status MetadataRepairStatus.skipped = ok RepairJournalEntryStatus.skipped
journal_status MetadataRepairStatus.failed = ok RepairJournalEntryStatus.failed

unfoldable pub action_undo_type : MetadataRepairAction → UndoType
action_undo_type a =
    if a.action == SuggestedAction.fix_permissions && a.applied
    then UndoType.restore_permissions
    else UndoType.no_undo

-- The entry that `_record_action` writes.
unfoldable pub action_entry :
    String
    → String
    → RepairRun
    → RepairJournalEntryStatus
    → MetadataFailureDiagnostic
    → MetadataRepairAction
    → RepairJournalEntry
unfolding action_undo_type get_or_null
action_entry entry_id now repair_run status d a = record {
  entry_id = entry_id;
  repair_run_id = repair_run.repair_run_id;
  operation_type = suggested_action_value a.action;
  status = status;
  asset_id = some d.asset_id;
  table = none;
  old_db_values = none;
  new_db_values = none;
  original_path = some d.source_path;
  quarantine_path = none;
  undo_type = action_undo_type a;
  undo_payload =
      if action_undo_type a == UndoType.restore_permissions
      then field "path" (str d.source_path) (
          field "old_mode" (get_or_null "old_mode" a.details)
            (field "new_mode" (get_or_null "new_mode" a.details) end))
      else end;
  error_details =
      if a.status == MetadataRepairStatus.failed
      then some (field "reason" (str a.reason) (field "details" (object a.details) end))
      else none;
  created_at = now;
}

module _ (platform : Platform) where
  unfoldable pub record_action :
      RepairRun → MetadataFailureDiagnostic → MetadataRepairAction → M (Unit {0})
  unfolding fresh_id lift current_instant append_journal_entry
  record_action repair_run d a = do
    entry_id ← fresh_id platform
    status ← lift (journal_status a.status)
    now ← current_instant platform
    append_journal_entry (action_entry entry_id (platform.isoformat now) repair_run status d a)

  module _ (os_message : PyError → String) where
    unfoldable pub apply_permission_fix : MetadataFailureDiagnostic → M MetadataRepairAction
    unfolding pure permission_fix
    apply_permission_fix d = do
      outcome ← permission_fix (platform.str_of_path d.source_path)
      pure (fix_action os_message d outcome)

    -- The action on a diagnostic, before it is recorded.
    unfoldable pub chosen_action :
        Bool → MetadataFailureDiagnostic → List SuggestedAction → M MetadataRepairAction
    unfolding pure apply_permission_fix supports_apply
    chosen_action apply d [] = pure (
        inert d.suggested_action d MetadataRepairStatus.skipped
          "No selected repair flag matched this diagnostic." (supports_apply d.suggested_action)
          (not apply) end)
    chosen_action false d (action ∷ _) = pure (
        inert action d MetadataRepairStatus.planned (plan_reason action d) (supports_apply action)
          true (field "confidence" (str (confidence_level_value d.confidence)) end))
    chosen_action true d (action ∷ _) =
        if action == SuggestedAction.fix_permissions
        then apply_permission_fix d
        else pure (
            inert action d MetadataRepairStatus.skipped
              "No safe automatic apply primitive is implemented for this action in the current phase."
              false false end)

    unfoldable pub plan_or_apply_action :
        List SuggestedAction → Bool → RepairRun → MetadataFailureDiagnostic → M MetadataRepairAction
    unfolding pure chosen_action record_action
    plan_or_apply_action selected apply repair_run d = do
      a ← chosen_action apply d (filter_by (contains selected) d.available_actions)
      record_action repair_run d a
      pure a

unfoldable pub final_run_status : List MetadataRepairAction → RepairRunStatus
final_run_status actions =
    if any (λ (a : MetadataRepairAction). a.status == MetadataRepairStatus.failed) actions
    then if any (λ (a : MetadataRepairAction). a.applied) actions
      then RepairRunStatus.partial
      else RepairRunStatus.failed
    else RepairRunStatus.completed

abbrev how_many : MetadataRepairStatus → List MetadataRepairAction → String
how_many s l = decimal (count_by (λ (a : MetadataRepairAction). a.status == s) l)

unfoldable pub repair_summary : List MetadataRepairAction → Bool → String
repair_summary l true =
    "Metadata failure repair applied "
    <> how_many MetadataRepairStatus.repaired l
    <> " actions, skipped "
    <> how_many MetadataRepairStatus.skipped l
    <> ", and failed "
    <> how_many MetadataRepairStatus.failed l
    <> "."
repair_summary l false =
    "Metadata failure repair planned "
    <> how_many MetadataRepairStatus.planned l
    <> " actions and skipped "
    <> how_many MetadataRepairStatus.skipped l
    <> " without mutating data."

unfoldable pub repair_recommendations : List MetadataRepairAction → List String
repair_recommendations actions =
    if any (λ (a : MetadataRepairAction). a.action == SuggestedAction.retry_jobs) actions
    then "Healthy files with unresolved metadata extraction remain candidates for manual Immich-side retry or requeue actions."
      ∷ []
    else "Unknown or unsupported actions remain intentionally non-destructive." ∷ []
