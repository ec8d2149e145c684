-- ===== src/Repair/Undo/Restore.antt =====
-- `_execute_entry` (immich_doctor/repair/undo_service.py).
use immich_doctor.Base.{ℕ, String, Bool, Option, none, some, ◌==◌, if◌then◌else◌}
use immich_doctor.Core.Value.{
  Value, int, str, optional_int, end, field, object, get_or_null, truthy,
}
use immich_doctor.Effects.Result.{
  PyError, Result, ok, raised, file_not_found, permission_error, require,
}
use immich_doctor.Effects.World.{
  Platform, M, pure, raise, lift, attempt, ◌>>=◌, ◌>>◌, current_instant, fresh_id,
}
use immich_doctor.Filesystem.{stat_path, set_permissions, s_imode}
use immich_doctor.Repair.Models.{RepairRun, RepairJournalEntry, RepairJournalEntryStatus, UndoType}
use immich_doctor.Repair.Store.{append_journal_entry}
use immich_doctor.Repair.Undo.Models.{
  undo_eligibility_eq, UndoExecutionStatus, undo_execution_status_eq, UndoExecutionItem,
}
use immich_doctor.Repair.Undo.Plan.{path_value, text_of, int_of}

-- What the `try` of `_execute_entry` comes to.
pub data Outcome : Type 0 where
  restored : ℕ → ℕ → Outcome
  file_missing : Outcome
  chmod_denied : Option ℕ → Outcome

-- The two handlers; any other exception goes on.
unfoldable pub handled : Option ℕ → PyError → M Outcome
unfolding pure raise
handled current_mode file_not_found = pure file_missing
handled current_mode permission_error = pure (chmod_denied current_mode)
handled current_mode e = raise e

module _ (p : String) (old_mode : ℕ) where
  unfoldable pub after_chmod : ℕ → Result ℕ → M Outcome
  unfolding pure
  after_chmod current_mode (ok st_mode) = pure (restored current_mode (s_imode st_mode))
  after_chmod current_mode (raised e) = handled (some current_mode) e

  unfoldable pub after_stat : Result ℕ → M Outcome
  unfolding set_permissions stat_path attempt
  after_stat (ok st_mode) = do
    read_back ← attempt (set_permissions p old_mode >> stat_path p)
    after_chmod (s_imode st_mode) read_back
  after_stat (raised e) = handled none e

  unfoldable pub restore_mode : M Outcome
  unfolding stat_path attempt
  restore_mode = do found ← attempt (stat_path p); after_stat found

abbrev pub item_of : RepairJournalEntry → String → Outcome → UndoExecutionItem
item_of entry p (restored previous now) = record {
  entry_id = entry.entry_id;
  operation_type = entry.operation_type;
  status = UndoExecutionStatus.applied;
  message = "Permission mode was restored from journal data.";
  original_path = some p;
  details = field "previous_mode" (int previous) (
      field "restored_mode" (int now) (field "source_repair_run_id" (str entry.repair_run_id) end));
}
item_of entry p file_missing = record {
  entry_id = entry.entry_id;
  operation_type = entry.operation_type;
  status = UndoExecutionStatus.failed;
  message = "Undo failed because the file is missing.";
  original_path = some p;
  details = field "source_repair_run_id" (str entry.repair_run_id) end;
}
item_of entry p (chmod_denied previous) = record {
  entry_id = entry.entry_id;
  operation_type = entry.operation_type;
  status = UndoExecutionStatus.failed;
  message = "Undo failed because the current process cannot chmod the file.";
  original_path = some p;
  details =
      field "previous_mode" (optional_int previous)
        (field "source_repair_run_id" (str entry.repair_run_id) end);
}

abbrev pub is_applied_item : UndoExecutionItem → Bool
is_applied_item item = item.status == UndoExecutionStatus.applied

module _ (platform : Platform) where
  unfoldable pub file_state_payload : RepairJournalEntry → M Value
  unfolding stat_path attempt pure
  file_state_payload entry = do
    let v = path_value entry
    let p = platform.str_of_path (if truthy v then text_of platform v else "")
    found ← attempt (stat_path p)
    let current_mode : Option ℕ = elim found [
      | ok st_mode ↦ some (s_imode st_mode)
      | raised _ ↦ none
    ]
    pure (
        object (
          field "entry_id" (str entry.entry_id) (
            field "path" (str p) (
              field "current_mode" (optional_int current_mode)
                (field "expected_new_mode" (get_or_null "new_mode" entry.undo_payload) end)))))

  -- The entry that `_execute_entry` writes to the journal of the undo run.
  unfoldable pub undo_journal_entry :
      String
      → String
      → RepairRun
      → RepairJournalEntry
      → String
      → UndoExecutionItem
      → RepairJournalEntry
  undo_journal_entry entry_id now undo_run entry p item = record {
    entry_id = entry_id;
    repair_run_id = undo_run.repair_run_id;
    operation_type = "undo_restore_permissions";
    status =
        if is_applied_item item
        then RepairJournalEntryStatus.applied
        else RepairJournalEntryStatus.failed;
    asset_id = entry.asset_id;
    table = none;
    old_db_values = none;
    new_db_values = none;
    original_path = some p;
    quarantine_path = none;
    undo_type = UndoType.no_undo;
    undo_payload = item.details;
    error_details =
        if is_applied_item item then none else some (field "reason" (str item.message) end);
    created_at = now;
  }

  -- From the end of the `try` on: the journal entry and the item.
  unfoldable pub record_undo :
      RepairRun → RepairJournalEntry → String → Outcome → M UndoExecutionItem
  unfolding fresh_id current_instant append_journal_entry pure
  record_undo undo_run entry p outcome = do
    let item = item_of entry p outcome
    entry_id ← fresh_id platform
    now ← current_instant platform
    append_journal_entry
        (undo_journal_entry entry_id (platform.isoformat now) undo_run entry p item)
    pure item

  unfoldable pub execute_entry : RepairRun → RepairJournalEntry → M UndoExecutionItem
  unfolding lift
  execute_entry undo_run entry = do
    path ← lift (require "path" entry.undo_payload)
    let p = platform.str_of_path (text_of platform path)
    recorded ← lift (require "old_mode" entry.undo_payload)
    old_mode ← lift (int_of platform recorded)
    outcome ← restore_mode p old_mode
    record_undo undo_run entry p outcome
