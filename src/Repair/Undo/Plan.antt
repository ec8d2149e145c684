-- ===== src/Repair/Undo/Plan.antt =====
-- `RepairUndoService.plan` (immich_doctor/repair/undo_service.py).
pub mod Eligible
pub mod Ready
pub mod Enough
use immich_doctor.Base.{
  ℕ, String, ◌<>◌, Bool, true, false, not, ◌||◌, Option, none, some, List, [], ◌∷◌, ◌++◌, map,
  decimal, length, any, all, is_empty, filter_by, contains, ◌==◌, ◌!=◌, nat_eq, string_eq,
  if◌then◌else◌,
}
use immich_doctor.Core.Value.{
  Value, null, bool, int, str, optional_text, Fields, end, field, array, texts, object, get_or_null,
  truthy,
}
use immich_doctor.Core.Models.{CheckResult, pass, fail}
use immich_doctor.Effects.Result.{
  PyError, Result, ok, raised, file_not_found, value_error, type_error,
}
use immich_doctor.Effects.World.{
  World, Platform, M, pure, raise, lift, attempt, for_each, ◌>>=◌, continue,
}
use immich_doctor.Filesystem.{stat_path, s_imode}
use immich_doctor.Repair.Models.{
  RepairRun, RepairRunStatus, repair_run_status_eq, repair_run_status_value, RepairJournalEntry,
  RepairJournalEntryStatus, repair_journal_entry_status_eq, UndoType, undo_type_eq, undo_type_value,
}
use immich_doctor.Repair.Store.{load_run, load_journal_entries}
use immich_doctor.Repair.Undo.Models.{
  UndoEligibility, reversible_now, partially_reversible, not_reversible, requires_full_restore,
  undo_eligibility_eq, undo_eligibility_value, UndoBlocker, UndoEntryAssessment, UndoPlanResult,
}

unfoldable pub select_entries : List RepairJournalEntry → List String → List RepairJournalEntry
select_entries entries [] = filter_by (λ e. e.undo_type != UndoType.no_undo) entries
select_entries entries (i ∷ ids) = filter_by (λ e. contains (i ∷ ids) e.entry_id) entries

abbrev error : String → String → Option String → UndoBlocker
error code message entry_id = record {
  code = code;
  message = message;
  severity = "error";
  entry_id = entry_id;
}

abbrev when : Bool → UndoBlocker → List UndoBlocker
when test b = if test then b ∷ [] else []

-- The first two tests of `_assess_entry`.
unfoldable pub entry_blockers : RepairJournalEntry → List UndoBlocker
entry_blockers entry =
    when (entry.status != RepairJournalEntryStatus.applied) (
      error "entry_not_applied" "Only applied journal entries can be undone." (some entry.entry_id))
    ++ when (entry.undo_type != UndoType.restore_permissions) (
        error "unsupported_undo_type"
          "This journal entry does not support targeted undo in the current phase."
          (some entry.entry_id))

-- `entry.undo_payload.get("path") or entry.original_path`
unfoldable pub path_value : RepairJournalEntry → Value
path_value entry =
    let p = get_or_null "path" entry.undo_payload in
    if truthy p then p else optional_text entry.original_path

abbrev pub is_null : Value → Bool
is_null null = true
is_null _ = false

abbrev assessment :
    RepairJournalEntry → UndoEligibility → List UndoBlocker → Fields → UndoEntryAssessment
assessment entry eligibility blockers details = record {
  entry_id = entry.entry_id;
  operation_type = entry.operation_type;
  eligibility = eligibility;
  asset_id = entry.asset_id;
  original_path = entry.original_path;
  undo_type = undo_type_value entry.undo_type;
  blockers = blockers;
  details = details;
}

module _ (platform : Platform) where
  -- `str(v)`
  unfoldable pub text_of : Value → String
  text_of (str s) = s
  text_of v = platform.str_of v

  -- `Path(str(v))`, as the text of the path
  unfoldable pub path_of : Value → String
  path_of v = platform.str_of_path (text_of v)

  -- `int(v)`
  unfoldable pub int_of : Value → Result ℕ
  int_of (int n) = ok n
  int_of (bool b) = ok (if b then 1 else 0)
  int_of (str s) = elim (platform.int_of_text s) [ none ↦ raised value_error | some n ↦ ok n ]
  int_of _ = raised type_error

  abbrev pub details_of : Value → Value → Value → Fields → Fields
  details_of path old_mode new_mode rest =
      field "path" path (field "old_mode" old_mode (field "new_mode" new_mode rest))

  -- From the comparison with the recorded mode to the end of `_assess_entry`.
  unfoldable pub assess_mode :
      RepairJournalEntry → List UndoBlocker → Fields → ℕ → ℕ → UndoEntryAssessment
  assess_mode entry blockers details current_mode new_mode =
      if current_mode != new_mode
      then assessment entry requires_full_restore
          (blockers
            ++ error "current_mode_drift"
                "Current file mode differs from the recorded post-repair mode. Automatic targeted undo is blocked."
                (some entry.entry_id)
              ∷ [])
          details
      else assessment entry (if is_empty blockers then reversible_now else not_reversible) blockers
          details

  -- From the `try` on: only a missing file is caught.
  unfoldable pub assess_file :
      RepairJournalEntry
      → List UndoBlocker
      → Value
      → Value
      → Value
      → Result ℕ
      → M UndoEntryAssessment
  unfolding pure raise lift
  assess_file entry blockers path old_mode new_mode (ok st_mode) = do
    expected ← lift (int_of new_mode)
    pure (
        assess_mode entry blockers
          (details_of path old_mode new_mode (field "current_mode" (int (s_imode st_mode)) end))
          (s_imode st_mode) expected)
  assess_file entry blockers path old_mode new_mode (raised file_not_found) = pure (
      assessment entry requires_full_restore
        (blockers
          ++ error "missing_file_for_undo"
              "The file no longer exists, so targeted undo cannot restore permissions."
              (some entry.entry_id)
            ∷ [])
        (details_of path old_mode new_mode end))
  assess_file entry blockers path old_mode new_mode (raised e) = raise e

  unfoldable pub assess_entry : RepairJournalEntry → M UndoEntryAssessment
  unfolding attempt stat_path pure
  assess_entry entry =
      let blockers = entry_blockers entry in
      let path = path_value entry in
      let old_mode = get_or_null "old_mode" entry.undo_payload in
      let new_mode = get_or_null "new_mode" entry.undo_payload in
      if not (truthy path) || is_null old_mode || is_null new_mode
      then pure (
          assessment entry not_reversible
            (blockers
              ++ error "missing_undo_payload"
                  "The journal entry is missing path or mode data required for undo."
                  (some entry.entry_id)
                ∷ [])
            (details_of path old_mode new_mode end))
      else do
        found ← attempt (stat_path (path_of path))
        assess_file entry blockers path old_mode new_mode found

unfoldable pub global_blockers :
    RepairRun → List RepairJournalEntry → List UndoEntryAssessment → List UndoBlocker
global_blockers run entries assessments =
    when (run.status != RepairRunStatus.completed) (
      error "repair_run_not_stable"
        "Target repair run is not completed. Partial or failed runs should be handled through full restore analysis first."
        none)
    ++ (when (is_empty assessments) (
          error "no_undoable_entries" "No journal entries with undo capability were selected." none)
        ++ when (any (λ e. e.status == RepairJournalEntryStatus.failed) entries) (
            error "repair_run_contains_failed_entries"
              "The target repair run contains failed journal entries. Full restore may be safer than partial targeted undo."
              none))

unfoldable pub eligibility_of : List UndoEntryAssessment → List UndoBlocker → UndoEligibility
eligibility_of assessments blockers =
    let eligibilities = map (λ (a : UndoEntryAssessment). a.eligibility) assessments in
    if not (is_empty blockers)
    then requires_full_restore
    else if is_empty assessments
    then not_reversible
    else if all (λ e. e == reversible_now) eligibilities
    then reversible_now
    else if contains eligibilities requires_full_restore
    then requires_full_restore
    else if contains eligibilities not_reversible
    then not_reversible
    else partially_reversible

unfoldable pub plan_checks : RepairRun → List UndoEntryAssessment → List CheckResult
plan_checks run assessments =
    record {
      name = "target_repair_run";
      status = pass;
      message = "Loaded target repair run `" <> run.repair_run_id <> "`.";
      details =
          field "status" (str (repair_run_status_value run.status))
            (field "pre_repair_snapshot_id" (optional_text run.pre_repair_snapshot_id) end);
    }
    ∷ record {
      name = "undo_entry_selection";
      status = if is_empty assessments then fail else pass;
      message = "Selected " <> decimal (length assessments) <> " undo-capable journal entries.";
      details =
          field "selected_entries"
            (array (texts (map (λ (a : UndoEntryAssessment). a.entry_id) assessments))) end;
    }
    ∷ []

unfoldable pub plan_summary : UndoEligibility → List UndoEntryAssessment → String
plan_summary eligibility assessments =
    "Undo planning classified "
    <> decimal (length assessments)
    <> " journal entries as `"
    <> undo_eligibility_value eligibility
    <> "`."

unfoldable pub plan_recommendations : UndoEligibility → List String
plan_recommendations eligibility =
    if eligibility == reversible_now
    then "Runtime permission repair can be reverted through targeted undo in this phase." ∷ []
    else if eligibility == requires_full_restore
    then "Use full restore simulation and review blockers before mutating live state." ∷ []
    else "Targeted undo is not fully available for the selected repair run." ∷ []

-- What `plan` makes of the run, the journal and the assessments.
unfoldable pub plan_result :
    String
    → RepairRun
    → List RepairJournalEntry
    → List RepairJournalEntry
    → List UndoEntryAssessment
    → UndoPlanResult
plan_result repair_run_id run entries selected assessments =
    let blockers = global_blockers run entries assessments in
    let eligibility = eligibility_of assessments blockers in
    record {
      domain = "repair.undo";
      action = "plan";
      summary = plan_summary eligibility assessments;
      repair_run_id = repair_run_id;
      target_repair_run_status = repair_run_status_value run.status;
      eligibility = eligibility;
      apply_allowed = eligibility == reversible_now;
      checks = plan_checks run assessments;
      blockers = blockers;
      entry_assessments = assessments;
      metadata = record {
        selected_entry_ids = map (λ (e : RepairJournalEntry). e.entry_id) selected;
        pre_repair_snapshot_id = run.pre_repair_snapshot_id;
        undo_repair_run_id = none;
      };
      recommendations = plan_recommendations eligibility;
    }

module _ (platform : Platform) where
  unfoldable pub plan : String → List String → M UndoPlanResult
  unfolding pure
  plan repair_run_id entry_ids = do
    run ← load_run repair_run_id
    entries ← load_journal_entries repair_run_id
    let selected = select_entries entries entry_ids
    assessments ← for_each (assess_entry platform) selected
    pure (plan_result repair_run_id run entries selected assessments)
