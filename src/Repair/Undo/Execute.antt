-- ===== src/Repair/Undo/Execute.antt =====
-- `RepairUndoService.execute` (immich_doctor/repair/undo_service.py).
pub mod Guarded
use immich_doctor.Base.{
  ℕ, String, ◌<>◌, Bool, true, false, not, Option, none, some, List, [], ◌∷◌, ◌++◌, map, decimal,
  any, count_by, ◌==◌, ◌!=◌, if◌then◌else◌,
}
use immich_doctor.Core.Value.{
  Value, null, int, str, optional_text, optional_int, Fields, end, field, Items, array, texts,
  object, items, get_or_null, truthy,
}
use immich_doctor.Core.Models.{CheckResult, pass, fail, skip}
use immich_doctor.Effects.Result.{
  PyError, Result, ok, raised, file_not_found, permission_error, require,
}
use immich_doctor.Effects.World.{
  World, Platform, M, pure, raise, lift, attempt, for_each, ◌>>=◌, ◌>>◌, continue, current_instant,
  fresh_id,
}
use immich_doctor.Filesystem.{stat_path, set_permissions, s_imode}
use immich_doctor.Repair.Guards.{
  fingerprint_payload, build_live_state_fingerprint, create_plan_token, validate_plan_token,
  default_ttl, ApplyGuardResult,
}
use immich_doctor.Repair.Models.{
  RepairRun, RepairRunStatus, new_run, finish, RepairJournalEntry, RepairJournalEntryStatus,
  UndoType,
}
use immich_doctor.Repair.Store.{load_journal_entries, create_run, update_run, append_journal_entry}
use immich_doctor.Repair.Undo.Models.{
  UndoEligibility, reversible_now, undo_eligibility_eq, UndoExecutionStatus,
  undo_execution_status_eq, UndoEntryAssessment, UndoExecutionItem, UndoMetadata, UndoPlanResult,
  UndoExecutionResult,
}
use immich_doctor.Repair.Undo.Plan.{select_entries, path_value, text_of, int_of, plan}
use immich_doctor.Repair.Undo.Restore.{
  Outcome, handled, after_chmod, after_stat, restore_mode, item_of, is_applied_item,
  file_state_payload, undo_journal_entry, record_undo, execute_entry, restored, file_missing,
  chmod_denied,
}

unfoldable pub final_status : List UndoExecutionItem → RepairRunStatus
final_status items =
    if any (λ i. i.status == UndoExecutionStatus.failed) items
    then if any (λ i. i.status == UndoExecutionStatus.applied) items
      then RepairRunStatus.partial
      else RepairRunStatus.failed
    else RepairRunStatus.completed

unfoldable pub execution_summary : List UndoExecutionItem → String
execution_summary items =
    "Targeted undo restored "
    <> decimal (count_by (λ i. i.status == UndoExecutionStatus.applied) items)
    <> " journal entries and failed "
    <> decimal (count_by (λ i. i.status == UndoExecutionStatus.failed) items)
    <> "."

unfoldable pub journal_check : RepairRun → CheckResult
journal_check run = record {
  name = "undo_journal";
  status = pass;
  message = "Undo execution persisted a dedicated repair run and journal.";
  details = field "repair_run_id" (str run.repair_run_id) end;
}

unfoldable pub dry_run_result : String → UndoPlanResult → UndoExecutionResult
dry_run_result repair_run_id undo_plan = record {
  domain = "repair.undo";
  action = "apply";
  summary = "Undo execution remained dry-run and produced no mutations.";
  repair_run_id = "";
  target_repair_run_id = repair_run_id;
  eligibility = undo_plan.eligibility;
  checks =
      undo_plan.checks
      ++ record {
        name = "undo_dry_run";
        status = skip;
        message = "Undo execution was not requested with apply mode.";
        details = end;
      }
        ∷ [];
  blockers = undo_plan.blockers;
  execution_items =
      map
        (λ (a : UndoEntryAssessment). record {
          entry_id = a.entry_id;
          operation_type = a.operation_type;
          status = UndoExecutionStatus.planned;
          message = "Undo was planned but not executed.";
          original_path = a.original_path;
          details = a.details;
        })
        undo_plan.entry_assessments;
  metadata = undo_plan.metadata;
  recommendations = undo_plan.recommendations;
}

unfoldable pub blocked_result : String → UndoPlanResult → UndoExecutionResult
blocked_result repair_run_id undo_plan = record {
  domain = "repair.undo";
  action = "apply";
  summary = "Undo execution was blocked because the selected run is not safely reversible now.";
  repair_run_id = "";
  target_repair_run_id = repair_run_id;
  eligibility = undo_plan.eligibility;
  checks =
      undo_plan.checks
      ++ record {
        name = "undo_apply_guard";
        status = fail;
        message = "Undo apply was blocked by current restore/undo eligibility.";
        details = end;
      }
        ∷ [];
  blockers = undo_plan.blockers;
  execution_items = [];
  metadata = undo_plan.metadata;
  recommendations = undo_plan.recommendations;
}

unfoldable pub guard_check : ApplyGuardResult → CheckResult
guard_check guard = record {
  name = "undo_apply_guard";
  status = if guard.valid then pass else fail;
  message = guard.reason;
  details = field "token_id" (str guard.token_id) (
      field "expected_db_fingerprint" (str guard.expected_db_fingerprint) (
        field "expected_file_fingerprint" (str guard.expected_file_fingerprint) (
          field "actual_db_fingerprint" (str guard.actual_db_fingerprint)
            (field "actual_file_fingerprint" (str guard.actual_file_fingerprint) end))));
}

-- The result of an apply that got as far as its guard.
unfoldable pub applied_result :
    String
    → UndoPlanResult
    → RepairRun
    → ApplyGuardResult
    → String
    → List UndoExecutionItem
    → List String
    → UndoExecutionResult
applied_result repair_run_id undo_plan undo_run guard summary items recommendations = record {
  domain = "repair.undo";
  action = "apply";
  summary = summary;
  repair_run_id = undo_run.repair_run_id;
  target_repair_run_id = repair_run_id;
  eligibility = undo_plan.eligibility;
  checks = undo_plan.checks ++ guard_check guard ∷ journal_check undo_run ∷ [];
  blockers = undo_plan.blockers;
  execution_items = items;
  metadata = record (undo_plan.metadata) { undo_repair_run_id = some undo_run.repair_run_id };
  recommendations = recommendations;
}

module _ (platform : Platform) where
  abbrev pub undo_scope : String → List RepairJournalEntry → Fields
  undo_scope repair_run_id entries = field "domain" (str "repair.undo") (
      field "action" (str "apply") (
        field "target_repair_run_id" (str repair_run_id) (
          field "selected_entry_ids"
            (array (texts (map (λ (e : RepairJournalEntry). e.entry_id) entries))) end)))

  -- The loop over the entries, and the end of the run.
  unfoldable pub undo_entries :
      String
      → UndoPlanResult
      → List RepairJournalEntry
      → RepairRun
      → ApplyGuardResult
      → M UndoExecutionResult
  unfolding current_instant update_run finish pure
  undo_entries repair_run_id undo_plan entries undo_run guard = do
    items ← for_each (execute_entry platform undo_run) entries
    ended ← current_instant platform
    let finished = finish (platform.isoformat ended) (final_status items) undo_run
    update_run finished
    pure (
        applied_result repair_run_id undo_plan finished guard (execution_summary items) items
          ("Inspect the new undo repair run journal for exact restored mode values." ∷ []))

  unfoldable pub undo_drifted :
      String → UndoPlanResult → RepairRun → ApplyGuardResult → M UndoExecutionResult
  unfolding current_instant update_run finish pure
  undo_drifted repair_run_id undo_plan undo_run guard = do
    ended ← current_instant platform
    let finished = finish (platform.isoformat ended) RepairRunStatus.failed undo_run
    update_run finished
    pure (
        applied_result repair_run_id undo_plan finished guard
          "Undo execution stopped because live state drift was detected." []
          ("Re-run undo planning to bind a fresh plan token to the current live state." ∷ []))

  -- The journal is loaded anew, and the plan is bound to a token of its own.
  unfoldable pub undo_reversible : String → UndoPlanResult → M UndoExecutionResult
  unfolding fresh_id current_instant
  undo_reversible repair_run_id undo_plan = do
    journal ← load_journal_entries repair_run_id
    let entries = select_entries journal undo_plan.metadata.selected_entry_ids
    let db_fingerprint =
        fingerprint_payload platform
          (array (texts (map (λ (e : RepairJournalEntry). e.entry_id) entries)))
    states ← for_each (file_state_payload platform) entries
    let file_fingerprint = fingerprint_payload platform (array (items states))
    let scope = undo_scope repair_run_id entries
    plan_token ←
        create_plan_token platform scope db_fingerprint file_fingerprint (some default_ttl) none
    undo_run_id ← fresh_id platform
    started ← current_instant platform
    let undo_run =
        new_run (platform.isoformat started) undo_run_id scope RepairRunStatus.running
          (build_live_state_fingerprint platform db_fingerprint file_fingerprint)
          plan_token.token_id
    create_run undo_run plan_token
    guard ← validate_plan_token platform plan_token scope db_fingerprint file_fingerprint none
    (if guard.valid
        then undo_entries repair_run_id undo_plan entries undo_run guard
        else undo_drifted repair_run_id undo_plan undo_run guard)

  unfoldable pub execute : String → List String → Bool → M UndoExecutionResult
  unfolding pure
  execute repair_run_id entry_ids apply = do
    undo_plan ← plan platform repair_run_id entry_ids
    (if not apply
        then pure (dry_run_result repair_run_id undo_plan)
        else if undo_plan.eligibility != reversible_now
        then pure (blocked_result repair_run_id undo_plan)
        else undo_reversible repair_run_id undo_plan)
