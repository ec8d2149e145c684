-- ===== src/Backup/Restore.antt =====
-- The simulation of a restore (immich_doctor/backup/restore/).
pub mod Ready
use immich_doctor.Base.{
  ℕ, String, Bool, true, false, not, ◌&&◌, ◌||◌, Option, none, some, List, [], ◌∷◌, ◌++◌, ◌<>◌, Eq,
  eq_of, is_empty, contains, ◌==◌, ◌!=◌, string_eq, if◌then◌else◌,
}
use immich_doctor.Core.Value.{Fields, end, field, str, optional_text}
use immich_doctor.Core.Models.{
  CheckResult, CheckStatus, pass, fail, warn, check_statuses, ranked, exit_code_of,
}
use immich_doctor.Effects.Result.{Result, ok, raised, ◌>>=◌}
use immich_doctor.Effects.World.{World, Platform}
use immich_doctor.Repair.Models.{RepairRun}
use immich_doctor.Repair.Store.{load_run}
use immich_doctor.Storage.Text.{has_infix}
use immich_doctor.Storage.PosixPath.{PurePosixPath, as_posix}
use immich_doctor.Catalog.Snapshots.{is_some}
use immich_doctor.Backup.Models.{
  SnapshotCoverage, paired, snapshot_coverage_eq, snapshot_kind_value, snapshot_coverage_value,
  BackupSnapshot,
}
use immich_doctor.Backup.Store.{SnapshotFiles, load_snapshot}
use immich_doctor.Backup.Instructions.{
  RestoreReadiness, RestoreBlocker, RestoreInstruction, RestoreSimulationResult, readiness_status,
  restore_overall_status, restore_exit_code, detect_restore_instruction_profile, instruction,
  library_root_text, docker_instructions, generic_instructions, build_restore_instructions, ready,
  blocked, simulation_only,
}

abbrev pub blocker : String → String → RestoreBlocker
blocker code message = record { code = code; message = message; severity = "error" }

-- `if test: blockers.append(...)`
abbrev pub block_if : Bool → RestoreBlocker → List RestoreBlocker
block_if test b = if test then b ∷ [] else []

unfoldable pub restore_blockers : BackupSnapshot → List RestoreBlocker
unfolding snapshot_coverage_value
restore_blockers snapshot =
    block_if (snapshot.coverage != paired) (
      blocker "snapshot_coverage_insufficient" (
        "Snapshot coverage `"
        <> snapshot_coverage_value snapshot.coverage
        <> "` cannot provide full "
        <> "DB + file rollback."))
    ++ (block_if (not (is_some snapshot.db_artifact))
          (blocker "missing_db_artifact" "Selected snapshot does not contain a database artifact.")
        ++ block_if (is_empty snapshot.file_artifacts)
            (blocker "missing_file_artifacts" "Selected snapshot does not contain file artifacts."))

-- What the caller asks for: an empty id of a run counts as none.
pub record RestoreRequest : Type 0 where
  pub snapshot_id : Option String
  pub repair_run_id : Option String

abbrev pub requested : RestoreRequest → Fields → Fields
requested q rest =
    field "requested_snapshot_id" (optional_text q.snapshot_id)
      (field "requested_repair_run_id" (optional_text q.repair_run_id) rest)

abbrev pub selection_failed : CheckResult
selection_failed = record {
  name = "snapshot_selection";
  status = fail;
  message = "Restore simulation is blocked because no snapshot was selected.";
  details = end;
}

abbrev pub unselected_result : RestoreRequest → RestoreSimulationResult
unselected_result q = record {
  summary = "Full restore simulation is blocked because no safe snapshot is available.";
  readiness = blocked;
  checks = selection_failed ∷ [];
  selected_snapshot = none;
  blockers =
      blocker "snapshot_unavailable" "No safe snapshot could be selected for restore simulation."
      ∷ [];
  instructions = [];
  metadata = requested q end;
  recommendations =
      ("Create or select a valid pre-repair or manual snapshot "
        <> "before simulating full restore.")
      ∷ [];
}

abbrev pub selection_check : BackupSnapshot → String → CheckResult
selection_check snapshot source = record {
  name = "snapshot_selection";
  status = pass;
  message = "Selected snapshot `" <> snapshot.snapshot_id <> "` from `" <> source <> "`.";
  details =
      field "selection_source" (str source)
        (field "coverage" (str (snapshot_coverage_value snapshot.coverage)) end);
}

abbrev pub execution_mode_check : Bool → CheckResult
execution_mode_check unblocked = record {
  name = "restore_execution_mode";
  status = if unblocked then warn else fail;
  message =
      if unblocked
      then "Full restore orchestration is currently simulation-only."
      else "Full restore execution is blocked for the selected snapshot.";
  details = end;
}

abbrev pub selected_fields : BackupSnapshot → String → Fields
selected_fields snapshot source = field "snapshot_id" (str snapshot.snapshot_id) (
    field "kind" (str (snapshot_kind_value snapshot.kind)) (
      field "coverage" (str (snapshot_coverage_value snapshot.coverage)) (
        field "repair_run_id" (optional_text snapshot.repair_run_id) (
          field "manifest_path" (str (as_posix snapshot.manifest_path))
            (field "selection_source" (str source) end)))))

module _ (environment : String) (library_root : Option PurePosixPath) (q : RestoreRequest) where
  -- The simulation for a selected snapshot.
  unfoldable pub simulate_snapshot : BackupSnapshot → String → RestoreSimulationResult
  unfolding restore_blockers build_restore_instructions detect_restore_instruction_profile
  simulate_snapshot snapshot source =
      let blockers = restore_blockers snapshot in
      let unblocked = is_empty blockers in
      let profile = detect_restore_instruction_profile environment in
      record {
        summary =
            if unblocked
            then "Full restore simulation generated deterministic manual steps."
            else "Full restore simulation found blockers for the selected snapshot.";
        readiness = if unblocked then simulation_only else blocked;
        checks = selection_check snapshot source ∷ execution_mode_check unblocked ∷ [];
        selected_snapshot = some (selected_fields snapshot source);
        blockers = blockers;
        instructions = build_restore_instructions library_root snapshot profile;
        metadata = field "instruction_profile" (str profile) (requested q end);
        recommendations =
            "Use targeted undo first when the repair run is journal-backed and reversible."
            ∷ "Treat generated restore steps as manual orchestration instructions in this phase."
            ∷ [];
      }

  abbrev pub simulate_selected : Option (BackupSnapshot × String) → RestoreSimulationResult
  simulate_selected none = unselected_result q
  simulate_selected (some (snapshot, source)) = simulate_snapshot snapshot source

abbrev pub from_source : String → Result BackupSnapshot → Result (Option (BackupSnapshot × String))
from_source source (raised e) = raised e
from_source source (ok snapshot) = ok (some (snapshot, source))

module _ (platform : Platform) (root : PurePosixPath) (files : SnapshotFiles) (w : World) where
  -- `snapshot_id is not None and snapshot_id != linked_snapshot_id`
  abbrev pub is_other : Option String → String → Bool
  is_other none linked = false
  is_other (some snapshot_id) linked = snapshot_id != linked

  abbrev pub select_linked :
      Option String → Option String → Result (Option (BackupSnapshot × String))
  select_linked snapshot_id none = ok none
  select_linked snapshot_id (some linked) =
      if is_other snapshot_id linked
      then ok none
      else from_source "repair_linked" (load_snapshot platform root linked files)

  abbrev pub select_manual : Option String → Result (Option (BackupSnapshot × String))
  select_manual none = ok none
  select_manual (some snapshot_id) =
      from_source "manual" (load_snapshot platform root snapshot_id files)

  abbrev pub select_by_run : Option String → String → Result (Option (BackupSnapshot × String))
  select_by_run snapshot_id repair_run_id =
      (load_run repair_run_id w).0 >>= λ run. select_linked snapshot_id run.pre_repair_snapshot_id

  -- `_select_snapshot`
  abbrev pub select_snapshot :
      Option String → Option String → Result (Option (BackupSnapshot × String))
  select_snapshot snapshot_id none = select_manual snapshot_id
  select_snapshot snapshot_id (some repair_run_id) =
      if repair_run_id == ""
      then select_manual snapshot_id
      else select_by_run snapshot_id repair_run_id

  unfoldable pub simulate_restore :
      String → Option PurePosixPath → RestoreRequest → Result RestoreSimulationResult
  unfolding load_run load_snapshot simulate_snapshot
  simulate_restore environment library_root q =
      select_snapshot q.snapshot_id q.repair_run_id >>= λ selected.
      ok (simulate_selected environment library_root q selected)
