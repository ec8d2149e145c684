-- ===== src/Backup/Instructions.antt =====
-- The result of a restore simulation and its instructions (immich_doctor/backup/restore/models.py
-- and instructions.py).
use immich_doctor.Base.{
  ℕ, String, Bool, true, Option, none, some, List, [], ◌∷◌, ◌<>◌, contains, string_eq,
  if◌then◌else◌,
}
use immich_doctor.Core.Value.{Fields}
use immich_doctor.Core.Models.{
  CheckResult, CheckStatus, pass, fail, warn, check_statuses, ranked, exit_code_of,
}
use immich_doctor.Storage.Text.{has_infix}
use immich_doctor.Storage.PosixPath.{PurePosixPath, as_posix}
use immich_doctor.Backup.Models.{snapshot_coverage_eq, BackupSnapshot}

pub data RestoreReadiness : Type 0 where
  ready blocked simulation_only : RestoreReadiness

pub record RestoreBlocker : Type 0 where
  pub code : String
  pub message : String
  pub severity : String

pub record RestoreInstruction : Type 0 where
  pub step_id : String
  pub phase : String
  pub description : String
  pub command : Option String
  pub manual : Bool

pub record RestoreSimulationResult : Type 0 where
  pub summary : String
  pub readiness : RestoreReadiness
  pub checks : List CheckResult
  pub selected_snapshot : Option Fields
  pub blockers : List RestoreBlocker
  pub instructions : List RestoreInstruction
  pub metadata : Fields
  pub recommendations : List String

abbrev pub readiness_status : RestoreReadiness → CheckStatus
readiness_status blocked = fail
readiness_status simulation_only = warn
readiness_status ready = pass

-- `RestoreSimulationResult.overall_status`
unfoldable pub restore_overall_status : RestoreSimulationResult → CheckStatus
unfolding ranked
restore_overall_status r = ranked (readiness_status r.readiness ∷ check_statuses r.checks)

unfoldable pub restore_exit_code : RestoreSimulationResult → ℕ
unfolding exit_code_of
restore_exit_code r = exit_code_of (restore_overall_status r)

-- `detect_restore_instruction_profile`, of the environment in lower case: the name of the profile.
unfoldable pub detect_restore_instruction_profile : String → String
unfolding has_infix
detect_restore_instruction_profile environment =
    if has_infix environment "unraid"
    then "docker-unraid"
    else if has_infix environment "docker"
    then "docker"
    else "generic"

abbrev pub instruction : String → String → String → Option String → RestoreInstruction
instruction step_id phase description command = record {
  step_id = step_id;
  phase = phase;
  description = description;
  command = command;
  manual = true;
}

abbrev pub library_root_text : Option PurePosixPath → String
library_root_text none = "/mnt/immich/storage/"
library_root_text (some path) = as_posix path

abbrev pub docker_instructions : Option PurePosixPath → BackupSnapshot → List RestoreInstruction
docker_instructions library_root snapshot =
    instruction "stop-services" "prepare" "Stop Immich services before overwriting live state." (
      some (
        "docker compose stop immich-server immich-microservices "
        <> "immich-machine-learning immich_postgres redis"))
    ∷ instruction "stop-doctor" "prepare" "Stop immich-doctor during restore execution."
        (some "docker compose stop immich-doctor")
    ∷ instruction "wipe-live-state" "destructive"
        ("Wipe the current broken state only after verifying the selected "
          <> "snapshot and matching DB/storage plan.")
        none
    ∷ instruction "restore-db" "restore"
        "Restore the PostgreSQL artifact if the selected snapshot includes one." none
    ∷ instruction "restore-files" "restore"
        "Restore file artifacts from the selected snapshot target path."
        (some (
          "rsync -a --info=progress2 /restore/source/"
          <> snapshot.snapshot_id
          <> "/ "
          <> library_root_text library_root))
    ∷ instruction "restart-services" "finalize" "Restart Immich services after restore completion."
        (some (
          "docker compose up -d immich-server immich-microservices "
          <> "immich-machine-learning immich_postgres redis immich-doctor"))
    ∷ []

abbrev pub generic_instructions : List RestoreInstruction
generic_instructions =
    instruction "stop-services" "prepare" "Stop Immich services before overwriting live state." none
    ∷ instruction "wipe-live-state" "prepare"
        "Wipe the current broken state after verifying snapshot integrity." none
    ∷ instruction "restore-db" "restore"
        "Restore the database artifact if present in the selected snapshot." none
    ∷ instruction "restore-files" "restore"
        "Restore file artifacts from the selected snapshot to the live storage path." none
    ∷ instruction "restart-services" "finalize" "Restart Immich services after restore completion."
        none
    ∷ []

unfoldable pub build_restore_instructions :
    Option PurePosixPath → BackupSnapshot → String → List RestoreInstruction
unfolding as_posix
build_restore_instructions library_root snapshot profile =
    if contains ("docker" ∷ "docker-unraid" ∷ []) profile
    then docker_instructions library_root snapshot
    else generic_instructions
