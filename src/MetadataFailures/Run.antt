-- ===== src/MetadataFailures/Run.antt =====
-- `RuntimeMetadataFailuresRepairService.run`
-- (immich_doctor/runtime/metadata_failures/repair_service.py).
pub mod Bounded
pub mod Refused
use immich_doctor.Base.{
  ℕ, String, ◌<>◌, Bool, true, false, not, ◌&&◌, ◌||◌, Option, none, some, List, [], ◌∷◌, ◌++◌, map,
  any, filter_by, contains, is_empty, string_eq, ◌==◌, ◌!=◌, if◌then◌else◌,
}
use immich_doctor.Core.Value.{
  Value, null, bool, int, str, optional_text, optional_int, Fields, end, field, object, array,
  texts, items,
}
use immich_doctor.Core.Models.{CheckResult, pass, fail, skip}
use immich_doctor.Effects.Result.{PyError}
use immich_doctor.Effects.World.{
  World, Platform, M, pure, for_each, ◌>>=◌, ◌>>◌, continue, current_instant, fresh_id,
}
use immich_doctor.Repair.Guards.{
  fingerprint_payload, build_live_state_fingerprint, create_plan_token, validate_plan_token,
  default_ttl, ApplyGuardResult,
}
use immich_doctor.Repair.Models.{RepairRun, RepairRunStatus, PlanToken, new_run, finish}
use immich_doctor.Repair.Store.{create_run, update_run}
use immich_doctor.Integrity.Models.{finding_to_dict}
use immich_doctor.Integrity.Probes.{Inspection}
use immich_doctor.MetadataFailures.Models.{
  SuggestedAction, report_only, retry_jobs, requeue, fix_permissions, quarantine_corrupt,
  mark_unrecoverable, inspect_runtime_tooling, dangerous_unknown, suggested_action_eq,
  suggested_action_value, metadata_failure_cause_value, MetadataRepairStatus,
  metadata_repair_status_eq, MetadataFailureDiagnostic, MetadataRepairAction,
  MetadataFailureInspectResult, MetadataFailureRepairResult,
}
use immich_doctor.MetadataFailures.Diagnose.{inspect}
use immich_doctor.Integrity.Installation.{Installation}
use immich_doctor.MetadataFailures.Repair.{
  RepairFlags, selected_actions, filter_diagnostics, plan_or_apply_action, final_run_status,
  repair_summary, repair_recommendations,
}
use immich_doctor.MetadataFailures.Scope.{
  Snapshot, BackupResult, Request, build_scope, actions_to_take, sorted_actions, repair_guard_check,
  snapshot_refused, snapshot_taken, snapshot_skipped, scope_check, db_fingerprint, file_fingerprint,
  Prepared,
}

module _ (platform : Platform) (installation : Installation) (q : Request) where
  unfoldable pub repair_journal_check : RepairRun → CheckResult
  repair_journal_check run = record {
    name = "repair_journal";
    status = pass;
    message = "Repair run foundation persisted manifest and journal files.";
    details = field "repair_run_id" (str run.repair_run_id) (
        field "repair_run_path"
          (str (installation.manifests_path <> "/repair/" <> run.repair_run_id))
          (field "plan_token_id" (str run.plan_token_id) end));
  }

  unfoldable pub result_metadata : Prepared → RepairRun → Fields
  result_metadata s run = field "environment" (str installation.environment) (
      field "dry_run" (bool (not q.apply)) (
        field "diagnostic_ids" (array (texts q.diagnostic_ids)) (
          field "selected_actions"
            (array
              (texts (map suggested_action_value (filter_by (contains s.selected) sorted_actions))))
            (field "repair_run_id" (str run.repair_run_id) (
              field "repair_run_path"
                (str (installation.manifests_path <> "/repair/" <> run.repair_run_id))
                (field "plan_token_id" (str s.plan_token.token_id) (
                  field "pre_repair_snapshot_id" (optional_text run.pre_repair_snapshot_id)
                    end)))))))

  -- A stop before anything is acted on: the run ends as failed.
  unfoldable pub stop :
      Prepared → String → List CheckResult → String → M MetadataFailureRepairResult
  unfolding current_instant update_run finish pure
  stop s summary checks recommendation = do
    ended ← current_instant platform
    let failed_run = finish (platform.isoformat ended) RepairRunStatus.failed s.repair_run
    update_run failed_run
    now ← current_instant platform
    pure (record {
      domain = "runtime.metadata_failures";
      action = "repair";
      summary = summary;
      checks = s.inspected.checks ++ repair_journal_check failed_run ∷ checks;
      diagnostics = s.diagnostics;
      repair_actions = [];
      post_validation = none;
      recommendations = recommendation ∷ [];
      metadata = result_metadata s failed_run;
      generated_at = platform.isoformat now;
    })

module _ (platform : Platform) (installation : Installation) (i : Inspection) (q : Request) where
  unfoldable pub post_validate : List MetadataRepairAction → M (Option MetadataFailureInspectResult)
  unfolding pure
  post_validate actions =
      if q.apply
        && any (λ (a : MetadataRepairAction). a.status == MetadataRepairStatus.repaired) actions
      then (do r ← inspect installation i platform q.limit q.offset; pure (some r))
      else pure none

  -- The loop over the diagnostics, and the end of the run.
  unfoldable pub act :
      Prepared → RepairRun → List CheckResult → CheckResult → M MetadataFailureRepairResult
  unfolding current_instant update_run finish pure
  act s repair_run guard_checks snapshot_check = do
    actions ←
        for_each (plan_or_apply_action platform i.os_message s.selected q.apply repair_run)
          s.diagnostics
    post_validation ← post_validate actions
    ended ← current_instant platform
    let finished = finish (platform.isoformat ended) (final_run_status actions) repair_run
    update_run finished
    now ← current_instant platform
    pure (record {
      domain = "runtime.metadata_failures";
      action = "repair";
      summary = repair_summary actions q.apply;
      checks =
          s.inspected.checks
          ++ repair_journal_check platform installation q repair_run
            ∷ (guard_checks ++ snapshot_check ∷ scope_check ∷ []);
      diagnostics = s.diagnostics;
      repair_actions = actions;
      post_validation = post_validation;
      recommendations = repair_recommendations actions;
      metadata = result_metadata platform installation q s finished;
      generated_at = platform.isoformat now;
    })

  unfoldable pub prepare : M Prepared
  unfolding fresh_id current_instant pure
  prepare = do
    inspected ← inspect installation i platform q.limit q.offset
    let diagnostics = filter_diagnostics inspected.diagnostics q.diagnostic_ids
    let scope = build_scope q diagnostics
    let db = db_fingerprint platform diagnostics
    let file = file_fingerprint platform diagnostics
    plan_token ← create_plan_token platform scope db file (some default_ttl) none
    run_id ← fresh_id platform
    started ← current_instant platform
    let repair_run =
        new_run (platform.isoformat started) run_id scope RepairRunStatus.running
          (build_live_state_fingerprint platform db file) plan_token.token_id
    create_run repair_run plan_token
    pure (record {
      inspected = inspected;
      diagnostics = diagnostics;
      scope = scope;
      plan_token = plan_token;
      repair_run = repair_run;
      selected = actions_to_take (selected_actions q.flags) diagnostics;
    })

  -- The second inspection, and whether the token still matches it.
  unfoldable pub guard : Prepared → M ApplyGuardResult
  guard s = do
    latest ← inspect installation i platform q.limit q.offset
    let diagnostics = filter_diagnostics latest.diagnostics q.diagnostic_ids
    validate_plan_token platform s.plan_token s.scope (db_fingerprint platform diagnostics)
        (file_fingerprint platform diagnostics) none

  -- `BackupFilesService.run` for a run and its live state fingerprint.
  module _ (backup : String → String → M BackupResult) where
    unfoldable pub after_backup :
        Prepared → CheckResult → BackupResult → M MetadataFailureRepairResult
    unfolding update_run
    after_backup s guard_result r = elim r.snapshot [
      | none ↦
          stop platform installation q s
            "Metadata failure repair stopped because the pre-repair snapshot could not be created."
            (guard_result ∷ snapshot_refused r ∷ [])
            "Configure and verify backup files so a pre-repair snapshot can be created."
      | some taken ↦
          if r.status != "success"
          then stop platform installation q s
              "Metadata failure repair stopped because the pre-repair snapshot could not be created."
              (guard_result ∷ snapshot_refused r ∷ [])
              "Configure and verify backup files so a pre-repair snapshot can be created."
          else (do
            let guarded = record (s.repair_run) { pre_repair_snapshot_id = some taken.snapshot_id }
            update_run guarded
            act s guarded (guard_result ∷ []) (snapshot_taken taken))
    ]

    unfoldable pub after_guard : Prepared → ApplyGuardResult → M MetadataFailureRepairResult
    after_guard s g =
        let guard_result = repair_guard_check g in
        if g.valid
        then (backup s.repair_run.repair_run_id s.repair_run.live_state_fingerprint
            >>= after_backup s guard_result)
        else stop platform installation q s
            "Metadata failure repair stopped because the live state changed before apply."
            (guard_result ∷ [])
            "Re-run inspect or repair to create a fresh plan token against the current live state."

    unfoldable pub guarded_apply : Prepared → M MetadataFailureRepairResult
    guarded_apply s = do g ← guard s; after_guard s g

    unfoldable pub run : M MetadataFailureRepairResult
    run = do
      s ← prepare
      (if q.apply then guarded_apply s else act s s.repair_run [] snapshot_skipped)
