-- ===== src/Tests/MetadataCode.antt =====
-- One name that opens the definitions of the integrity analysis and of the metadata repair.
use immich_doctor.Integrity.Models.{
  file_role_value, file_integrity_status_value, media_kind_value, finding_to_dict,
  ranked_inspection, integrity_overall_status, integrity_exit_code, summary_items_of,
  build_summary_items,
}
use immich_doctor.Integrity.Analyzer.{
  is_type_mismatch, probe_media, extension_of, stat_failed, read_failed, probed, read_checked,
  stat_checked, inspect_file, file_role_of, media_kind_of, source_subject, file_subject, files_of,
  inspect_records,
}
use immich_doctor.Integrity.Probes.{expected_formats, map_probe_status}
use immich_doctor.MetadataFailures.Models.{
  metadata_failure_cause_value, metadata_failure_level_value, suggested_action_value,
  confidence_level_value, metadata_repair_status_value, inspect_overall_status, inspect_exit_code,
  repair_overall_status, repair_exit_code,
}
use immich_doctor.MetadataFailures.Diagnose.{
  is_path_mismatch, classify_root_cause, diagnostic_of, build_diagnostic, diagnose,
  candidates_result, connected_result, inspect_result, inspect,
}
use immich_doctor.Integrity.Installation.{batch_size_of}
use immich_doctor.MetadataFailures.Causes.{
  available_actions, classify, findings_of, first_source, cause_counts, inspect_summary,
  inspect_recommendations, profile_check, ffprobe_check,
}
use immich_doctor.MetadataFailures.Repair.{
  selected_actions, filter_diagnostics, supports_apply, plan_reason, caught, after_fix,
  after_old_mode, permission_fix, fix_action, journal_status, action_undo_type, action_entry,
  record_action, apply_permission_fix, chosen_action, plan_or_apply_action, final_run_status,
  repair_summary, repair_recommendations,
}
use immich_doctor.MetadataFailures.Run.{
  repair_journal_check, result_metadata, stop, post_validate, act, prepare, guard, after_backup,
  after_guard, guarded_apply, run,
}
use immich_doctor.MetadataFailures.Scope.{
  build_scope, actions_to_take, repair_guard_check, db_fingerprint, file_fingerprint,
}
use immich_doctor.Effects.World.{gets}
use immich_doctor.Tests.Code.{repair_code}

unfoldable pub metadata_code : Unit {0}
unfolding repair_code gets file_role_value file_integrity_status_value media_kind_value
    finding_to_dict ranked_inspection integrity_overall_status integrity_exit_code summary_items_of
    build_summary_items expected_formats map_probe_status is_type_mismatch probe_media extension_of
    stat_failed read_failed probed read_checked stat_checked inspect_file file_role_of media_kind_of
    source_subject file_subject files_of inspect_records metadata_failure_cause_value
    metadata_failure_level_value suggested_action_value confidence_level_value
    metadata_repair_status_value inspect_overall_status inspect_exit_code repair_overall_status
    repair_exit_code available_actions classify findings_of first_source cause_counts
    inspect_summary inspect_recommendations profile_check ffprobe_check is_path_mismatch
    classify_root_cause diagnostic_of build_diagnostic batch_size_of diagnose candidates_result
    connected_result inspect_result inspect selected_actions filter_diagnostics supports_apply
    plan_reason caught after_fix after_old_mode permission_fix fix_action journal_status
    action_undo_type action_entry record_action apply_permission_fix chosen_action
    plan_or_apply_action final_run_status repair_summary repair_recommendations build_scope
    actions_to_take repair_guard_check db_fingerprint file_fingerprint repair_journal_check
    result_metadata stop post_validate act prepare guard after_backup after_guard guarded_apply run
metadata_code = tt
