-- ===== src/Tests/Code.antt =====
-- One name that opens the definitions of the repair foundation, for runs at concrete data.
use immich_doctor.Base.{decimal}
use immich_doctor.Core.Value.{get_field, get_or_null, truthy}
use immich_doctor.Core.Models.{
  ranked, exit_code_of, report_overall_status, report_exit_code, repair_report_overall_status,
  repair_report_exit_code,
}
use immich_doctor.Effects.Result.{
  require, as_text, as_optional_text, as_optional_int, as_dict, as_optional_dict, traverse,
}
use immich_doctor.Effects.World.{
  pure, raise, lift, gets, attempt, for_each, current_instant, fresh_id,
}
use immich_doctor.Filesystem.{stat_path, chmod_node, set_permissions, add_read_permissions}
use immich_doctor.Repair.Models.{
  repair_run_status_value, repair_run_status_of, repair_journal_entry_status_value,
  repair_journal_entry_status_of, undo_type_value, undo_type_of, plan_token_to_dict,
  plan_token_from_dict, repair_run_to_dict, repair_run_from_dict, finish, new_run,
  journal_entry_to_dict, journal_entry_from_dict,
}
use immich_doctor.Repair.Items.{quarantine_item_to_dict, quarantine_item_from_dict}
use immich_doctor.Repair.Guards.{
  fingerprint_payload, build_live_state_fingerprint, instant_or_now, create_plan_token,
  validate_bindings, judge, token_expired, validate_plan_token, normalize,
}
use immich_doctor.Repair.Store.{
  read_json_lines, append_json_line, touch, read_json, create_run, update_run, append_journal_entry,
  append_quarantine_item, load_run, load_plan_token, load_journal_entries, latest_by_id,
  collapse_quarantine_items, load_quarantine_items, load_quarantine_index,
}
use immich_doctor.Repair.Undo.Models.{
  undo_eligibility_value, plan_overall_status, execution_overall_status, plan_exit_code,
  execution_exit_code,
}
use immich_doctor.Repair.Undo.Plan.{
  select_entries, entry_blockers, path_value, text_of, path_of, int_of, assess_mode, assess_file,
  assess_entry, global_blockers, eligibility_of, plan_checks, plan_summary, plan_recommendations,
  plan_result, plan,
}
use immich_doctor.Repair.Undo.Execute.{
  final_status, execution_summary, journal_check, dry_run_result, blocked_result, guard_check,
  applied_result, undo_entries, undo_drifted, undo_reversible, execute,
}
use immich_doctor.Repair.Undo.Restore.{
  handled, after_chmod, after_stat, restore_mode, file_state_payload, undo_journal_entry,
  record_undo, execute_entry,
}
use immich_doctor.Tests.Platform.{plain}

unfoldable pub repair_code : Unit {0}
unfolding decimal get_field get_or_null truthy ranked exit_code_of report_overall_status
    report_exit_code repair_report_overall_status repair_report_exit_code require as_text
    as_optional_text as_optional_int as_dict as_optional_dict traverse pure raise lift gets attempt
    for_each current_instant fresh_id stat_path chmod_node set_permissions add_read_permissions
    repair_run_status_value repair_run_status_of repair_journal_entry_status_value
    repair_journal_entry_status_of undo_type_value undo_type_of plan_token_to_dict
    plan_token_from_dict repair_run_to_dict repair_run_from_dict finish new_run
    journal_entry_to_dict journal_entry_from_dict quarantine_item_to_dict quarantine_item_from_dict
    fingerprint_payload build_live_state_fingerprint instant_or_now create_plan_token
    validate_bindings judge token_expired validate_plan_token normalize read_json_lines
    append_json_line touch read_json create_run update_run append_journal_entry
    append_quarantine_item load_run load_plan_token load_journal_entries latest_by_id
    collapse_quarantine_items load_quarantine_items load_quarantine_index undo_eligibility_value
    plan_overall_status execution_overall_status plan_exit_code execution_exit_code select_entries
    entry_blockers path_value text_of path_of int_of assess_mode assess_file assess_entry
    global_blockers eligibility_of plan_checks plan_summary plan_recommendations plan_result plan
    final_status execution_summary journal_check handled after_chmod after_stat restore_mode
    file_state_payload undo_journal_entry record_undo execute_entry dry_run_result blocked_result
    guard_check applied_result undo_entries undo_drifted undo_reversible execute plain
repair_code = tt
