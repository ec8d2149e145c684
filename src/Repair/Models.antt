-- ===== src/Repair/Models.antt =====
-- The records of immich_doctor/repair/models.py and their dictionaries.
pub mod RoundTrip
use immich_doctor.Base.{
  ℕ, String, Bool, true, false, Option, none, some, List, [], ◌∷◌, Eq, eq_of, ◌==◌, string_eq,
  if◌then◌else◌,
}
use immich_doctor.Core.Value.{
  Value, Fields, end, field, null, bool, int, str, object, optional_text, optional_int,
  optional_dict, get_or_null, get_field, truthy,
}
use immich_doctor.Effects.Result.{
  Result, ok, raised, value_error, ◌>>=◌, require, as_text, as_optional_text, as_optional_int,
  as_dict, as_optional_dict,
}

pub data RepairRunStatus : Type 0 where
  planned running completed partial failed : RepairRunStatus

pub data RepairJournalEntryStatus : Type 0 where
  planned applied skipped failed : RepairJournalEntryStatus

pub data UndoType : Type 0 where
  no_undo restore_permissions restore_db_values restore_quarantine_file : UndoType

abbrev pub repair_run_status_discrete : Discrete RepairRunStatus
repair_run_status_discrete = hlevel

abbrev pub repair_journal_entry_status_discrete : Discrete RepairJournalEntryStatus
repair_journal_entry_status_discrete = hlevel

abbrev pub undo_type_discrete : Discrete UndoType
undo_type_discrete = hlevel

instance abbrev pub repair_run_status_eq : Eq RepairRunStatus
repair_run_status_eq = eq_of repair_run_status_discrete

instance abbrev pub repair_journal_entry_status_eq : Eq RepairJournalEntryStatus
repair_journal_entry_status_eq = eq_of repair_journal_entry_status_discrete

instance abbrev pub undo_type_eq : Eq UndoType
undo_type_eq = eq_of undo_type_discrete

unfoldable pub repair_run_status_value : RepairRunStatus → String
repair_run_status_value RepairRunStatus.planned = "planned"
repair_run_status_value RepairRunStatus.running = "running"
repair_run_status_value RepairRunStatus.completed = "completed"
repair_run_status_value RepairRunStatus.partial = "partial"
repair_run_status_value RepairRunStatus.failed = "failed"

-- `RepairRunStatus(value)`
unfoldable pub repair_run_status_of : String → Result RepairRunStatus
repair_run_status_of v =
    if v == "planned"
    then ok RepairRunStatus.planned
    else if v == "running"
    then ok RepairRunStatus.running
    else if v == "completed"
    then ok RepairRunStatus.completed
    else if v == "partial"
    then ok RepairRunStatus.partial
    else if v == "failed"
    then ok RepairRunStatus.failed
    else raised value_error

unfoldable pub repair_journal_entry_status_value : RepairJournalEntryStatus → String
repair_journal_entry_status_value RepairJournalEntryStatus.planned = "planned"
repair_journal_entry_status_value RepairJournalEntryStatus.applied = "applied"
repair_journal_entry_status_value RepairJournalEntryStatus.skipped = "skipped"
repair_journal_entry_status_value RepairJournalEntryStatus.failed = "failed"

-- `RepairJournalEntryStatus(value)`
unfoldable pub repair_journal_entry_status_of : String → Result RepairJournalEntryStatus
repair_journal_entry_status_of v =
    if v == "planned"
    then ok RepairJournalEntryStatus.planned
    else if v == "applied"
    then ok RepairJournalEntryStatus.applied
    else if v == "skipped"
    then ok RepairJournalEntryStatus.skipped
    else if v == "failed"
    then ok RepairJournalEntryStatus.failed
    else raised value_error

unfoldable pub undo_type_value : UndoType → String
undo_type_value UndoType.no_undo = "none"
undo_type_value UndoType.restore_permissions = "restore_permissions"
undo_type_value UndoType.restore_db_values = "restore_db_values"
undo_type_value UndoType.restore_quarantine_file = "restore_quarantine_file"

-- `UndoType(value)`
unfoldable pub undo_type_of : String → Result UndoType
undo_type_of v =
    if v == "none"
    then ok UndoType.no_undo
    else if v == "restore_permissions"
    then ok UndoType.restore_permissions
    else if v == "restore_db_values"
    then ok UndoType.restore_db_values
    else if v == "restore_quarantine_file"
    then ok UndoType.restore_quarantine_file
    else raised value_error

pub record PlanToken : Type 0 where
  pub token_id : String
  pub created_at : String
  pub scope : Fields
  pub db_fingerprint : String
  pub file_fingerprint : String
  pub expires_at : Option String

unfoldable pub plan_token_to_dict : PlanToken → Fields
plan_token_to_dict x = field "token_id" (str x.token_id) (
    field "created_at" (str x.created_at) (
      field "scope" (object x.scope) (
        field "db_fingerprint" (str x.db_fingerprint) (
          field "file_fingerprint" (str x.file_fingerprint)
            (field "expires_at" (optional_text x.expires_at) end)))))

unfoldable pub plan_token_from_dict : Fields → Result PlanToken
unfolding require get_or_null as_text as_optional_text as_optional_int as_dict as_optional_dict
    truthy
plan_token_from_dict payload = do
  token_id ← require "token_id" payload >>= as_text
  created_at ← require "created_at" payload >>= as_text
  scope ← require "scope" payload >>= as_dict
  db_fingerprint ← require "db_fingerprint" payload >>= as_text
  file_fingerprint ← require "file_fingerprint" payload >>= as_text
  expires_at ← as_optional_text (get_or_null "expires_at" payload)
  ok (record {
    token_id = token_id;
    created_at = created_at;
    scope = scope;
    db_fingerprint = db_fingerprint;
    file_fingerprint = file_fingerprint;
    expires_at = expires_at;
  })

pub record RepairRun : Type 0 where
  pub repair_run_id : String
  pub started_at : String
  pub ended_at : Option String
  pub scope : Fields
  pub status : RepairRunStatus
  pub live_state_fingerprint : String
  pub plan_token_id : String
  pub pre_repair_snapshot_id : Option String
  pub post_repair_snapshot_id : Option String

unfoldable pub repair_run_to_dict : RepairRun → Fields
unfolding repair_run_status_value
repair_run_to_dict x = field "repair_run_id" (str x.repair_run_id) (
    field "started_at" (str x.started_at) (
      field "ended_at" (optional_text x.ended_at) (
        field "scope" (object x.scope) (
          field "status" (str (repair_run_status_value x.status)) (
            field "live_state_fingerprint" (str x.live_state_fingerprint) (
              field "plan_token_id" (str x.plan_token_id) (
                field "pre_repair_snapshot_id" (optional_text x.pre_repair_snapshot_id) (
                  field "post_repair_snapshot_id" (optional_text x.post_repair_snapshot_id)
                    end))))))))

unfoldable pub repair_run_from_dict : Fields → Result RepairRun
unfolding require get_or_null as_text as_optional_text as_optional_int as_dict as_optional_dict
    truthy repair_run_status_of
repair_run_from_dict payload = do
  repair_run_id ← require "repair_run_id" payload >>= as_text
  started_at ← require "started_at" payload >>= as_text
  ended_at ← as_optional_text (get_or_null "ended_at" payload)
  scope ← require "scope" payload >>= as_dict
  status ← require "status" payload >>= as_text >>= repair_run_status_of
  live_state_fingerprint ← require "live_state_fingerprint" payload >>= as_text
  plan_token_id ← require "plan_token_id" payload >>= as_text
  pre_repair_snapshot_id ← as_optional_text (get_or_null "pre_repair_snapshot_id" payload)
  post_repair_snapshot_id ← as_optional_text (get_or_null "post_repair_snapshot_id" payload)
  ok (record {
    repair_run_id = repair_run_id;
    started_at = started_at;
    ended_at = ended_at;
    scope = scope;
    status = status;
    live_state_fingerprint = live_state_fingerprint;
    plan_token_id = plan_token_id;
    pre_repair_snapshot_id = pre_repair_snapshot_id;
    post_repair_snapshot_id = post_repair_snapshot_id;
  })

-- `RepairRun.finish`, at the instant `now`
unfoldable pub finish : String → RepairRunStatus → RepairRun → RepairRun
finish now status run = record run { status = status; ended_at = some now }

-- `RepairRun.new`, at the instant `now` and with no post-repair snapshot, as every caller has it
unfoldable pub new_run : String → String → Fields → RepairRunStatus → String → String → RepairRun
new_run now repair_run_id scope status live_state_fingerprint plan_token_id = record {
  repair_run_id = repair_run_id;
  started_at = now;
  ended_at = none;
  scope = scope;
  status = status;
  live_state_fingerprint = live_state_fingerprint;
  plan_token_id = plan_token_id;
  pre_repair_snapshot_id = none;
  post_repair_snapshot_id = none;
}

pub record RepairJournalEntry : Type 0 where
  pub entry_id : String
  pub repair_run_id : String
  pub operation_type : String
  pub status : RepairJournalEntryStatus
  pub asset_id : Option String
  pub table : Option String
  pub old_db_values : Option Fields
  pub new_db_values : Option Fields
  pub original_path : Option String
  pub quarantine_path : Option String
  pub undo_type : UndoType
  pub undo_payload : Fields
  pub error_details : Option Fields
  pub created_at : String

unfoldable pub journal_entry_to_dict : RepairJournalEntry → Fields
unfolding repair_journal_entry_status_value undo_type_value
journal_entry_to_dict x = field "entry_id" (str x.entry_id) (
    field "repair_run_id" (str x.repair_run_id) (
      field "operation_type" (str x.operation_type) (
        field "status" (str (repair_journal_entry_status_value x.status)) (
          field "asset_id" (optional_text x.asset_id) (
            field "table" (optional_text x.table) (
              field "old_db_values" (optional_dict x.old_db_values) (
                field "new_db_values" (optional_dict x.new_db_values) (
                  field "original_path" (optional_text x.original_path) (
                    field "quarantine_path" (optional_text x.quarantine_path) (
                      field "undo_type" (str (undo_type_value x.undo_type)) (
                        field "undo_payload" (object x.undo_payload) (
                          field "error_details" (optional_dict x.error_details)
                            (field "created_at" (str x.created_at) end)))))))))))))

unfoldable pub journal_entry_from_dict : Fields → Result RepairJournalEntry
unfolding require get_or_null as_text as_optional_text as_optional_int as_dict as_optional_dict
    truthy repair_journal_entry_status_of undo_type_of
journal_entry_from_dict payload = do
  entry_id ← require "entry_id" payload >>= as_text
  repair_run_id ← require "repair_run_id" payload >>= as_text
  operation_type ← require "operation_type" payload >>= as_text
  status ← require "status" payload >>= as_text >>= repair_journal_entry_status_of
  asset_id ← as_optional_text (get_or_null "asset_id" payload)
  table ← as_optional_text (get_or_null "table" payload)
  old_db_values ← as_optional_dict (get_or_null "old_db_values" payload)
  new_db_values ← as_optional_dict (get_or_null "new_db_values" payload)
  original_path ← as_optional_text (get_or_null "original_path" payload)
  quarantine_path ← as_optional_text (get_or_null "quarantine_path" payload)
  undo_type ← require "undo_type" payload >>= as_text >>= undo_type_of
  undo_payload ← elim (get_field "undo_payload" payload) [ none ↦ ok end | some v ↦ as_dict v ]
  error_details ← as_optional_dict (get_or_null "error_details" payload)
  created_at ← require "created_at" payload >>= as_text
  ok (record {
    entry_id = entry_id;
    repair_run_id = repair_run_id;
    operation_type = operation_type;
    status = status;
    asset_id = asset_id;
    table = table;
    old_db_values = old_db_values;
    new_db_values = new_db_values;
    original_path = original_path;
    quarantine_path = quarantine_path;
    undo_type = undo_type;
    undo_payload = undo_payload;
    error_details = error_details;
    created_at = created_at;
  })
