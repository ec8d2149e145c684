-- ===== src/Repair/Models/RoundTrip.antt =====
-- Every record of the repair store is read back from its dictionary.
use immich_doctor.Base.{ℕ, String, ◌≡◌, refl, Option, none, some, arith}
use immich_doctor.Core.Value.{Fields, optional_text, optional_dict, optional_int}
use immich_doctor.Effects.Result.{ok, as_optional_text, as_optional_dict, as_optional_int}
use immich_doctor.Repair.Models.{
  RepairRunStatus, RepairJournalEntryStatus, UndoType, repair_run_status_value,
  repair_run_status_of, repair_journal_entry_status_value, repair_journal_entry_status_of,
  undo_type_value, undo_type_of, PlanToken, plan_token_to_dict, plan_token_from_dict, RepairRun,
  repair_run_to_dict, repair_run_from_dict, RepairJournalEntry, journal_entry_to_dict,
  journal_entry_from_dict,
}

repair_run_status_of-value :
    (s : RepairRunStatus) → repair_run_status_of (repair_run_status_value s) ≡ ok s
unfolding repair_run_status_of repair_run_status_value
repair_run_status_of-value RepairRunStatus.planned = refl
repair_run_status_of-value _ = refl

pub as_optional_text-value : (o : Option String) → as_optional_text (optional_text o) ≡ ok o
unfolding as_optional_text
as_optional_text-value none = refl
as_optional_text-value (some s) = refl

-- A plan token is read back from the dictionary that it is saved as.
pub plan_token_round_trip : (t : PlanToken) → plan_token_from_dict (plan_token_to_dict t) ≡ ok t
unfolding plan_token_to_dict plan_token_from_dict
plan_token_round_trip t = ground (arith, as_optional_text-value t.expires_at)

as_optional_dict-value : (o : Option Fields) → as_optional_dict (optional_dict o) ≡ ok o
unfolding as_optional_dict
as_optional_dict-value none = refl
as_optional_dict-value (some d) = refl

pub as_optional_int-value : (o : Option ℕ) → as_optional_int (optional_int o) ≡ ok o
unfolding as_optional_int
as_optional_int-value none = refl
as_optional_int-value (some n) = refl

journal_status_of-value :
    (s : RepairJournalEntryStatus)
    → repair_journal_entry_status_of (repair_journal_entry_status_value s) ≡ ok s
unfolding repair_journal_entry_status_of repair_journal_entry_status_value
journal_status_of-value RepairJournalEntryStatus.planned = refl
journal_status_of-value _ = refl

undo_type_of-value : (u : UndoType) → undo_type_of (undo_type_value u) ≡ ok u
unfolding undo_type_of undo_type_value
undo_type_of-value UndoType.no_undo = refl
undo_type_of-value _ = refl

-- A repair run is read back from the dictionary that it is saved as, whatever its status.
pub repair_run_round_trip : (r : RepairRun) → repair_run_from_dict (repair_run_to_dict r) ≡ ok r
unfolding repair_run_to_dict repair_run_from_dict
repair_run_round_trip r = rw (
  as_optional_text-value r.ended_at,
  repair_run_status_of-value r.status,
  as_optional_text-value r.pre_repair_snapshot_id,
  as_optional_text-value r.post_repair_snapshot_id,
)

-- A journal entry is read back from the dictionary that it is saved as.
pub journal_entry_round_trip :
    (e : RepairJournalEntry) → journal_entry_from_dict (journal_entry_to_dict e) ≡ ok e
unfolding journal_entry_to_dict journal_entry_from_dict
journal_entry_round_trip e = rw (
  journal_status_of-value e.status,
  as_optional_text-value e.asset_id,
  as_optional_text-value e.table,
  as_optional_dict-value e.old_db_values,
  as_optional_dict-value e.new_db_values,
  as_optional_text-value e.original_path,
  as_optional_text-value e.quarantine_path,
  undo_type_of-value e.undo_type,
  as_optional_dict-value e.error_details,
)
