-- ===== src/Repair/Store/Journal.antt =====
-- Runs and journals as the store gives them back.
use immich_doctor.Base.{
  String, ◌≡◌, List, [], ◌∷◌, ◌++◌, Dict, ◌==◌, string_eq, if◌then◌else◌, arith, eq_iff,
  lookup-insert,
}
use immich_doctor.Core.Value.{Fields}
use immich_doctor.Effects.Result.{ok, traverse-append_one}
use immich_doctor.Effects.World.{World}
use immich_doctor.Repair.Models.{
  RepairRun, RepairJournalEntry, repair_run_to_dict, journal_entry_from_dict, journal_entry_to_dict,
}
use immich_doctor.Repair.Models.RoundTrip.{repair_run_round_trip, journal_entry_round_trip}
use immich_doctor.Repair.Store.{
  read_json_lines, append_json_line, update_run, append_journal_entry, load_run,
  load_journal_entries,
}

-- What was saved last under a run's id is what is loaded.
pub load_run-update_run :
    (run : RepairRun) (w : World) → (load_run run.repair_run_id (update_run run w).1).0 ≡ ok run
unfolding load_run update_run
load_run-update_run run w = ground (
  arith,
  lookup-insert run.repair_run_id run.repair_run_id (repair_run_to_dict run) w.runs,
  eq_iff run.repair_run_id run.repair_run_id,
  repair_run_round_trip run,
)

rows-append :
    (k j : String) (row : Fields) (d : Dict (List Fields))
    → read_json_lines j (append_json_line k row d)
      ≡ (if k == j then read_json_lines j d ++ row ∷ [] else read_json_lines j d)
unfolding read_json_lines append_json_line
rows-append k j row d =
    ground (arith, lookup-insert k j (read_json_lines k d ++ row ∷ []) d, eq_iff k j)

-- What is appended to the journal of a run that is read without error is read at its end, and the
-- journals of the other runs are read as before.
pub load_journal_entries-append :
    (e : RepairJournalEntry) (j : String) (w : World) {es : List RepairJournalEntry}
    → (load_journal_entries j w).0 ≡ ok es
    → (load_journal_entries j (append_journal_entry e w).1).0
      ≡ ok (if e.repair_run_id == j then es ++ e ∷ [] else es)
unfolding load_journal_entries append_journal_entry
load_journal_entries-append e j w h = ground (
  arith,
  rows-append e.repair_run_id j (journal_entry_to_dict e) w.journals,
  traverse-append_one journal_entry_from_dict (read_json_lines j w.journals)
      (journal_entry_to_dict e),
  journal_entry_round_trip e,
)
