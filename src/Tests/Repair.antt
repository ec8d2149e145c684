-- ===== src/Tests/Repair.antt =====
-- The repair foundation at concrete data.
use immich_doctor.Base.{
  Option, ℕ, ◌+◌, ◌≤◌, String, ◌≡◌, ◌↔◌, refl, true, none, some, List, [], ◌∷◌, arith,
  if◌then◌else◌, ◌==◌, string_eq,
}
use immich_doctor.Core.Value.{Value, null, bool, int, str, Fields, end, field, object}
use immich_doctor.Core.Models.{ValidationReport, pass, fail, warn}
use immich_doctor.Effects.Result.{ok}
use immich_doctor.Effects.World.{World, Node, absent, present}
use immich_doctor.Repair.Models
use immich_doctor.Repair.Models.{
  RepairRun, RepairRunStatus, RepairJournalEntry, RepairJournalEntryStatus, UndoType, PlanToken,
  repair_run_to_dict, journal_entry_to_dict, plan_token_to_dict, repair_run_from_dict,
  journal_entry_from_dict, plan_token_from_dict,
}
use immich_doctor.Repair.Items.{QuarantineItem}
use immich_doctor.Repair.Models.RoundTrip.{repair_run_round_trip, journal_entry_round_trip}
use immich_doctor.Repair.Guards.{validate_plan_token, ApplyGuardResult, default_ttl}
use immich_doctor.Repair.Guards.Validity.{is_plain, HaveSameItems, validate-create}
use immich_doctor.Repair.Store.{
  load_run, update_run, load_journal_entries, append_journal_entry, collapse_quarantine_items,
}
use immich_doctor.Repair.Store.Journal.{load_run-update_run, load_journal_entries-append}
use immich_doctor.Repair.Store.Quarantine.{item_with_id, HasDistinctIds, collapse-latest}
use immich_doctor.Repair.Undo.Models.{UndoPlanResult, reversible_now}
use immich_doctor.Repair.Undo.Plan.{plan, plan_result, assess_mode}
use immich_doctor.Repair.Undo.Plan.Eligible.{IsUndoable, plan-reads}
use immich_doctor.Repair.Undo.Plan.Enough.{plan-ready}
use immich_doctor.Repair.Undo.Plan.Ready.{IsReady, plan-reversible}
use immich_doctor.Repair.Undo.Execute.{execute}
use immich_doctor.Repair.Undo.Execute.Guarded.{execute-unchanged}
use immich_doctor.Tests.Code.{repair_code}
use immich_doctor.Tests.Platform.{plain, plain-ParsesIso, plain-HasNoCollision}

abbrev done_run : RepairRun
done_run = record {
  repair_run_id = "run";
  started_at = "s";
  ended_at = some "e";
  scope = end;
  status = RepairRunStatus.completed;
  live_state_fingerprint = "f";
  plan_token_id = "t";
  pre_repair_snapshot_id = none;
  post_repair_snapshot_id = none;
}

abbrev mode_payload : Fields
mode_payload =
    field "path" (str "/a") (field "old_mode" (int 0o200) (field "new_mode" (int 0o640) end))

abbrev fixed_entry : RepairJournalEntry
fixed_entry = record {
  entry_id = "e1";
  repair_run_id = "run";
  operation_type = "fix_permissions";
  status = RepairJournalEntryStatus.applied;
  asset_id = some "a";
  table = none;
  old_db_values = none;
  new_db_values = none;
  original_path = some "/a";
  quarantine_path = none;
  undo_type = UndoType.restore_permissions;
  undo_payload = mode_payload;
  error_details = none;
  created_at = "c";
}

abbrev disk : String → Node
disk q = if q == "/a" then present 0o100640 true else absent

abbrev world : World
world = record {
  files = disk;
  runs = ("run", repair_run_to_dict done_run) ∷ [];
  plan_tokens = [];
  journals = ("run", journal_entry_to_dict fixed_entry ∷ []) ∷ [];
  quarantine_items = [];
  quarantine_index = [];
  questions = 0;
}

repair_run_round_trip_example :
    Models.repair_run_from_dict (repair_run_to_dict done_run) ≡ ok done_run
repair_run_round_trip_example = repair_run_round_trip done_run

journal_entry_round_trip_example :
    Models.journal_entry_from_dict (journal_entry_to_dict fixed_entry) ≡ ok fixed_entry
journal_entry_round_trip_example = journal_entry_round_trip fixed_entry

load_run-update_run_example : (load_run "run" (update_run done_run world).1).0 ≡ ok done_run
load_run-update_run_example = load_run-update_run done_run world

load_journal_entries-append_example :
    (load_journal_entries "run" (append_journal_entry fixed_entry world).1).0
    ≡ ok (fixed_entry ∷ fixed_entry ∷ [])
unfolding repair_code
load_journal_entries-append_example =
    load_journal_entries-append fixed_entry "run" world {es = fixed_entry ∷ []} refl

abbrev quarantined : String → String → QuarantineItem
quarantined id state = record {
  quarantine_item_id = id;
  repair_run_id = "run";
  asset_id = none;
  source_path = "/a";
  quarantine_path = "/q/a";
  reason = "corrupt";
  checksum = none;
  size_bytes = none;
  restorable = true;
  owner_id = none;
  owner_label = none;
  category_key = none;
  finding_id = none;
  source_kind = none;
  root_slug = none;
  relative_path = none;
  original_relative_path = none;
  db_reference_kind = none;
  state = state;
  state_changed_at = none;
  deleted_at = none;
  created_at = "c";
}

abbrev three_rows : List QuarantineItem
three_rows = quarantined "q" "active" ∷ quarantined "r" "active" ∷ quarantined "q" "deleted" ∷ []

collapse-latest_example :
    (item_with_id "q" (collapse_quarantine_items three_rows) ≡ some (quarantined "q" "deleted"))
    × HasDistinctIds (collapse_quarantine_items three_rows)
collapse-latest_example = collapse-latest "q" three_rows

abbrev report : ValidationReport
report = record {
  domain = "backup";
  action = "verify";
  summary = "";
  checks =
      record { name = "a"; status = pass; message = ""; details = end }
      ∷ record { name = "b"; status = warn; message = ""; details = end }
      ∷ [];
  sections = record { name = "s"; status = fail; rows = [] } ∷ [];
  metrics = [];
  recommendations = [];
  metadata = end;
  generated_at = 0;
}

abbrev ten_minutes : ℕ
ten_minutes = 600_000_000

abbrev scope_of : String → Fields
scope_of domain = field "domain" (str domain) (field "limit" null (field "apply" (bool true) end))

-- The reading of the texts of two scopes.
abbrev loads_two : String → Option Value
loads_two t =
    if t == "{domain:'runtime',limit:null,apply:true,}"
    then some (object (scope_of "runtime"))
    else if t == "{domain:'storage',limit:null,apply:true,}"
    then some (object (scope_of "storage"))
    else none

-- Ten minutes after a token of thirty was made for one scope, on an unchanged state, another scope
-- is checked.
validate-create_example :
    (g : ApplyGuardResult) × ((validate_plan_token plain
        (record {
          token_id = "id-0";
          created_at = plain.isoformat 5;
          scope = scope_of "runtime";
          db_fingerprint = "d";
          file_fingerprint = "f";
          expires_at = some (plain.isoformat 1_800_000_005);
        })
        (scope_of "storage")
        "d"
        "f"
        (some ten_minutes)
        world).0
      ≡ ok g)
    × ((g.valid ≡ true) ↔ (
        (ten_minutes ≤ 5 + default_ttl)
        × HaveSameItems plain (scope_of "storage") (scope_of "runtime")
        × (◌≡◌ {A = String} "d" "d")
        × (◌≡◌ {A = String} "f" "f")))
unfolding repair_code is_plain
validate-create_example =
    validate-create plain plain-ParsesIso plain-HasNoCollision loads_two (scope_of "runtime")
      (scope_of "storage") "d" "f" "d" "f" default_ttl 5 ten_minutes world refl refl
      (record { round_trip = refl }) (record { round_trip = refl }) refl

plan-reads_example : (plan plain "run" [] world).1 ≡ world
plan-reads_example = plan-reads plain "run" [] world

abbrev planned_undo : UndoPlanResult
unfolding repair_code
planned_undo = plan_result "run" done_run (fixed_entry ∷ []) (fixed_entry ∷ []) (
    assess_mode plain fixed_entry []
      (field "path" (str "/a") (
        field "old_mode" (int 0o200)
          (field "new_mode" (int 0o640) (field "current_mode" (int 0o640) end))))
      0o640 0o640
    ∷ [])

plan-reversible_example :
    (run : RepairRun) × (entries : List RepairJournalEntry) × IsReady plain world "run" [] run
      entries
unfolding repair_code
plan-reversible_example = plan-reversible plain "run" [] world {p = planned_undo} refl refl

-- The file of the entry is gone.
abbrev emptied : World
emptied = record world { files = λ q. absent }

execute-unchanged_example : (execute plain "run" [] true emptied).1 ≡ emptied
unfolding repair_code
execute-unchanged_example = execute-unchanged plain "run" [] emptied true (λ _ p h r. ground arith)

fixed_entry-IsUndoable : IsUndoable plain world fixed_entry
unfolding repair_code
fixed_entry-IsUndoable = record {
  was_applied = refl;
  restores_permissions = refl;
  has_path = refl;
  has_old_mode = refl;
  has_new_mode = refl;
  st_mode = 0o100640;
  exists = refl;
  undrifted = refl;
}

world-IsReady : IsReady plain world "run" [] done_run (fixed_entry ∷ [])
unfolding repair_code
world-IsReady = record {
  loads_run = refl;
  loads_journal = refl;
  completed = refl;
  no_failure = refl;
  some_selected = refl;
  all_undoable = (fixed_entry-IsUndoable, tt);
}

plan-ready_example :
    (p : UndoPlanResult) × (plan plain "run" [] world ≡ (ok p, world))
    × (p.eligibility ≡ reversible_now)
plan-ready_example = plan-ready plain "run" [] world done_run (fixed_entry ∷ []) world-IsReady
