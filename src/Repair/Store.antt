-- ===== src/Repair/Store.antt =====
-- `RepairJournalStore` (immich_doctor/repair/store.py). A manifest file is kept as the dictionary,
-- or the list of dictionaries, that its JSON denotes, under the id of its run.
pub mod Journal
pub mod Quarantine
use immich_doctor.Base.{
  String, Option, none, some, List, [], ◌∷◌, ◌++◌, Dict, lookup, insert, values, ◌==◌, string_eq,
  if◌then◌else◌,
}
use immich_doctor.Core.Value.{Fields}
use immich_doctor.Effects.Result.{Result, ok, raised, file_not_found, traverse}
use immich_doctor.Effects.World.{World, M, lift, ◌>>=◌, continue}
use immich_doctor.Repair.Models.{
  PlanToken, plan_token_to_dict, plan_token_from_dict, RepairRun, repair_run_to_dict,
  repair_run_from_dict, RepairJournalEntry, journal_entry_to_dict, journal_entry_from_dict,
}
use immich_doctor.Repair.Items.{QuarantineItem, quarantine_item_to_dict, quarantine_item_from_dict}

-- `_read_json_lines`: a missing file has no rows.
unfoldable pub read_json_lines : String → Dict (List Fields) → List Fields
read_json_lines k d = elim (lookup k d) [ none ↦ [] | some rows ↦ rows ]

-- `_append_json_line`
unfoldable pub append_json_line : String → Fields → Dict (List Fields) → Dict (List Fields)
unfolding read_json_lines
append_json_line k row d = insert k (read_json_lines k d ++ row ∷ []) d

-- `touch(exist_ok=True)`
unfoldable pub touch : String → Dict (List Fields) → Dict (List Fields)
unfolding read_json_lines
touch k d = insert k (read_json_lines k d) d

-- `_read_json`
unfoldable pub read_json : String → Dict Fields → Result Fields
read_json k d = elim (lookup k d) [ none ↦ raised file_not_found | some payload ↦ ok payload ]

unfoldable pub create_run : RepairRun → PlanToken → M (Unit {0})
unfolding touch
create_run run token w = (
  ok tt,
  record w {
    runs = insert run.repair_run_id (repair_run_to_dict run) w.runs;
    plan_tokens = insert run.repair_run_id (plan_token_to_dict token) w.plan_tokens;
    journals = touch run.repair_run_id w.journals;
    quarantine_items = touch run.repair_run_id w.quarantine_items;
  },
)

unfoldable pub update_run : RepairRun → M (Unit {0})
update_run run w =
    (ok tt, record w { runs = insert run.repair_run_id (repair_run_to_dict run) w.runs })

unfoldable pub append_journal_entry : RepairJournalEntry → M (Unit {0})
unfolding append_json_line
append_journal_entry entry w = (
  ok tt,
  record w {
    journals = append_json_line entry.repair_run_id (journal_entry_to_dict entry) w.journals;
  },
)

unfoldable pub append_quarantine_item : QuarantineItem → M (Unit {0})
unfolding append_json_line
append_quarantine_item item w =
    let payload = quarantine_item_to_dict item in
    (
      ok tt,
      record w {
        quarantine_items = append_json_line item.repair_run_id payload w.quarantine_items;
        quarantine_index = w.quarantine_index ++ payload ∷ [];
      },
    )

module _ (repair_run_id : String) where
  unfoldable pub load_run : M RepairRun
  unfolding read_json
  load_run w = (
    elim (read_json repair_run_id w.runs) [
      | ok payload ↦ repair_run_from_dict payload
      | raised e ↦ raised e
    ],
    w,
  )

  unfoldable pub load_plan_token : M PlanToken
  unfolding read_json
  load_plan_token w = (
    elim (read_json repair_run_id w.plan_tokens) [
      | ok payload ↦ plan_token_from_dict payload
      | raised e ↦ raised e
    ],
    w,
  )

  unfoldable pub load_journal_entries : M (List RepairJournalEntry)
  unfolding read_json_lines traverse
  load_journal_entries w =
      (traverse journal_entry_from_dict (read_json_lines repair_run_id w.journals), w)

-- `_collapse_quarantine_items`: the loop over the items, then the values of the dictionary.
unfoldable pub latest_by_id : Dict QuarantineItem → List QuarantineItem → Dict QuarantineItem
latest_by_id d [] = d
latest_by_id d (item ∷ l) = latest_by_id (insert item.quarantine_item_id item d) l

unfoldable pub collapse_quarantine_items : List QuarantineItem → List QuarantineItem
unfolding latest_by_id
collapse_quarantine_items l = values (latest_by_id [] l)

abbrev collapsed : Result (List QuarantineItem) → Result (List QuarantineItem)
collapsed (ok l) = ok (collapse_quarantine_items l)
collapsed (raised e) = raised e

unfoldable pub load_quarantine_items : String → M (List QuarantineItem)
unfolding read_json_lines traverse collapse_quarantine_items
load_quarantine_items repair_run_id w = (
  collapsed (traverse quarantine_item_from_dict (read_json_lines repair_run_id w.quarantine_items)),
  w,
)

unfoldable pub load_quarantine_index : M (List QuarantineItem)
unfolding traverse collapse_quarantine_items
load_quarantine_index w = (collapsed (traverse quarantine_item_from_dict w.quarantine_index), w)
