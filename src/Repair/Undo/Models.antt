-- ===== src/Repair/Undo/Models.antt =====
-- The results of undo planning and execution (immich_doctor/repair/undo_models.py). The instants
-- `generated_at`, and the paths that are computed from the settings alone, are left out.
use immich_doctor.Base.{
  ℕ, String, Bool, Option, List, ◌∷◌, Eq, eq_of, ◌==◌, ◌||◌, contains, map, if◌then◌else◌,
}
use immich_doctor.Core.Value.{Fields}
use immich_doctor.Core.Models.{
  CheckStatus, pass, fail, warn, check_status_eq, CheckResult, check_statuses, ranked, exit_code_of,
  add_if,
}

pub data UndoEligibility : Type 0 where
  reversible_now partially_reversible not_reversible requires_full_restore : UndoEligibility

pub data UndoExecutionStatus : Type 0 where
  planned applied skipped failed : UndoExecutionStatus

abbrev pub undo_eligibility_discrete : Discrete UndoEligibility
undo_eligibility_discrete = hlevel

abbrev pub undo_execution_status_discrete : Discrete UndoExecutionStatus
undo_execution_status_discrete = hlevel

instance abbrev pub undo_eligibility_eq : Eq UndoEligibility
undo_eligibility_eq = eq_of undo_eligibility_discrete

instance abbrev pub undo_execution_status_eq : Eq UndoExecutionStatus
undo_execution_status_eq = eq_of undo_execution_status_discrete

unfoldable pub undo_eligibility_value : UndoEligibility → String
undo_eligibility_value reversible_now = "reversible_now"
undo_eligibility_value partially_reversible = "partially_reversible"
undo_eligibility_value not_reversible = "not_reversible"
undo_eligibility_value requires_full_restore = "requires_full_restore"

pub record UndoBlocker : Type 0 where
  pub code : String
  pub message : String
  pub severity : String
  pub entry_id : Option String

pub record UndoEntryAssessment : Type 0 where
  pub entry_id : String
  pub operation_type : String
  pub eligibility : UndoEligibility
  pub asset_id : Option String
  pub original_path : Option String
  pub undo_type : String
  pub blockers : List UndoBlocker
  pub details : Fields

pub record UndoExecutionItem : Type 0 where
  pub entry_id : String
  pub operation_type : String
  pub status : UndoExecutionStatus
  pub message : String
  pub original_path : Option String
  pub details : Fields

-- The dictionary `metadata` of both results; an undo run is named once there is one.
pub record UndoMetadata : Type 0 where
  pub selected_entry_ids : List String
  pub pre_repair_snapshot_id : Option String
  pub undo_repair_run_id : Option String

pub record UndoPlanResult : Type 0 where
  pub domain : String
  pub action : String
  pub summary : String
  pub repair_run_id : String
  pub target_repair_run_status : String
  pub eligibility : UndoEligibility
  pub apply_allowed : Bool
  pub checks : List CheckResult
  pub blockers : List UndoBlocker
  pub entry_assessments : List UndoEntryAssessment
  pub metadata : UndoMetadata
  pub recommendations : List String

pub record UndoExecutionResult : Type 0 where
  pub domain : String
  pub action : String
  pub summary : String
  pub repair_run_id : String
  pub target_repair_run_id : String
  pub eligibility : UndoEligibility
  pub checks : List CheckResult
  pub execution_items : List UndoExecutionItem
  pub blockers : List UndoBlocker
  pub metadata : UndoMetadata
  pub recommendations : List String

unfoldable pub plan_overall_status : UndoPlanResult → CheckStatus
unfolding ranked
plan_overall_status r =
    let statuses = check_statuses r.checks in
    ranked (
      if r.eligibility == requires_full_restore || r.eligibility == not_reversible
      then fail ∷ statuses
      else if r.eligibility == partially_reversible
      then warn ∷ statuses
      else if r.eligibility == reversible_now
      then pass ∷ statuses
      else statuses)

unfoldable pub execution_overall_status : UndoExecutionResult → CheckStatus
unfolding ranked
execution_overall_status r =
    let item_statuses = map (λ (i : UndoExecutionItem). i.status) r.execution_items in
    let statuses = check_statuses r.checks in
    ranked (
      add_if (r.eligibility == requires_full_restore) fail (
        if contains item_statuses failed
        then fail ∷ statuses
        else if contains item_statuses skipped
        then warn ∷ statuses
        else if contains item_statuses applied
        then pass ∷ statuses
        else statuses))

unfoldable pub plan_exit_code : UndoPlanResult → ℕ
unfolding exit_code_of
plan_exit_code r = exit_code_of (plan_overall_status r)

unfoldable pub execution_exit_code : UndoExecutionResult → ℕ
unfolding exit_code_of
execution_exit_code r = exit_code_of (execution_overall_status r)
