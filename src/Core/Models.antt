-- ===== src/Core/Models.antt =====
-- `CheckStatus`, `CheckResult` and the reports of immich_doctor/core/models.py.
use immich_doctor.Base.{ℕ, String, Bool, Option, List, ◌∷◌, ◌++◌, map}
use immich_doctor.Base.{Eq, eq_of, ◌==◌, any, contains, if◌then◌else◌}
use immich_doctor.Core.Value.{Fields}

pub data CheckStatus : Type 0 where
  pass fail warn skip : CheckStatus

abbrev pub check_status_discrete : Discrete CheckStatus
check_status_discrete = hlevel

instance abbrev pub check_status_eq : Eq CheckStatus
check_status_eq = eq_of check_status_discrete

pub record CheckResult : Type 0 where
  pub name : String
  pub status : CheckStatus
  pub message : String
  pub details : Fields

pub record ValidationSection : Type 0 where
  pub name : String
  pub status : CheckStatus
  pub rows : List Fields

pub record ValidationReport : Type 0 where
  pub domain : String
  pub action : String
  pub summary : String
  pub checks : List CheckResult
  pub sections : List ValidationSection
  pub metrics : List Fields
  pub recommendations : List String
  pub metadata : Fields
  pub generated_at : ℕ

abbrev pub check_statuses : List CheckResult → List CheckStatus
check_statuses = map (λ c. c.status)

-- The ladder of `if CheckStatus.… in statuses` with which every report ends. A Python set is a
-- list here, of which only the membership is read.
unfoldable pub ranked : List CheckStatus → CheckStatus
ranked statuses =
    if contains statuses fail
    then fail
    else if contains statuses warn
    then warn
    else if contains statuses pass
    then pass
    else skip

unfoldable pub exit_code_of : CheckStatus → ℕ
exit_code_of s = if s == fail then 1 else 0

-- `ValidationReport`
unfoldable pub report_overall_status : ValidationReport → CheckStatus
unfolding ranked
report_overall_status r = ranked (check_statuses r.checks ++ map (λ s. s.status) r.sections)

unfoldable pub report_exit_code : ValidationReport → ℕ
unfolding exit_code_of
report_exit_code r = exit_code_of (report_overall_status r)

pub data RepairItemStatus : Type 0 where
  detected planned repaired skipped : RepairItemStatus

abbrev pub repair_item_status_discrete : Discrete RepairItemStatus
repair_item_status_discrete = hlevel

instance abbrev pub repair_item_status_eq : Eq RepairItemStatus
repair_item_status_eq = eq_of repair_item_status_discrete

pub record RepairPlanItem : Type 0 where
  pub action : String
  pub target_table : String
  pub reason : String
  pub key_columns : List String
  pub row_count : ℕ
  pub sample_rows : List Fields
  pub dry_run : Bool
  pub applied : Bool
  pub status : RepairItemStatus
  pub backup_sql : Option String

pub record RepairReport : Type 0 where
  pub domain : String
  pub action : String
  pub summary : String
  pub checks : List CheckResult
  pub plans : List RepairPlanItem
  pub recommendations : List String
  pub metadata : Fields
  pub generated_at : ℕ

-- `if test: statuses.add(s)`
abbrev pub add_if : Bool → CheckStatus → List CheckStatus → List CheckStatus
add_if test s statuses = if test then s ∷ statuses else statuses

unfoldable pub repair_report_overall_status : RepairReport → CheckStatus
unfolding ranked
repair_report_overall_status r =
    let has = λ (s : RepairItemStatus). any (λ p. p.status == s) r.plans in
    ranked (
      add_if (has skipped) skip
        (add_if (has planned) warn (add_if (has repaired) pass (check_statuses r.checks))))

unfoldable pub repair_report_exit_code : RepairReport → ℕ
unfolding exit_code_of
repair_report_exit_code r = exit_code_of (repair_report_overall_status r)
