-- ===== src/Catalog/Validate/Report.antt =====
-- What the reports of the validation promise (immich_doctor/catalog/consistency_service.py).
use immich_doctor.Base.{
  ℕ, zero, suc, ◌<◌, String, Bool, true, false, not, ◌||◌, ◌≡◌, refl, ap, ◌∙◌, sym, inl, inr,
  Option, none, some, List, [], ◌∷◌, ◌++◌, map, is_empty, length, contains, Bool-cases, ◌==◌,
  if◌then◌else◌, arith,
}
use Prim.Native.Nat.{min}
use immich_doctor.Core.Value.{Fields}
use immich_doctor.Core.Models.{
  CheckStatus, pass, fail, warn, check_status_eq, ValidationReport, check_statuses, ranked,
  exit_code_of, report_overall_status, report_exit_code,
}
use immich_doctor.Effects.Result.{ok}
use immich_doctor.Storage.PathMapping.{StorageSettings}
use immich_doctor.Catalog.Models.{TextPlatform}
use immich_doctor.Catalog.Snapshots.{CatalogSnapshotState, prepare_snapshot_state}
use immich_doctor.Catalog.Collect.{
  ConsistencyAnswers, CatalogConsistencyState, collect_connected, collect, compare_catalog,
}
use immich_doctor.Catalog.Validate.{
  take, section_status, sampled, consistency_sections, consistency_report, no_dsn_report,
  waiting_report, unreachable_report, collected_report, run_connected, validate_catalog,
}

length-sampled {ℓ} :
    {A : Type ℓ} (n : ℕ) (f : A → Fields) (l : List A) → length (sampled n f l) ≡ min n (length l)
length-sampled zero f l = omega arith
length-sampled (suc n) f [] = omega arith
length-sampled (suc n) f (x ∷ l) = omega (arith, length-sampled n f l)

module _ (sample_limit : ℕ) (state : CatalogConsistencyState) (now : ℕ) where
  -- A section shows as many rows as were found, up to the sample limit.
  pub report-bounds :
      map (λ s. length s.rows) (consistency_report sample_limit state now).sections
      ≡ min sample_limit (length state.db_missing_rows)
        ∷ min sample_limit (length state.storage_missing_rows)
        ∷ min sample_limit (length state.orphan_rows)
        ∷ min sample_limit (length state.zero_byte_rows)
        ∷ min sample_limit (length state.unmapped_rows)
        ∷ []
  unfolding consistency_report consistency_sections
  report-bounds = simp length-sampled

contains-append :
    (l m : List CheckStatus) (s : CheckStatus)
    → contains (l ++ m) s ≡ (contains l s || contains m s)
contains-append [] m s = refl
contains-append (t ∷ l) m s = ground (arith, contains-append l m s)

exit-ranked : (l : List CheckStatus) → exit_code_of (ranked l) ≡ (if contains l fail then 1 else 0)
unfolding ranked exit_code_of
exit-ranked l = ground arith

status-fails {ℓ} : {A : Type ℓ} (l : List A) → (section_status l == fail) ≡ not (is_empty l)
status-fails [] = refl
status-fails (x ∷ l) = refl

take-empty {ℓ} : {A : Type ℓ} (n : ℕ) (l : List A) → 0 < n → is_empty (take n l) ≡ is_empty l
take-empty zero l h = absurd (ground arith)
take-empty (suc n) [] h = refl
take-empty (suc n) (x ∷ l) h = refl

unmapped-passes : (b : Bool) → ((if b then pass else warn) == fail) ≡ false
unmapped-passes true = refl
unmapped-passes false = refl

abbrev section_statuses : ℕ → CatalogConsistencyState → List CheckStatus
section_statuses sample_limit state = map (λ s. s.status) (consistency_sections sample_limit state)

abbrev report_statuses : ℕ → CatalogConsistencyState → List CheckStatus
report_statuses sample_limit state =
    check_statuses state.checks ++ section_statuses sample_limit state

-- Some row but an unmapped one is reported.
abbrev pub has_issue : CatalogConsistencyState → Bool
has_issue state =
    not (is_empty state.db_missing_rows)
    || not (is_empty state.storage_missing_rows)
    || not (is_empty state.orphan_rows)
    || not (is_empty state.zero_byte_rows)

-- For a positive sample limit the exit code of the report of a comparison is 1 exactly if one of
-- its checks failed or if a row of a kind other than the unmapped paths was found, shown or not.
pub report-exit_code :
    (sample_limit : ℕ) (state : CatalogConsistencyState) (now : ℕ)
    → 0 < sample_limit
    → report_exit_code (consistency_report sample_limit state now)
      ≡ (if contains (check_statuses state.checks) fail || has_issue state then 1 else 0)
unfolding report_exit_code report_overall_status consistency_report consistency_sections
report-exit_code sample_limit state now h =
    exit-ranked (report_statuses sample_limit state)
    ∙ ap (λ b. if b then 1 else 0)
        (contains-append (check_statuses state.checks) (section_statuses sample_limit state) fail
          ∙ rw
              (
                status-fails state.db_missing_rows,
                status-fails state.storage_missing_rows,
                status-fails state.orphan_rows,
                status-fails (take sample_limit state.zero_byte_rows),
                take-empty sample_limit state.zero_byte_rows h,
                unmapped-passes (is_empty state.unmapped_rows),
              )
              (ground arith))

if-true {ℓ} : {A : Type ℓ} (b : Bool) (x y : A) → b ≡ true → (if not b then x else y) ≡ y
if-true true x y e = refl
if-true false x y e = absurd (ground arith)

if-false {ℓ} : {A : Type ℓ} (b : Bool) (x y : A) → b ≡ false → (if b then x else y) ≡ y
if-false false x y e = refl
if-false true x y e = absurd (ground arith)

module _ (platform : TextPlatform) (settings : StorageSettings) (sample_limit : ℕ)
    (answers : ConsistencyAnswers) (now : ℕ) where
  abbrev snapshots : CatalogSnapshotState
  snapshots = prepare_snapshot_state platform answers.catalog

  -- `collect` raises none of its errors when the catalog is ready and the database reached.
  collect-ok :
      (dsn : String)
      → snapshots.ready ≡ true
      → answers.postgres_dsn ≡ some dsn
      → (answers.connection.status == fail) ≡ false
      → collect platform settings answers ≡ ok (compare_catalog platform settings snapshots answers)
  unfolding collect
  collect-ok dsn ready e f =
      if-true snapshots.ready _
        (collect_connected platform settings snapshots answers answers.postgres_dsn) ready
      ∙ ap (collect_connected platform settings snapshots answers) e
      ∙ if-false (answers.connection.status == fail) _
          (ok (compare_catalog platform settings snapshots answers)) f

  -- The report of a run that asks everything once.
  abbrev pub connected_report : Option String → ValidationReport
  connected_report none = no_dsn_report snapshots now
  connected_report (some dsn) =
      if answers.connection.status == fail
      then unreachable_report snapshots answers.connection now
      else consistency_report sample_limit (compare_catalog platform settings snapshots answers) now

  abbrev pub direct_report : ValidationReport
  direct_report =
      if not snapshots.ready
      then waiting_report snapshots now
      else connected_report answers.postgres_dsn

  connected-direct :
      (dsn : Option String)
      → snapshots.ready ≡ true
      → answers.postgres_dsn ≡ dsn
      → run_connected platform settings sample_limit answers answers now snapshots dsn
        ≡ ok (connected_report dsn)
  connected-direct none ready e = refl
  connected-direct (some dsn) ready e = elim (Bool-cases (answers.connection.status == fail)) [
    | inl f ↦ rw f refl
    | inr f ↦ rw f (
        ap (collected_report platform settings sample_limit answers answers now)
          (collect-ok dsn ready e f))
  ]

  -- While the catalog and the database answer as before, the validation ends with a report and
  -- raises nothing: the report of a run that asks everything once, on every branch (no current
  -- snapshots, no DSN, no connection, and the comparison).
  pub validate_catalog-direct :
      validate_catalog platform settings sample_limit answers answers now ≡ ok direct_report
  unfolding validate_catalog
  validate_catalog-direct = elim (Bool-cases snapshots.ready) [
    | inl e ↦
        if-true snapshots.ready _
          (run_connected platform settings sample_limit answers answers now snapshots
            answers.postgres_dsn)
          e
        ∙ connected-direct answers.postgres_dsn e refl
        ∙ sym (ap ok (if-true snapshots.ready _ (connected_report answers.postgres_dsn) e))
    | inr e ↦ rw e refl
  ]
