-- ===== src/Backup/Restore/Ready.antt =====
-- When the simulation of a restore is not blocked (immich_doctor/backup/restore/service.py).
use immich_doctor.Base.{
  String, Bool, true, false, not, ◌&&◌, ◌||◌, ◌≡◌, refl, ap, ◌∙◌, sym, Option, none, List, [], ◌∷◌,
  ◌++◌, map, is_empty, ◌==◌, ◌!=◌, if◌then◌else◌, arith,
}
use immich_doctor.Core.Models.{pass, fail, warn, ranked, exit_code_of}
use immich_doctor.Catalog.Snapshots.{is_some}
use immich_doctor.Storage.PosixPath.{PurePosixPath}
use immich_doctor.Backup.Models.{
  periodic, manual, snapshot_kind_eq, SnapshotCoverage, files_only, db_only, paired,
  snapshot_coverage_eq, BackupSnapshot,
}
use immich_doctor.Backup.Verify.{is_json_path, snapshot_consistency_error}
use immich_doctor.Backup.Verify.Sound.{agree, is_consistent, error-is_consistent}
use immich_doctor.Backup.Restore.{RestoreRequest, block_if, restore_blockers, simulate_snapshot}
use immich_doctor.Backup.Instructions.{
  RestoreBlocker, RestoreSimulationResult, restore_exit_code, restore_overall_status,
  readiness_status, simulation_only, blocked,
}

blockers-empty :
    (a b c : Bool) (x y z : RestoreBlocker)
    → is_empty (block_if a x ++ (block_if b y ++ block_if c z)) ≡ (not a && not b && not c)
blockers-empty a b c x y z = ground arith

unblocked_of :
    (is_json has_run : Bool) (c : SnapshotCoverage) (no_files has_db : Bool)
    → (is_json && has_run && agree (c == db_only) no_files && agree (c == files_only) (not has_db))
      ≡ true
    → (not (c != paired) && not (not has_db) && not no_files) ≡ (c == paired)
unblocked_of is_json has_run files_only no_files has_db h = ground arith
unblocked_of is_json has_run db_only no_files has_db h = ground arith
unblocked_of is_json has_run paired no_files has_db h = ground arith

true_of_not : (b : Bool) → not b ≡ false → b ≡ true
true_of_not b e = ground arith

consistent_of : (s : BackupSnapshot) → snapshot_consistency_error s ≡ none → is_consistent s ≡ true
consistent_of s e = true_of_not (is_consistent s) (sym (error-is_consistent s) ∙ ap is_some e)

unblocked-paired :
    (s : BackupSnapshot)
    → snapshot_consistency_error s ≡ none
    → is_empty (restore_blockers s) ≡ (s.coverage == paired)
unfolding restore_blockers
unblocked-paired s e =
    blockers-empty (s.coverage != paired) (not (is_some s.db_artifact)) (is_empty s.file_artifacts)
      _ _ _
    ∙ unblocked_of (is_json_path s.manifest_path)
        (is_some s.repair_run_id || s.kind == periodic || s.kind == manual) s.coverage
        (is_empty s.file_artifacts) (is_some s.db_artifact) (consistent_of s e)

exit_of :
    (b : Bool)
    → exit_code_of (
        ranked (
          readiness_status (if b then simulation_only else blocked)
          ∷ pass
          ∷ (if b then warn else fail)
          ∷ []))
      ≡ (if b then 0 else 1)
unfolding exit_code_of ranked
exit_of true = refl
exit_of false = refl

-- The codes of the blockers, and those of a snapshot that the verification accepts.
abbrev pub blocker_codes : RestoreSimulationResult → List String
blocker_codes r = map (λ b. b.code) r.blockers

abbrev pub expected_codes : SnapshotCoverage → List String
expected_codes paired = []
expected_codes files_only = "snapshot_coverage_insufficient" ∷ "missing_db_artifact" ∷ []
expected_codes db_only = "snapshot_coverage_insufficient" ∷ "missing_file_artifacts" ∷ []

abbrev code_if : Bool → String → List String
code_if test code = if test then code ∷ [] else []

codes-blocks :
    (a b c : Bool) (x y z : RestoreBlocker)
    → map (λ b. b.code) (block_if a x ++ (block_if b y ++ block_if c z))
      ≡ code_if a x.code ++ (code_if b y.code ++ code_if c z.code)
codes-blocks a b c x y z = ground arith

codes_of :
    (is_json has_run : Bool) (c : SnapshotCoverage) (no_files has_db : Bool)
    → (is_json && has_run && agree (c == db_only) no_files && agree (c == files_only) (not has_db))
      ≡ true
    → code_if (c != paired) "snapshot_coverage_insufficient"
        ++ (code_if (not has_db) "missing_db_artifact" ++ code_if no_files "missing_file_artifacts")
      ≡ expected_codes c
codes_of is_json has_run files_only no_files has_db h = ground arith
codes_of is_json has_run db_only no_files has_db h = ground arith
codes_of is_json has_run paired no_files has_db h = ground arith

codes-verified :
    (s : BackupSnapshot)
    → snapshot_consistency_error s ≡ none
    → map (λ b. b.code) (restore_blockers s) ≡ expected_codes s.coverage
unfolding restore_blockers
codes-verified s e =
    codes-blocks (s.coverage != paired) (not (is_some s.db_artifact)) (is_empty s.file_artifacts) _
      _ _
    ∙ codes_of (is_json_path s.manifest_path)
        (is_some s.repair_run_id || s.kind == periodic || s.kind == manual) s.coverage
        (is_empty s.file_artifacts) (is_some s.db_artifact) (consistent_of s e)

-- A snapshot that the verification accepts is simulated without a blocker and with exit code 0 if
-- it covers the database and the files. If it covers one of them only, it is blocked, with exit
-- code 1; the blockers are then that its coverage is insufficient and that the artifact of the
-- other is missing.
pub simulate-verified :
    (environment : String) (library_root : Option PurePosixPath) (q : RestoreRequest)
    (s : BackupSnapshot) (source : String)
    → snapshot_consistency_error s ≡ none
    → (blocker_codes (simulate_snapshot environment library_root q s source)
        ≡ expected_codes s.coverage)
      × ((simulate_snapshot environment library_root q s source).readiness
          ≡ (if s.coverage == paired then simulation_only else blocked))
      × (restore_exit_code (simulate_snapshot environment library_root q s source)
          ≡ (if s.coverage == paired then 0 else 1))
unfolding simulate_snapshot restore_exit_code restore_overall_status
simulate-verified environment library_root q s source e = (
  codes-verified s e,
  ap (λ b. if b then simulation_only else blocked) (unblocked-paired s e),
  exit_of (is_empty (restore_blockers s)) ∙ ap (λ b. if b then 0 else 1) (unblocked-paired s e),
)
