-- ===== src/Integrity/Inspect/Healthy.antt =====
-- What the exit code of an inspection says of the files.
use immich_doctor.Base.{
  ℕ, String, ◌≡◌, refl, ◌↔◌, Bool, true, false, Option, none, some, List, [], ◌∷◌, all, contains,
  arith, ◌==◌, if◌then◌else◌,
}
use immich_doctor.Core.Models.{check_statuses, check_status_eq, fail}
use immich_doctor.Effects.World.{World}
use immich_doctor.Integrity.Models.{
  file_ok, file_integrity_status_eq, FileIntegrityInspectResult, integrity_exit_code,
}
use immich_doctor.Integrity.Models.Overall.{integrity_exit_code-zero}
use immich_doctor.Integrity.Probes.{Inspection, AssetRow, AssetFileRow}
use immich_doctor.Integrity.Analyzer.{source_subject, inspect_records}
use immich_doctor.Integrity.Analyzer.Verdict.{is_healthy, inspect_file-healthy}
use immich_doctor.Integrity.Installation.{Installation}
use immich_doctor.Integrity.Inspect.{
  integrity_profile_check, integrity_ffprobe_check, batch, batch_result, profiled_result,
  configured_result, integrity_inspection,
}

gate :
    (b : Bool) (u v : FileIntegrityInspectResult) (p : Bool)
    → (contains (check_statuses u.checks) fail ≡ b)
    → (b ≡ false → (contains (check_statuses v.checks) fail ≡ false))
    → (all (λ f. f.status == file_ok) v.findings ≡ p)
    → ((integrity_exit_code (if b then u else v) ≡ 0) ↔ ((b ≡ false) × (p ≡ true)))
gate true u v p hu hv hp = ground (arith, integrity_exit_code-zero u, hu)
gate false u v p hu hv hp = ground (arith, integrity_exit_code-zero v, hv, hp)

ffprobe_passes : (b : Bool) → ((integrity_ffprobe_check b).status == fail) ≡ false
unfolding integrity_ffprobe_check
ffprobe_passes true = refl
ffprobe_passes false = refl

module _ (i : Inspection) (w : World) where
  sources-healthy :
      (rows : List AssetRow) (files : List AssetFileRow)
      → all (λ f. f.status == file_ok) (inspect_records i w rows files false)
        ≡ all (λ row. is_healthy i w (source_subject i row)) rows
  unfolding inspect_records
  sources-healthy [] files = refl
  sources-healthy (row ∷ rows) files =
      rw (inspect_file-healthy i w (source_subject i row), sources-healthy rows files) refl

  module _ (installation : Installation) (limit : Option ℕ) (offset : ℕ) where
    -- An inspection of the source files only, over a supported schema, ends with exit code 0 exactly
    -- if the connection check does not fail and every source file of the batch is healthy.
    pub integrity_inspection-healthy :
        {dsn : String}
        → installation.postgres_dsn ≡ some dsn
        → installation.missing w ≡ none
        → ((integrity_exit_code (integrity_inspection installation i w limit offset false) ≡ 0) ↔ (
            ((installation.validate_connection w).status == fail ≡ false)
            × (all
                  (λ row. is_healthy i w (source_subject i row))
                  (batch installation i w limit offset false)
                ≡ true)))
    unfolding integrity_inspection configured_result profiled_result batch_result
        integrity_profile_check integrity_ffprobe_check
    integrity_inspection-healthy dsn supported =
        let c = installation.validate_connection w in
        rw (dsn, supported)
          (gate (c.status == fail) _ _ _ (ground arith)
            (λ h. ground (arith, h, ffprobe_passes (installation.ffprobe_available w)))
            (sources-healthy (batch installation i w limit offset false) _))
