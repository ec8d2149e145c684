-- ===== src/MetadataFailures/Run/Refused.antt =====
-- Applies that are refused: by the guard, or for want of a snapshot.
use immich_doctor.Base.{
  String, ◌≡◌, refl, ◌∙◌, ap, Bool, true, false, ◌||◌, none, some, List, arith, ◌!=◌, Option-cases,
  inl, inr, string_eq, if◌then◌else◌,
}
use mathlib.Core.Path.{subst, sym}
use immich_doctor.Core.Models.{CheckResult}
use immich_doctor.Effects.Result.{Result, ok}
use immich_doctor.Effects.World.{World, Platform, M, pure, current_instant}
use immich_doctor.Effects.Within.{bind-returns}
use immich_doctor.Repair.Guards.{ApplyGuardResult}
use immich_doctor.Repair.Models.{RepairRun, RepairRunStatus, finish}
use immich_doctor.Repair.Store.{load_run, update_run}
use immich_doctor.Repair.Store.Journal.{load_run-update_run}
use immich_doctor.Integrity.Probes.{Inspection}
use immich_doctor.MetadataFailures.Models.{MetadataFailureRepairResult}
use immich_doctor.Integrity.Installation.{Installation}
use immich_doctor.MetadataFailures.Run.{stop, guard, after_backup, after_guard, guarded_apply}
use immich_doctor.MetadataFailures.Scope.{
  BackupResult, Snapshot, Request, Prepared, repair_guard_check,
}
use immich_doctor.MetadataFailures.Run.Bounded.{stop-keeps, guard-keeps}

-- No file differs, and the run is saved as failed.
pub record IsRefused (s : Prepared) (v w : World) : Type 0 where
  pub files_kept : (q : String) → w.files q ≡ v.files q
  pub run_failed :
      (r : RepairRun) × ((load_run s.repair_run.repair_run_id w).0 ≡ ok r)
      × (r.status ≡ RepairRunStatus.failed)

IsRefused-as :
    (s : Prepared) (v : World) {x y : Result MetadataFailureRepairResult × World}
    → x ≡ y
    → IsRefused s v y.1
    → IsRefused s v x.1
IsRefused-as s v e =
    subst (λ (z : Result MetadataFailureRepairResult × World). IsRefused s v z.1) (sym e)

IsRefused-then :
    (s : Prepared) (u v : World) (b : Bool) (m n : M MetadataFailureRepairResult)
    → b ≡ true
    → IsRefused s v (m u).1
    → IsRefused s v ((if b then m else n) u).1
IsRefused-then s u v true m n h k = k
IsRefused-then s u v false m n h k = cc

IsRefused-later :
    (s : Prepared) (u v : World) {w : World}
    → ((q : String) → v.files q ≡ u.files q)
    → IsRefused s v w
    → IsRefused s u w
IsRefused-later s u v h refused = record {
  files_kept = λ q. refused.files_kept q ∙ h q;
  run_failed = refused.run_failed;
}

module _ (platform : Platform) (installation : Installation) (i : Inspection) (r : Request) where
  stop-saves :
      (s : Prepared) (summary : String) (checks : List CheckResult) (advice : String) (v : World)
      → (rr : RepairRun) × ((load_run s.repair_run.repair_run_id
            (stop platform installation r s summary checks advice v).1).0
          ≡ ok rr)
        × (rr.status ≡ RepairRunStatus.failed)
  unfolding stop current_instant update_run load_run finish pure
  stop-saves s summary checks advice v =
      let failed_run =
        finish (platform.isoformat (platform.now v.questions)) RepairRunStatus.failed
          s.repair_run in
      (failed_run, load_run-update_run failed_run v, refl)

  stop-IsRefused :
      (s : Prepared) (summary : String) (checks : List CheckResult) (advice : String) (v : World)
      → IsRefused s v (stop platform installation r s summary checks advice v).1
  stop-IsRefused s summary checks advice v = record {
    files_kept = λ q. (stop-keeps q platform installation i r s summary checks advice).at v;
    run_failed = stop-saves s summary checks advice v;
  }

  abbrev no_snapshot : BackupResult → Bool
  no_snapshot b = b.status != "success" || elim b.snapshot [ none ↦ true | some _ ↦ false ]

  refused-status :
      (b : BackupResult) (taken : Snapshot)
      → b.snapshot ≡ some taken
      → no_snapshot b ≡ true
      → (b.status != "success") ≡ true
  refused-status b taken e h = ground arith

  module _ (backup : String → String → M BackupResult) where
    after_guard-IsRefused :
        (s : Prepared) (g : ApplyGuardResult) (v : World)
        → g.valid ≡ false
        → IsRefused s v (after_guard platform installation i r backup s g v).1
    unfolding after_guard
    after_guard-IsRefused s g v h = rw h (stop-IsRefused s _ _ _ v)

    after_backup-IsRefused :
        (s : Prepared) (c : CheckResult) (b : BackupResult) (v : World)
        → no_snapshot b ≡ true
        → IsRefused s v (after_backup platform installation i r backup s c b v).1
    unfolding after_backup
    after_backup-IsRefused s c b v h = elim (Option-cases b.snapshot) [
      | inl missing ↦ rw missing (stop-IsRefused s _ _ _ v)
      | inr (taken, e) ↦ rw (e, refused-status b taken e h) (stop-IsRefused s _ _ _ v)
    ]

    -- An apply whose guard does not accept the live state changes no file, and is saved as failed.
    pub guarded_apply-drifted :
        (s : Prepared) (w : World) {g : ApplyGuardResult}
        → (guard platform installation i r s w).0 ≡ ok g
        → g.valid ≡ false
        → IsRefused s w (guarded_apply platform installation i r backup s w).1
    unfolding guarded_apply
    guarded_apply-drifted s w {g} h drifted =
        let v = (guard platform installation i r s w).1 in
        IsRefused-later s w v (λ q. (guard-keeps q platform installation i r s).at w)
          (IsRefused-as s v
            (bind-returns (guard platform installation i r s)
              (after_guard platform installation i r backup s) w {v = v} {a = g}
              (ap (λ x. (x, v)) h))
            (after_guard-IsRefused s g v drifted))

    -- An apply that its guard accepts and whose snapshot is not made changes no file from there on,
    -- and is saved as failed.
    pub guarded_apply-unsaved :
        (s : Prepared) (w v : World) {g : ApplyGuardResult} {b : BackupResult}
        → (guard platform installation i r s w).0 ≡ ok g
        → g.valid ≡ true
        → backup s.repair_run.repair_run_id s.repair_run.live_state_fingerprint
            (guard platform installation i r s w).1
          ≡ (ok b, v)
        → no_snapshot b ≡ true
        → IsRefused s v (guarded_apply platform installation i r backup s w).1
    unfolding guarded_apply after_guard
    guarded_apply-unsaved s w v {g} {b} h valid saved missing =
        let u = (guard platform installation i r s w).1 in
        IsRefused-as s v
          (bind-returns (guard platform installation i r s)
            (after_guard platform installation i r backup s) w {v = u} {a = g} (ap (λ x. (x, u)) h))
          (IsRefused-then s u v g.valid _ _ valid (
            IsRefused-as s v
              (bind-returns (backup s.repair_run.repair_run_id s.repair_run.live_state_fingerprint)
                (after_backup platform installation i r backup s (repair_guard_check g)) u {v = v}
                {a = b} saved)
              (after_backup-IsRefused s (repair_guard_check g) b v missing)))
