-- ===== src/MetadataFailures/Run/Bounded.antt =====
-- The files that a repair may change.
use immich_doctor.Base.{
  ℕ, String, ◌≡◌, refl, Bool, true, false, List, [], ◌∷◌, Option, none, some, All, if◌then◌else◌,
}
use immich_doctor.Core.Value.{Fields}
use immich_doctor.Core.Models.{CheckResult}
use immich_doctor.Effects.World.{World, Platform, M, gets}
use immich_doctor.Effects.Within.{Within, Within-for_each-All, Within-bind}
use immich_doctor.Repair.Guards.{instant_or_now, create_plan_token, validate_plan_token}
use immich_doctor.Repair.Models.{RepairRun, PlanToken}
use immich_doctor.Repair.Store.{create_run, update_run}
use immich_doctor.Integrity.Probes.{Inspection}
use immich_doctor.MetadataFailures.Models.{
  SuggestedAction, MetadataFailureDiagnostic, MetadataRepairAction,
}
use immich_doctor.MetadataFailures.Diagnose.{inspect}
use immich_doctor.Integrity.Installation.{Installation}
use immich_doctor.MetadataFailures.Repair.{plan_or_apply_action}
use immich_doctor.MetadataFailures.Repair.Bounded.{
  KeepsFile, KeepsFile-IsPreorder, keeps_rules, may_change, plan_or_apply_action-keeps,
}
use immich_doctor.MetadataFailures.Run.{stop, post_validate, act, prepare, guard, run}
use immich_doctor.MetadataFailures.Scope.{BackupResult, Request, Prepared}

module _ (q : String) where
  create_run-keeps : (r : RepairRun) (t : PlanToken) → Within (KeepsFile q) (create_run r t)
  unfolding create_run
  create_run-keeps r t = record { at = λ w. refl }

  update_run-keeps : (r : RepairRun) → Within (KeepsFile q) (update_run r)
  unfolding update_run
  update_run-keeps r = record { at = λ w. refl }

  gets-keeps : {A : Type 0} (f : World → A) → Within (KeepsFile q) (gets f)
  unfolding gets
  gets-keeps f = record { at = λ w. refl }

  instant_or_now-keeps :
      (platform : Platform) (o : Option ℕ) → Within (KeepsFile q) (instant_or_now platform o)
  unfolding instant_or_now
  instant_or_now-keeps platform none = search keeps_rules
  instant_or_now-keeps platform (some t) = search keeps_rules

  create_plan_token-keeps :
      (platform : Platform) (scope : Fields) (db file : String) (ttl now : Option ℕ)
      → Within (KeepsFile q) (create_plan_token platform scope db file ttl now)
  unfolding create_plan_token
  create_plan_token-keeps platform scope db file ttl now =
      search (keeps_rules, instant_or_now-keeps)

  validate_plan_token-keeps :
      (platform : Platform) (t : PlanToken) (scope : Fields) (db file : String) (now : Option ℕ)
      → Within (KeepsFile q) (validate_plan_token platform t scope db file now)
  unfolding validate_plan_token
  validate_plan_token-keeps platform t scope db file now =
      search (keeps_rules, instant_or_now-keeps)

  inspect-keeps :
      (installation : Installation) (i : Inspection) (platform : Platform) (limit : Option ℕ)
      (offset : ℕ)
      → Within (KeepsFile q) (inspect installation i platform limit offset)
  unfolding inspect
  inspect-keeps installation i platform limit offset = search (keeps_rules, gets-keeps)

  module _ (platform : Platform) (installation : Installation) (i : Inspection) (r : Request) where
    pub prepare-keeps : Within (KeepsFile q) (prepare platform installation i r)
    unfolding prepare
    prepare-keeps =
        search (keeps_rules, create_run-keeps, create_plan_token-keeps, inspect-keeps) depth 12

    pub guard-keeps : (s : Prepared) → Within (KeepsFile q) (guard platform installation i r s)
    unfolding guard
    guard-keeps s = search (keeps_rules, validate_plan_token-keeps, inspect-keeps)

    pub stop-keeps :
        (s : Prepared) (summary : String) (checks : List CheckResult) (advice : String)
        → Within (KeepsFile q) (stop platform installation r s summary checks advice)
    unfolding stop
    stop-keeps s summary checks advice = search (keeps_rules, update_run-keeps)

    post_validate-keeps :
        (l : List MetadataRepairAction)
        → Within (KeepsFile q) (post_validate platform installation i r l)
    unfolding post_validate
    post_validate-keeps l = search (keeps_rules, inspect-keeps)

    loop-keeps :
        (selected : List SuggestedAction) (rr : RepairRun) (l : List MetadataFailureDiagnostic)
        → All (λ d. may_change platform r.apply selected q d ≡ false) l
        → All
            (λ d.
              Within
                (KeepsFile q)
                (plan_or_apply_action platform i.os_message selected r.apply rr d))
            l
    loop-keeps selected rr [] h = tt
    loop-keeps selected rr (d ∷ l) (h, hs) = (
      plan_or_apply_action-keeps platform i.os_message selected r.apply rr d q h,
      loop-keeps selected rr l hs,
    )

    -- The loop of a repair leaves a file alone that it may change for none of the diagnostics, also
    -- where it raises half-way.
    pub act-keeps :
        (s : Prepared) (rr : RepairRun) (guard_checks : List CheckResult)
        (snapshot_check : CheckResult)
        → All (λ d. may_change platform r.apply s.selected q d ≡ false) s.diagnostics
        → Within (KeepsFile q) (act platform installation i r s rr guard_checks snapshot_check)
    unfolding act
    act-keeps s rr guard_checks snapshot_check h =
        Within-bind (KeepsFile-IsPreorder q) _ _
          (Within-for_each-All (KeepsFile-IsPreorder q) _ s.diagnostics
            (loop-keeps s.selected rr s.diagnostics h))
          λ actions. search (keeps_rules, post_validate-keeps, update_run-keeps)

dry_All :
    (platform : Platform) (selected : List SuggestedAction) (q : String) (apply : Bool)
    (l : List MetadataFailureDiagnostic)
    → apply ≡ false
    → All (λ d. may_change platform apply selected q d ≡ false) l
dry_All platform selected q apply [] h = tt
dry_All platform selected q apply (d ∷ l) h = (rw h refl, dry_All platform selected q apply l h)

Within-else :
    {A : Type 0} (R : World → World → Type 0) (b : Bool) (m n : M A)
    → b ≡ false
    → Within R n
    → Within R (if b then m else n)
Within-else R true m n h k = cc
Within-else R false m n h k = k

module _ (platform : Platform) (installation : Installation) (i : Inspection) (r : Request)
    (backup : String → String → M BackupResult) where
  -- A repair that is not applied changes no file, whatever it selects and finds.
  pub run-dry :
      r.apply ≡ false
      → (w : World) (q : String) → (run platform installation i r backup w).1.files q ≡ w.files q
  unfolding run
  run-dry h w q =
      (Within-bind (KeepsFile-IsPreorder q) _ _ (prepare-keeps q platform installation i r) λ s.
          Within-else (KeepsFile q) r.apply _ _ h (
            act-keeps q platform installation i r s s.repair_run [] _
              (dry_All platform s.selected q r.apply s.diagnostics h))).at
        w
