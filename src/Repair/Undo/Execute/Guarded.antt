-- ===== src/Repair/Undo/Execute/Guarded.antt =====
-- When execution changes nothing.
use immich_doctor.Base.{String, ◌≡◌, inl, inr, ◌≢◌, Bool, true, List, arith}
use immich_doctor.Effects.Result.{ok, Result-cases}
use immich_doctor.Effects.World.{World, Platform}
use immich_doctor.Repair.Undo.Models.{UndoPlanResult, reversible_now, undo_eligibility_eq}
use immich_doctor.Repair.Undo.Plan.{plan}
use immich_doctor.Repair.Undo.Plan.Eligible.{plan-reads}
use immich_doctor.Repair.Undo.Execute.{execute}

module _ (platform : Platform) (r : String) (ids : List String) (w : World) where
  -- Execution leaves the world as it is in a dry run, and in an apply unless planning returns a
  -- plan that is reversible.
  pub execute-unchanged :
      (apply : Bool)
      → (apply ≡ true
          → (p : UndoPlanResult) → (plan platform r ids w).0 ≡ ok p
          → p.eligibility ≢ reversible_now)
      → (execute platform r ids apply w).1 ≡ w
  unfolding execute
  execute-unchanged apply h = elim (Result-cases (plan platform r ids w).0) [
    | inl (p, e) ↦ ground (arith, plan-reads platform r ids w, h, λ (a : apply ≡ true). h a p e)
    | inr (x, e) ↦ ground (arith, plan-reads platform r ids w)
  ]
