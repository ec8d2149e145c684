-- ===== src/Jobs/Ends.antt =====
-- How a job ends: `_run_job` (immich_doctor/services/backup_job_service.py).
use immich_doctor.Base.{
  String, ◌≡◌, refl, ◌∙◌, ap, Option, none, some, Dict, lookup, lookup-insert, lookup-remove, ◌==◌,
  string_eq, arith, Bool-cases, inl, inr, ◌≢◌,
}
use immich_doctor.Core.Value.{Value, Fields}
use immich_doctor.Effects.Result.{Result, ok, raised, PyError}
use immich_doctor.Jobs.Models.{BackgroundJobState}
use immich_doctor.Jobs.Handle.{ManagedJobHandle, mark_started, mark_finished}
use immich_doctor.Jobs.Runtime.{
  BackgroundJobRuntime, persist_job, on_handle, forget, end_job, finish_job, run_job, outcome_of,
  ends_with,
}
use immich_doctor.Jobs.Steps.{IsMethod, finishes, starts_running, Reach, later, calls, ends}
use immich_doctor.Jobs.Consistent.{IsStored, Reach-IsConsistent}

module _ (str_of : Value → String) (message : PyError → String) where
  ends_with-IsMethod :
      (now : String) (result : Fields) (r : Result (BackgroundJobState × String))
      → IsMethod (ends_with str_of message now result r)
  ends_with-IsMethod now result (ok (state, summary)) =
      finishes now state summary (λ _. result) none
  ends_with-IsMethod now result (raised e) = finishes now _ _ _ _

  finish_job-IsMethod :
      (now : String) (r : Result Fields) → IsMethod (finish_job str_of message now r)
  unfolding finish_job
  finish_job-IsMethod now (ok result) =
      ends_with-IsMethod now result (outcome_of str_of message result)
  finish_job-IsMethod now (raised e) = finishes now _ _ _ _

  ends_with-completed :
      (now : String) (result : Fields) (r : Result (BackgroundJobState × String))
      (h : ManagedJobHandle)
      → (ends_with str_of message now result r h).job.completed_at ≡ some now
  unfolding mark_finished
  ends_with-completed now result (ok (state, summary)) h = refl
  ends_with-completed now result (raised e) h = refl

  finish_job-completed :
      (now : String) (r : Result Fields) (h : ManagedJobHandle)
      → (finish_job str_of message now r h).job.completed_at ≡ some now
  unfolding finish_job mark_finished
  finish_job-completed now (ok result) h =
      ends_with-completed now result (outcome_of str_of message result) h
  finish_job-completed now (raised e) h = refl

  module _ (t id started completed : String)
      (runner : BackgroundJobRuntime → Result Fields × BackgroundJobRuntime) where
    -- A job whose runner only makes calls only makes calls itself, whatever the runner returns or
    -- raises.
    pub run_job-Reach :
        ((u : BackgroundJobRuntime) → Reach u → Reach (runner u).1)
        → (rt : BackgroundJobRuntime) → Reach rt
        → Reach (run_job str_of message t id started completed runner rt)
    unfolding run_job
    run_job-Reach makes_calls rt r =
        later
          (later
            (makes_calls _ (later r (calls (mark_started started) id (starts_running started))))
            (calls _ id
              (finish_job-IsMethod completed (runner (on_handle (mark_started started) id rt)).0)))
          (ends t id)

on_handle-found :
    (f : ManagedJobHandle → ManagedJobHandle) (id : String) (rt : BackgroundJobRuntime)
    (h : ManagedJobHandle)
    → lookup id rt.handles ≡ some h
    → lookup id (on_handle f id rt).handles ≡ some (f h)
unfolding persist_job on_handle
on_handle-found f id rt h e =
    rw (on_handle, e)
      (lookup-insert id id (f h) rt.handles ∙ rw ((string_eq.same_iff id id).1 refl) refl)

forget-inactive :
    (t id : String) (o : Option String) (d : Dict String)
    → lookup t d ≡ o
    → lookup t (forget t id o d) ≢ some id
forget-inactive t id none d h = λ e. cc
forget-inactive t id (some a) d h = elim (Bool-cases (a == id)) [
  | inl same ↦ rw (same, lookup-remove t t d, (string_eq.same_iff t t).1 refl) (λ e. cc)
  | inr other ↦ rw (other, h) (λ e. ground (arith, string_eq.same_iff a id))
]

-- The active job of another type stays, and so does one of the same type with another id.
forget-others :
    (t k id : String) (o : Option String) (d : Dict String)
    → lookup t d ≡ o
    → lookup k d ≢ some id
    → lookup k (forget t id o d) ≡ lookup k d
forget-others t k id none d h other = refl
forget-others t k id (some a) d h other = elim (Bool-cases (a == id)) [
  | inl same ↦
      rw (same, lookup-remove t k d)
        (ground (arith, string_eq.same_iff a id, string_eq.same_iff t k))
  | inr differs ↦ rw differs refl
]

module _ (t id : String) (rt : BackgroundJobRuntime) where
  -- A job that has ended is not the active job of its type, and no other active job is forgotten:
  -- neither of another type, nor a later one of the same type.
  pub end_job-active :
      (lookup t (end_job t id rt).active_jobs ≢ some id)
      × ((k : String)
          → lookup k rt.active_jobs ≢ some id
          → lookup k (end_job t id rt).active_jobs ≡ lookup k rt.active_jobs)
  unfolding end_job
  end_job-active = (
    forget-inactive t id (lookup t rt.active_jobs) rt.active_jobs refl,
    λ k. forget-others t k id (lookup t rt.active_jobs) rt.active_jobs refl,
  )

end_job-handles :
    (t id : String) (rt : BackgroundJobRuntime) → (end_job t id rt).handles ≡ rt.handles
unfolding end_job
end_job-handles t id rt = refl

module _ (str_of : Value → String) (message : PyError → String) (t id started completed : String)
    (runner : BackgroundJobRuntime → Result Fields × BackgroundJobRuntime)
    (makes_calls : (u : BackgroundJobRuntime) → Reach u → Reach (runner u).1) where
  -- A job that still has its handle when its runner has returned or raised is completed at that
  -- instant, its last record is on disk, and it is not active any more.
  pub run_job-ends :
      (rt : BackgroundJobRuntime) (h : ManagedJobHandle)
      → Reach rt
      → lookup id (runner (on_handle (mark_started started) id rt)).1.handles ≡ some h
      → (k : ManagedJobHandle) × (lookup id
            (run_job str_of message t id started completed runner rt).handles
          ≡ some k)
        × (k.job.completed_at ≡ some completed)
        × IsStored (run_job str_of message t id started completed runner rt) id k
        × (lookup t (run_job str_of message t id started completed runner rt).active_jobs ≢ some id)
  unfolding run_job
  run_job-ends rt h r e =
      let after = (runner (on_handle (mark_started started) id rt)).1 in
      let result = (runner (on_handle (mark_started started) id rt)).0 in
      let finished = on_handle (finish_job str_of message completed result) id after in
      let found : lookup id (end_job t id finished).handles
          ≡ some (finish_job str_of message completed result h) =
        ap (lookup id) (end_job-handles t id finished)
        ∙ on_handle-found (finish_job str_of message completed result) id after h e in
      (
        finish_job str_of message completed result h,
        found,
        finish_job-completed str_of message completed result h,
        Reach-IsConsistent
            (run_job-Reach str_of message t id started completed runner makes_calls rt r) id _
            found,
        (end_job-active t id finished).0,
      )
