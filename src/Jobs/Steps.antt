-- ===== src/Jobs/Steps.antt =====
-- Interleavings of the calls of a job runtime.
use immich_doctor.Base.{String, ◌≡◌, Option, none, [], lookup, string_eq}
use immich_doctor.Core.Value.{Value, Fields}
use immich_doctor.Jobs.Models.{BackgroundJobState}
use immich_doctor.Jobs.Handle.{
  ManagedJobHandle, update, mark_started, mark_finished, handle_pause, handle_resume, handle_stop,
}
use immich_doctor.Jobs.Runtime.{
  BackgroundJobRuntime, on_handle, start_job, active_job, request, set_capability_snapshot,
  set_job_attachment, end_job,
}

-- The methods of a handle. The result of a job that failed is made from the one before.
pub data IsMethod : (ManagedJobHandle → ManagedJobHandle) → Type 0 where
  updates :
      (now : String) (state : BackgroundJobState) (summary : String) (result : Fields)
      (error : Option String)
      → IsMethod (update now state summary result error)
  starts_running : (now : String) → IsMethod (mark_started now)
  finishes :
      (now : String) (state : BackgroundJobState) (summary : String) (result : Fields → Fields)
      (error : Option String)
      → IsMethod (λ h. mark_finished now state summary (result h.job.result) error h)
  pauses : (now : String) → IsMethod (handle_pause now)
  resumes : (now : String) → IsMethod (handle_resume now)
  stops : (now : String) → IsMethod (handle_stop now)

-- A call by some thread. A started job has an id that no handle has.
pub data Step (rt : BackgroundJobRuntime) : BackgroundJobRuntime → Type 0 where
  starts :
      (id now job_type : String) (result : Fields) (summary : String)
      → lookup id rt.handles ≡ none
      → Step rt (start_job id now job_type result summary rt).1
  calls :
      (f : ManagedJobHandle → ManagedJobHandle) (id : String)
      → IsMethod f
      → Step rt (on_handle f id rt)
  requests :
      (f : ManagedJobHandle → ManagedJobHandle) (job_type : String)
      → IsMethod f
      → Step rt (request f job_type rt).1
  polls : (job_type : String) → Step rt (active_job job_type rt).1
  attaches : (job_type : String) (v : Option Value) → Step rt (set_job_attachment job_type v rt)
  snapshots : (name : String) (d : Fields) → Step rt (set_capability_snapshot name d rt)
  ends : (job_type id : String) → Step rt (end_job job_type id rt)

abbrev pub no_jobs : BackgroundJobRuntime
no_jobs = record {
  handles = [];
  active_jobs = [];
  done = [];
  capability_snapshots = [];
  job_attachments = [];
  jobs = [];
}

pub data Reach : BackgroundJobRuntime → Type 0 where
  initial : Reach no_jobs
  later : {u v : BackgroundJobRuntime} → Reach u → Step u v → Reach v
