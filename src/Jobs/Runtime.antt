-- ===== src/Jobs/Runtime.antt =====
-- `BackgroundJobRuntime` (immich_doctor/services/backup_job_service.py), with the store of its
-- records (immich_doctor/backup/core/job_store.py). The handles are shared objects, here under the
-- id of their job, which is a fresh `uuid4` for each; the active jobs refer to them by it. A call
-- of a method is one step: what a thread does within it is not interleaved with others.
use immich_doctor.Base.{
  String, false, Option, none, some, List, [], ◌∷◌, Dict, lookup, insert, remove, contains, ◌==◌,
  string_eq, if◌then◌else◌,
}
use immich_doctor.Core.Value.{Value, str, enum_value, Fields, field, end}
use immich_doctor.Effects.Result.{PyError, Result, ok, raised, value_error, require, ◌>>=◌}
use immich_doctor.Jobs.Models.{
  BackgroundJobState, pending, failed, background_job_state_of, BackgroundJobRecord,
}
use immich_doctor.Jobs.Handle.{
  ManagedJobHandle, mark_started, mark_finished, handle_pause, handle_resume, handle_stop,
}

-- `jobs` is the directory of each job type, with the record in each `<job id>.json`; `done` the
-- ids of the jobs whose future is done.
pub record BackgroundJobRuntime : Type 0 where
  pub handles : Dict ManagedJobHandle
  pub active_jobs : Dict String
  pub done : List String
  pub capability_snapshots : Dict Fields
  pub job_attachments : Dict Value
  pub jobs : Dict (Dict BackgroundJobRecord)

abbrev pub or_empty : Option (Dict BackgroundJobRecord) → Dict BackgroundJobRecord
or_empty none = []
or_empty (some d) = d

abbrev pub directory : String → Dict (Dict BackgroundJobRecord) → Dict BackgroundJobRecord
directory t jobs = or_empty (lookup t jobs)

-- `persist_job`
unfoldable pub persist_job : BackgroundJobRecord → BackgroundJobRuntime → BackgroundJobRuntime
persist_job r rt = record rt {
  jobs = insert r.job_type (insert r.job_id r (directory r.job_type rt.jobs)) rt.jobs;
}

-- `load_job`, with `none` for a missing file
unfoldable pub load_job : String → String → BackgroundJobRuntime → Option BackgroundJobRecord
load_job t id rt = lookup id (directory t rt.jobs)

-- A method of the handle of a job: its record changes and is persisted.
unfoldable pub on_handle :
    (ManagedJobHandle → ManagedJobHandle) → String → BackgroundJobRuntime → BackgroundJobRuntime
unfolding persist_job
on_handle f id rt = elim (lookup id rt.handles) [
  | none ↦ rt
  | some h ↦ persist_job (f h).job (record rt { handles = insert id (f h) rt.handles })
]

unfoldable pub start_job :
    String
    → String
    → String
    → Fields
    → String
    → BackgroundJobRuntime
    → BackgroundJobRecord × BackgroundJobRuntime
unfolding persist_job
start_job id now job_type initial_result summary rt =
    let r : BackgroundJobRecord = record {
      job_id = id;
      job_type = job_type;
      state = pending;
      summary = summary;
      created_at = now;
      updated_at = now;
      started_at = none;
      completed_at = none;
      is_cancel_requested = false;
      error = none;
      result = initial_result;
    } in
    (
      r,
      persist_job r (record rt {
        handles =
            insert id (record { job = r; stop_event = false; pause_event = false }) rt.handles;
        active_jobs = insert job_type id rt.active_jobs;
      }),
    )

abbrev handle_job : Option ManagedJobHandle → Option BackgroundJobRecord
handle_job none = none
handle_job (some h) = some h.job

-- A future that is done is forgotten, and its record still returned.
unfoldable pub active_job :
    String → BackgroundJobRuntime → Option BackgroundJobRecord × BackgroundJobRuntime
active_job job_type rt = elim (lookup job_type rt.active_jobs) [
  | none ↦ (none, rt)
  | some id ↦ (
    handle_job (lookup id rt.handles),
    if contains rt.done id then record rt { active_jobs = remove job_type rt.active_jobs } else rt,
  )
]

-- The requests to the job that is active for a type.
unfoldable pub request :
    (ManagedJobHandle → ManagedJobHandle)
    → String
    → BackgroundJobRuntime
    → Option BackgroundJobRecord × BackgroundJobRuntime
unfolding on_handle
request f job_type rt = elim (lookup job_type rt.active_jobs) [
  | none ↦ (none, rt)
  | some id ↦ let after = on_handle f id rt in (handle_job (lookup id after.handles), after)
]

unfoldable pub request_pause :
    String → String → BackgroundJobRuntime → Option BackgroundJobRecord × BackgroundJobRuntime
unfolding request
request_pause now = request (handle_pause now)

unfoldable pub request_resume :
    String → String → BackgroundJobRuntime → Option BackgroundJobRecord × BackgroundJobRuntime
unfolding request
request_resume now = request (handle_resume now)

unfoldable pub request_stop :
    String → String → BackgroundJobRuntime → Option BackgroundJobRecord × BackgroundJobRuntime
unfolding request
request_stop now = request (handle_stop now)

unfoldable pub set_capability_snapshot :
    String → Fields → BackgroundJobRuntime → BackgroundJobRuntime
set_capability_snapshot name snapshot rt = record rt {
  capability_snapshots = insert name snapshot rt.capability_snapshots;
}

unfoldable pub get_capability_snapshot : String → BackgroundJobRuntime → Option Fields
get_capability_snapshot name rt = lookup name rt.capability_snapshots

unfoldable pub set_job_attachment :
    String → Option Value → BackgroundJobRuntime → BackgroundJobRuntime
set_job_attachment job_type none rt = record rt {
  job_attachments = remove job_type rt.job_attachments;
}
set_job_attachment job_type (some v) rt = record rt {
  job_attachments = insert job_type v rt.job_attachments;
}

unfoldable pub get_job_attachment : String → BackgroundJobRuntime → Option Value
get_job_attachment job_type rt = lookup job_type rt.job_attachments

abbrev pub forget : String → String → Option String → Dict String → Dict String
forget job_type id none d = d
forget job_type id (some active) d = if active == id then remove job_type d else d

-- The `finally` of `_run_job`, after which the future is done. The job is forgotten only if it is
-- still the active one of its type; an attachment of its type always is.
unfoldable pub end_job : String → String → BackgroundJobRuntime → BackgroundJobRuntime
end_job job_type id rt = record rt {
  active_jobs = forget job_type id (lookup job_type rt.active_jobs) rt.active_jobs;
  job_attachments = remove job_type rt.job_attachments;
  done = id ∷ rt.done;
}

-- `d[k] = v`
abbrev put : String → Value → Fields → Fields
put k v end = field k v end
put k v (field j u d) = if j == k then field j v d else field j u (put k v d)

-- `BackgroundJobState(v)`
unfoldable pub job_state_of : Value → Result BackgroundJobState
unfolding background_job_state_of
job_state_of (str s) = background_job_state_of s
job_state_of (enum_value (str s)) = background_job_state_of s
job_state_of _ = raised value_error

abbrev text_of : (Value → String) → Value → String
text_of str_of (str s) = s
text_of str_of v = str_of v

module _ (str_of : Value → String) (message : PyError → String) where
  abbrev failed_result : PyError → Fields → Fields
  failed_result e d =
      put "error" (str (message e))
        (put "summary" (str "Background job failed.") (put "state" (str "failed") d))

  abbrev pub fails : String → PyError → ManagedJobHandle → ManagedJobHandle
  fails now e h =
      mark_finished now failed "Background job failed." (failed_result e h.job.result)
        (some (message e)) h

  -- `mark_finished` with what the runner returned; what raises here is caught as well.
  abbrev pub ends_with :
      String → Fields → Result (BackgroundJobState × String) → ManagedJobHandle → ManagedJobHandle
  ends_with now result (ok (state, summary)) = mark_finished now state summary result none
  ends_with now result (raised e) = fails now e

  unfoldable pub outcome_of : Fields → Result (BackgroundJobState × String)
  unfolding require job_state_of
  outcome_of result = do
    v ← require "state" result
    state ← job_state_of v
    summary ← require "summary" result
    ok (state, text_of str_of summary)

  -- The `try` of `_run_job` after its runner.
  unfoldable pub finish_job : String → Result Fields → ManagedJobHandle → ManagedJobHandle
  unfolding mark_finished outcome_of
  finish_job now (ok result) = ends_with now result (outcome_of result)
  finish_job now (raised e) = fails now e

  -- `_run_job`, where the runner is any method of the runtime. What the other threads do meanwhile
  -- is part of the runner.
  unfoldable pub run_job :
      String
      → String
      → String
      → String
      → (BackgroundJobRuntime → Result Fields × BackgroundJobRuntime)
      → BackgroundJobRuntime
      → BackgroundJobRuntime
  unfolding on_handle finish_job mark_started end_job
  run_job job_type id started completed runner rt =
      let (result, after) = runner (on_handle (mark_started started) id rt) in
      end_job job_type id (on_handle (finish_job completed result) id after)
