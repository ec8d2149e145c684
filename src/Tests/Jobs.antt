-- ===== src/Tests/Jobs.antt =====
-- Jobs at concrete data.
use immich_doctor.Base.{String, ◌≡◌, refl, ◌≢◌, none, some, lookup, string_eq, false}
use immich_doctor.Core.Value.{Value, str, Fields, end, field, get_field}
use immich_doctor.Effects.Result.{PyError, Result, ok, require}
use immich_doctor.Jobs.Models
use immich_doctor.Jobs.Models.{completed, background_job_state_of}
use immich_doctor.Jobs.Handle.{ManagedJobHandle, mark_started, mark_finished, handle_stop}
use immich_doctor.Jobs.Runtime.{
  BackgroundJobRuntime, persist_job, load_job, on_handle, start_job, request, request_stop, end_job,
  job_state_of, outcome_of, finish_job, run_job,
}
use immich_doctor.Jobs.Steps.{no_jobs, Reach, initial, later, starts, requests, stops}
use immich_doctor.Jobs.Consistent.{IsConsistent, IsStored, Reach-IsConsistent}
use immich_doctor.Jobs.Ends.{end_job-active, run_job-ends}

unfoldable jobs_code : Unit {0}
unfolding get_field require background_job_state_of mark_started mark_finished handle_stop
    persist_job load_job on_handle start_job request request_stop end_job job_state_of outcome_of
    finish_job run_job
jobs_code = tt

abbrev started : BackgroundJobRuntime
unfolding start_job persist_job
started = (start_job "1" "09:00" "backup" end "Backup started." no_jobs).1

started-Reach : Reach started
unfolding jobs_code
started-Reach = later initial (starts "1" "09:00" "backup" end "Backup started." refl)

Reach-IsConsistent_example : IsConsistent (request (handle_stop "09:01") "backup" started).1
Reach-IsConsistent_example =
    Reach-IsConsistent
      (later started-Reach (requests (handle_stop "09:01") "backup" (stops "09:01")))

-- Another job of the type has been started meanwhile.
abbrev restarted : BackgroundJobRuntime
unfolding start_job persist_job
restarted = (start_job "2" "09:02" "backup" end "Backup started." started).1

end_job-active_example :
    (lookup "backup" (end_job "backup" "1" restarted).active_jobs ≢ some "1")
    × ((k : String)
        → lookup k restarted.active_jobs ≢ some "1"
        → lookup k (end_job "backup" "1" restarted).active_jobs ≡ lookup k restarted.active_jobs)
end_job-active_example = end_job-active "backup" "1" restarted

abbrev done_at_once : BackgroundJobRuntime → Result Fields × BackgroundJobRuntime
done_at_once rt = (ok (field "state" (str "completed") (field "summary" (str "Done.") end)), rt)

abbrev blank : Value → String
blank v = ""

abbrev quiet : PyError → String
quiet e = ""

abbrev begun : ManagedJobHandle
begun = record {
  stop_event = false;
  pause_event = false;
  job = record {
    job_id = "1";
    job_type = "backup";
    state = Models.running;
    summary = "Backup started.";
    created_at = "09:00";
    updated_at = "09:01";
    started_at = some "09:01";
    completed_at = none;
    is_cancel_requested = false;
    error = none;
    result = end;
  };
}

run_job-ends_example :
    (k : ManagedJobHandle) × (lookup "1"
        (run_job blank quiet "backup" "1" "09:01" "09:02" done_at_once started).handles
      ≡ some k)
    × (k.job.completed_at ≡ some "09:02")
    × IsStored (run_job blank quiet "backup" "1" "09:01" "09:02" done_at_once started) "1" k
    × (lookup "backup"
          (run_job blank quiet "backup" "1" "09:01" "09:02" done_at_once started).active_jobs
        ≢ some "1")
unfolding jobs_code
run_job-ends_example =
    run_job-ends blank quiet "backup" "1" "09:01" "09:02" done_at_once (λ u r. r) started begun
      started-Reach refl

ends_completed :
    load_job "backup" "1" (run_job blank quiet "backup" "1" "09:01" "09:02" done_at_once started)
    ≡ some (record (begun.job) {
      state = completed;
      summary = "Done.";
      updated_at = "09:02";
      completed_at = some "09:02";
      result = field "state" (str "completed") (field "summary" (str "Done.") end);
    })
unfolding jobs_code
ends_completed = refl
