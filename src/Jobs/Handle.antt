-- ===== src/Jobs/Handle.antt =====
-- `ManagedJobHandle` (immich_doctor/services/backup_job_service.py). Each method is given the
-- instant that it asks for. Its `record`, which it also persists, is `job` here.
use immich_doctor.Base.{String, Bool, true, false, Option, some}
use immich_doctor.Core.Value.{Fields}
use immich_doctor.Jobs.Models.{
  BackgroundJobState, running, pausing, resuming, stopping, BackgroundJobRecord,
}

pub record ManagedJobHandle : Type 0 where
  pub job : BackgroundJobRecord
  pub stop_event : Bool
  pub pause_event : Bool

unfoldable pub update :
    String
    → BackgroundJobState
    → String
    → Fields
    → Option String
    → ManagedJobHandle
    → ManagedJobHandle
update now state summary result error h = record h {
  job = record (h.job) {
    state = state;
    summary = summary;
    updated_at = now;
    result = result;
    error = error;
    is_cancel_requested = h.stop_event;
  };
}

unfoldable pub mark_started : String → ManagedJobHandle → ManagedJobHandle
mark_started now h = record h {
  job = record (h.job) { state = running; started_at = some now; updated_at = now };
}

unfoldable pub mark_finished :
    String
    → BackgroundJobState
    → String
    → Fields
    → Option String
    → ManagedJobHandle
    → ManagedJobHandle
mark_finished now state summary result error h = record h {
  job = record (h.job) {
    state = state;
    summary = summary;
    updated_at = now;
    completed_at = some now;
    result = result;
    error = error;
    is_cancel_requested = h.stop_event;
  };
}

unfoldable pub handle_pause : String → ManagedJobHandle → ManagedJobHandle
handle_pause now h = record h {
  pause_event = true;
  job = record (h.job) { state = pausing; summary = "Pause requested."; updated_at = now };
}

unfoldable pub handle_resume : String → ManagedJobHandle → ManagedJobHandle
handle_resume now h = record h {
  pause_event = false;
  job = record (h.job) { state = resuming; summary = "Resume requested."; updated_at = now };
}

unfoldable pub handle_stop : String → ManagedJobHandle → ManagedJobHandle
handle_stop now h = record h {
  stop_event = true;
  job = record (h.job) {
    state = stopping;
    summary = "Stop requested.";
    updated_at = now;
    is_cancel_requested = true;
  };
}
