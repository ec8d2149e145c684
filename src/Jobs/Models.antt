-- ===== src/Jobs/Models.antt =====
-- The records of jobs (immich_doctor/backup/core/job_models.py).
use immich_doctor.Base.{
  String, Bool, Option, List, [], ◌∷◌, Eq, eq_of, ◌==◌, string_eq, if◌then◌else◌,
}
use immich_doctor.Core.Value.{Fields}
use immich_doctor.Effects.Result.{Result, ok, raised, value_error}

pub data BackgroundJobState : Type 0 where
  pending running pausing paused resuming stopping stopped : BackgroundJobState
  partial completed failed unsupported cancel_requested canceled : BackgroundJobState

abbrev pub background_job_state_discrete : Discrete BackgroundJobState
background_job_state_discrete = hlevel

instance abbrev pub background_job_state_eq : Eq BackgroundJobState
background_job_state_eq = eq_of background_job_state_discrete

abbrev pub terminal_background_job_states : List BackgroundJobState
terminal_background_job_states =
    partial ∷ completed ∷ failed ∷ unsupported ∷ canceled ∷ paused ∷ stopped ∷ []

unfoldable pub background_job_state_value : BackgroundJobState → String
background_job_state_value pending = "pending"
background_job_state_value running = "running"
background_job_state_value pausing = "pausing"
background_job_state_value paused = "paused"
background_job_state_value resuming = "resuming"
background_job_state_value stopping = "stopping"
background_job_state_value stopped = "stopped"
background_job_state_value partial = "partial"
background_job_state_value completed = "completed"
background_job_state_value failed = "failed"
background_job_state_value unsupported = "unsupported"
background_job_state_value cancel_requested = "cancel_requested"
background_job_state_value canceled = "canceled"

-- `BackgroundJobState(text)`
unfoldable pub background_job_state_of : String → Result BackgroundJobState
background_job_state_of s =
    if s == "pending"
    then ok pending
    else if s == "running"
    then ok running
    else if s == "pausing"
    then ok pausing
    else if s == "paused"
    then ok paused
    else if s == "resuming"
    then ok resuming
    else if s == "stopping"
    then ok stopping
    else if s == "stopped"
    then ok stopped
    else if s == "partial"
    then ok partial
    else if s == "completed"
    then ok completed
    else if s == "failed"
    then ok failed
    else if s == "unsupported"
    then ok unsupported
    else if s == "cancel_requested"
    then ok cancel_requested
    else if s == "canceled"
    then ok canceled
    else raised value_error

pub record BackgroundJobRecord : Type 0 where
  pub job_id : String
  pub job_type : String
  pub state : BackgroundJobState
  pub summary : String
  pub created_at : String
  pub updated_at : String
  pub started_at : Option String
  pub completed_at : Option String
  pub is_cancel_requested : Bool
  pub error : Option String
  pub result : Fields
