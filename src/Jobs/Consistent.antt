-- ===== src/Jobs/Consistent.antt =====
-- What holds of every state that the calls of a job runtime reach.
use immich_doctor.Base.{
  String, ◌≡◌, refl, ◌∙◌, ap, sym, Bool, true, false, ◌&&◌, Option, none, some, Dict, lookup,
  insert, lookup-insert, ◌==◌, string_eq, if◌then◌else◌, arith, Option-cases, inl, inr, ◌⊎◌,
}
use mathlib.Core.Path.{subst}
use immich_doctor.Core.Value.{Value, Fields}
use immich_doctor.Jobs.Models.{BackgroundJobRecord}
use immich_doctor.Jobs.Handle.{
  ManagedJobHandle, update, mark_started, mark_finished, handle_pause, handle_resume, handle_stop,
}
use immich_doctor.Jobs.Runtime.{
  BackgroundJobRuntime, or_empty, directory, persist_job, load_job, on_handle, start_job,
  active_job, request, set_capability_snapshot, set_job_attachment, end_job,
}
use immich_doctor.Jobs.Steps.{
  IsMethod, updates, starts_running, finishes, pauses, resumes, stops, Step, starts, calls,
  requests, polls, attaches, snapshots, ends, Reach, initial, later,
}

-- The record that a handle holds is the one on disk, under the handle's own id, and it says that a
-- cancellation is requested exactly once a stop was.
pub record IsStored (rt : BackgroundJobRuntime) (id : String) (h : ManagedJobHandle) : Type 0 where
  pub own_id : h.job.job_id ≡ id
  pub on_disk : load_job h.job.job_type h.job.job_id rt ≡ some h.job
  pub cancels : h.job.is_cancel_requested ≡ h.stop_event

abbrev pub IsConsistent : BackgroundJobRuntime → Type 0
IsConsistent rt =
    (id : String) (h : ManagedJobHandle) → lookup id rt.handles ≡ some h → IsStored rt id h

or_empty-if :
    (b : Bool) (d : Dict BackgroundJobRecord) (o : Option (Dict BackgroundJobRecord))
    → or_empty (if b then some d else o) ≡ (if b then d else or_empty o)
or_empty-if true d o = refl
or_empty-if false d o = refl

directory-insert :
    (k t : String) (d : Dict BackgroundJobRecord) (jobs : Dict (Dict BackgroundJobRecord))
    → directory t (insert k d jobs) ≡ (if k == t then d else directory t jobs)
directory-insert k t d jobs =
    ap or_empty (lookup-insert k t d jobs) ∙ or_empty-if (k == t) d (lookup t jobs)

lookup-if :
    (b : Bool) (id : String) (r : BackgroundJobRecord) (d e : Dict BackgroundJobRecord)
    → (b ≡ true → d ≡ e)
    → lookup id (if b then insert r.job_id r d else e)
      ≡ (if b && (r.job_id == id) then some r else lookup id e)
lookup-if true id r d e h =
    lookup-insert r.job_id id r d
    ∙ ap (λ x. if r.job_id == id then some r else lookup id x) (h refl)
lookup-if false id r d e h = refl

load_job-persist_job :
    (t id : String) (r : BackgroundJobRecord) (rt : BackgroundJobRuntime)
    → load_job t id (persist_job r rt)
      ≡ (if (r.job_type == t) && (r.job_id == id) then some r else load_job t id rt)
unfolding load_job persist_job
load_job-persist_job t id r rt =
    ap (lookup id)
      (directory-insert r.job_type t (insert r.job_id r (directory r.job_type rt.jobs)) rt.jobs)
    ∙ lookup-if (r.job_type == t) id r (directory r.job_type rt.jobs) (directory t rt.jobs)
        (λ same. ap (λ x. directory x rt.jobs) ((string_eq.same_iff r.job_type t).0 same))

load_job-jobs :
    (t id : String) (u v : BackgroundJobRuntime)
    → u.jobs ≡ v.jobs
    → load_job t id u ≡ load_job t id v
unfolding load_job
load_job-jobs t id u v h = ap (λ j. lookup id (directory t j)) h

-- What a method of a handle keeps.
pub record IsKept (h k : ManagedJobHandle) : Type 0 where
  pub same_id : k.job.job_id ≡ h.job.job_id
  pub same_type : k.job.job_type ≡ h.job.job_type
  pub cancels_too :
      h.job.is_cancel_requested ≡ h.stop_event → k.job.is_cancel_requested ≡ k.stop_event

method-IsKept :
    (f : ManagedJobHandle → ManagedJobHandle) → IsMethod f → (h : ManagedJobHandle) → IsKept h (f h)
unfolding update mark_started mark_finished handle_pause handle_resume handle_stop
method-IsKept _ (updates now state summary result error) h = record {
  same_id = refl;
  same_type = refl;
  cancels_too = λ _. refl;
}
method-IsKept _ (starts_running now) h = record {
  same_id = refl;
  same_type = refl;
  cancels_too = λ c. c;
}
method-IsKept _ (finishes now state summary result error) h = record {
  same_id = refl;
  same_type = refl;
  cancels_too = λ _. refl;
}
method-IsKept _ (pauses now) h = record { same_id = refl; same_type = refl; cancels_too = λ c. c }
method-IsKept _ (resumes now) h = record { same_id = refl; same_type = refl; cancels_too = λ c. c }
method-IsKept _ (stops now) h = record { same_id = refl; same_type = refl; cancels_too = λ _. refl }

-- A state with the same handles and the same records.
IsConsistent-same :
    (u v : BackgroundJobRuntime)
    → v.handles ≡ u.handles
    → v.jobs ≡ u.jobs
    → IsConsistent u
    → IsConsistent v
IsConsistent-same u v hs js c id h e =
    let old = c id h (ap (lookup id) (sym hs) ∙ e) in
    record {
      own_id = old.own_id;
      on_disk = load_job-jobs h.job.job_type h.job.job_id v u js ∙ old.on_disk;
      cancels = old.cancels;
    }

-- The handle that was saved, and the others.
saved-IsStored :
    (rt : BackgroundJobRuntime) (id : String) (h : ManagedJobHandle)
    → h.job.job_id ≡ id
    → h.job.is_cancel_requested ≡ h.stop_event
    → IsStored (persist_job h.job rt) id h
saved-IsStored rt id h own c = record {
  own_id = own;
  on_disk =
      load_job-persist_job h.job.job_type h.job.job_id h.job rt
      ∙ rw
          (
            (string_eq.same_iff h.job.job_type h.job.job_type).1 refl,
            (string_eq.same_iff h.job.job_id h.job.job_id).1 refl,
          )
          refl;
  cancels = c;
}

unmatched :
    (a b : Bool) (x y : Option BackgroundJobRecord) → b ≡ false → (if a && b then x else y) ≡ y
unmatched true b x y h = rw h refl
unmatched false b x y h = refl

other-IsStored :
    (u v : BackgroundJobRuntime) (id : String) (r : BackgroundJobRecord) (h : ManagedJobHandle)
    → v.jobs ≡ u.jobs
    → (r.job_id == id) ≡ false
    → IsStored u id h
    → IsStored (persist_job r v) id h
other-IsStored u v id r h js other old = record {
  own_id = old.own_id;
  on_disk =
      load_job-persist_job h.job.job_type h.job.job_id r v
      ∙ unmatched (r.job_type == h.job.job_type) (r.job_id == h.job.job_id) (some r)
          (load_job h.job.job_type h.job.job_id v) (ap (λ i. r.job_id == i) old.own_id ∙ other)
      ∙ load_job-jobs h.job.job_type h.job.job_id v u js
      ∙ old.on_disk;
  cancels = old.cancels;
}

picked :
    (b : Bool) (x y z : Option ManagedJobHandle)
    → (if b then x else y) ≡ z
    → ((b ≡ true) × (x ≡ z)) ⊎ ((b ≡ false) × (y ≡ z))
picked true x y z e = inl (refl, e)
picked false x y z e = inr (refl, e)

some-same : {h g : ManagedJobHandle} → some h ≡ some g → h ≡ g
some-same e = cc

IsConsistent-saved :
    (u v : BackgroundJobRuntime) (id : String) (h : ManagedJobHandle)
    → v.handles ≡ insert id h u.handles
    → v.jobs ≡ u.jobs
    → h.job.job_id ≡ id
    → h.job.is_cancel_requested ≡ h.stop_event
    → IsConsistent u
    → IsConsistent (persist_job h.job v)
unfolding persist_job
IsConsistent-saved u v id h hs js own c old k g e =
    elim (picked (id == k) (some h) (lookup k u.handles) (some g)
      (sym (lookup-insert id k h u.handles) ∙ ap (lookup k) (sym hs) ∙ e)) [
        | inl (same, here) ↦
            subst (λ x. IsStored (persist_job h.job v) x g) ((string_eq.same_iff id k).0 same)
              (subst (λ x. IsStored (persist_job h.job v) id x) (some-same here)
                (saved-IsStored v id h own c))
        | inr (other, there) ↦
            other-IsStored u v k h.job g js (ap (λ x. x == k) own ∙ other) (old k g there)
      ]

module _ (rt : BackgroundJobRuntime) (old : IsConsistent rt) where
  on_handle-IsConsistent :
      (f : ManagedJobHandle → ManagedJobHandle) (id : String)
      → IsMethod f
      → IsConsistent (on_handle f id rt)
  unfolding on_handle
  on_handle-IsConsistent f id m = elim (Option-cases (lookup id rt.handles)) [
    | inl missing ↦ rw (on_handle, missing) old
    | inr (h, e) ↦
        let kept = method-IsKept f m h in
        let stored = old id h e in
        rw (on_handle, e)
          (IsConsistent-saved rt (record rt { handles = insert id (f h) rt.handles }) id (f h) refl
            refl (kept.same_id ∙ stored.own_id) (kept.cancels_too stored.cancels) old)
  ]

  request-IsConsistent :
      (f : ManagedJobHandle → ManagedJobHandle) (t : String)
      → IsMethod f
      → IsConsistent (request f t rt).1
  unfolding request
  request-IsConsistent f t m = elim (Option-cases (lookup t rt.active_jobs)) [
    | inl missing ↦ rw (request, missing) old
    | inr (id, e) ↦ rw (request, e) (on_handle-IsConsistent f id m)
  ]

  start_job-IsConsistent :
      (id now t : String) (result : Fields) (summary : String)
      → IsConsistent (start_job id now t result summary rt).1
  unfolding start_job
  start_job-IsConsistent id now t result summary =
      IsConsistent-saved rt _ id
        (record {
          job = (start_job id now t result summary rt).0;
          stop_event = false;
          pause_event = false;
        })
        refl refl refl refl old

  active_job-same :
      (t : String)
      → ((active_job t rt).1.handles ≡ rt.handles) × ((active_job t rt).1.jobs ≡ rt.jobs)
  unfolding active_job
  active_job-same t = elim (Option-cases (lookup t rt.active_jobs)) [
    | inl missing ↦ rw (active_job, missing) (refl, refl)
    | inr (id, e) ↦ rw (active_job, e) (ground arith)
  ]

  attachment-same :
      (t : String) (v : Option Value)
      → ((set_job_attachment t v rt).handles ≡ rt.handles)
        × ((set_job_attachment t v rt).jobs ≡ rt.jobs)
  unfolding set_job_attachment
  attachment-same t none = (refl, refl)
  attachment-same t (some v) = (refl, refl)

  Step-IsConsistent : {v : BackgroundJobRuntime} → Step rt v → IsConsistent v
  Step-IsConsistent (starts id now t result summary fresh) =
      start_job-IsConsistent id now t result summary
  Step-IsConsistent (calls f id m) = on_handle-IsConsistent f id m
  Step-IsConsistent (requests f t m) = request-IsConsistent f t m
  Step-IsConsistent (polls t) =
      IsConsistent-same rt _ (active_job-same t).0 (active_job-same t).1 old
  Step-IsConsistent (attaches t v) =
      IsConsistent-same rt _ (attachment-same t v).0 (attachment-same t v).1 old
  Step-IsConsistent (snapshots name d) =
      unfold set_capability_snapshot in IsConsistent-same rt _ refl refl old
  Step-IsConsistent (ends t id) = unfold end_job in IsConsistent-same rt _ refl refl old

-- In every state that calls in any order reach, what a handle holds is what its file holds, and it
-- says that a cancellation is requested exactly if its stop event is set.
pub Reach-IsConsistent : {rt : BackgroundJobRuntime} → Reach rt → IsConsistent rt
Reach-IsConsistent initial = λ id h e. cc
Reach-IsConsistent (later {u = u} r s) = Step-IsConsistent u (Reach-IsConsistent r) s
