-- ===== src/Repair/Undo/Plan/Ready.antt =====
-- What it takes for a run to be reversible.
use immich_doctor.Base.{
  String, ◌≡◌, refl, Bool, true, false, List, [], ◌∷◌, map, arith, is_empty, any, all, ◌==◌, All,
}
use immich_doctor.Effects.Result.{ok}
use immich_doctor.Effects.World.{World, Platform, M, pure, for_each}
use immich_doctor.Effects.Within.{bind-ok, bind-ok_reads, for_each-All}
use immich_doctor.Repair.Models.{
  RepairRun, RepairRunStatus, RepairJournalEntry, RepairJournalEntryStatus, repair_run_status_eq,
  repair_journal_entry_status_eq,
}
use immich_doctor.Repair.Store.{load_run, load_journal_entries}
use immich_doctor.Repair.Undo.Models.{
  reversible_now, undo_eligibility_eq, UndoBlocker, UndoEntryAssessment, UndoPlanResult,
}
use immich_doctor.Repair.Undo.Plan.{
  select_entries, assess_entry, global_blockers, eligibility_of, plan_result, plan,
}
use immich_doctor.Repair.Undo.Plan.Eligible.{
  IsUndoable, assess_entry-IsUndoable, assess_entry-reads, load_run-reads,
  load_journal_entries-reads,
}

abbrev pub is_reversible : UndoEntryAssessment → Bool
is_reversible a = a.eligibility == reversible_now

-- The journal of the run `r` as undo planning wants it.
pub record IsReady (platform : Platform) (w : World) (r : String) (ids : List String)
    (run : RepairRun) (entries : List RepairJournalEntry) : Type 0 where
  pub loads_run : (load_run r w).0 ≡ ok run
  pub loads_journal : (load_journal_entries r w).0 ≡ ok entries
  pub completed : run.status ≡ RepairRunStatus.completed
  pub no_failure : any (λ e. e.status == RepairJournalEntryStatus.failed) entries ≡ false
  pub some_selected : is_empty (select_entries entries ids) ≡ false
  pub all_undoable : All (IsUndoable platform w) (select_entries entries ids)

pub all-reversible :
    (l : List UndoEntryAssessment)
    → all (λ e. e == reversible_now) (map (λ (a : UndoEntryAssessment). a.eligibility) l)
      ≡ all is_reversible l
all-reversible [] = refl
all-reversible (a ∷ l) = ground (arith, all-reversible l)

eligibility_of-reversible :
    (l : List UndoEntryAssessment) (b : List UndoBlocker)
    → eligibility_of l b ≡ reversible_now
    → (b ≡ []) × (is_empty l ≡ false) × (all is_reversible l ≡ true)
unfolding eligibility_of
eligibility_of-reversible l b h = ground (arith, all-reversible l)

global_blockers-nil :
    (run : RepairRun) (entries : List RepairJournalEntry) (l : List UndoEntryAssessment)
    → global_blockers run entries l ≡ []
    → (run.status ≡ RepairRunStatus.completed)
      × (any (λ e. e.status == RepairJournalEntryStatus.failed) entries ≡ false)
unfolding global_blockers
global_blockers-nil run entries l h = ground arith

is_empty-for_each :
    {A B : Type 0} (f : A → M B) (l : List A) (w : World) (bs : List B)
    → (for_each f l w).0 ≡ ok bs
    → is_empty bs ≡ false
    → is_empty l ≡ false
unfolding for_each pure
is_empty-for_each f [] w bs h g = ground arith
is_empty-for_each f (x ∷ l) w bs h g = refl

module _ (platform : Platform) (r : String) (ids : List String) (w : World) where
  assessed-IsReady :
      (run : RepairRun) (entries : List RepairJournalEntry) (l : List UndoEntryAssessment)
      (p : UndoPlanResult)
      → (load_run r w).0 ≡ ok run
      → (load_journal_entries r w).0 ≡ ok entries
      → (for_each (assess_entry platform) (select_entries entries ids) w).0 ≡ ok l
      → ok (plan_result r run entries (select_entries entries ids) l) ≡ ok p
      → p.eligibility ≡ reversible_now
      → IsReady platform w r ids run entries
  unfolding plan_result
  assessed-IsReady run entries l p h₁ h₂ h₃ h₄ g =
      let (none_block, some_entry, all_good) =
        eligibility_of-reversible l (global_blockers run entries l) (ground arith) in
      let (run_done, no_failed) = global_blockers-nil run entries l none_block in
      record {
        loads_run = h₁;
        loads_journal = h₂;
        completed = run_done;
        no_failure = no_failed;
        some_selected =
            is_empty-for_each (assess_entry platform) (select_entries entries ids) w l h₃
              some_entry;
        all_undoable =
            for_each-All (assess_entry platform) is_reversible (IsUndoable platform w) w
              (assess_entry-reads platform)
              (λ e a h good. assess_entry-IsUndoable platform e w {a = a} h (ground arith))
              (select_entries entries ids) l h₃ all_good;
      }

  -- A plan is reversible only if the run is completed, no entry of its journal failed, some entry is selected,
  -- and every selected entry was applied, restores permissions, and has a file whose mode is still
  -- the one that the repair left.
  pub plan-reversible :
      {p : UndoPlanResult}
      → (plan platform r ids w).0 ≡ ok p
      → p.eligibility ≡ reversible_now
      → (run : RepairRun) × (entries : List RepairJournalEntry) × IsReady platform w r ids run
          entries
  unfolding plan pure
  plan-reversible {p} h g =
      let (run, h₁, h₂) = bind-ok_reads (load_run r) _ w {b = p} (load_run-reads platform r) h in
      let (entries, h₃, h₄) =
        bind-ok_reads (load_journal_entries r) _ w {b = p} (load_journal_entries-reads platform r)
          h₂ in
      let (l, h₅, h₆) =
        bind-ok (for_each (assess_entry platform) (select_entries entries ids)) _ w {b = p} h₄ in
      (run, entries, assessed-IsReady run entries l p h₁ h₃ h₅ h₆ g)
