-- ===== src/Repair/Undo/Plan/Enough.antt =====
-- What is enough for a run to be reversible.
use immich_doctor.Base.{
  ℕ, String, ◌≡◌, refl, ◌∙◌, true, false, List, [], ◌∷◌, arith, is_empty, any, all, ◌==◌, nat_eq,
  All, nat_beq_iff,
}
use immich_doctor.Core.Value.{Value, Fields, end, field, int, get_or_null}
use immich_doctor.Effects.Result.{ok}
use immich_doctor.Effects.World.{World, Platform, M, pure, lift, attempt, for_each}
use immich_doctor.Effects.Within.{bind-returns}
use immich_doctor.Filesystem.{stat_path, s_imode}
use immich_doctor.Repair.Models.{
  RepairRun, RepairRunStatus, repair_run_status_eq, RepairJournalEntry, RepairJournalEntryStatus,
  repair_journal_entry_status_eq,
}
use immich_doctor.Repair.Store.{load_run, load_journal_entries}
use immich_doctor.Repair.Undo.Models.{
  reversible_now, undo_eligibility_eq, UndoEntryAssessment, UndoPlanResult,
}
use immich_doctor.Repair.Undo.Plan.{
  select_entries, entry_blockers, path_value, int_of, details_of, assess_mode, assess_file,
  assess_entry, global_blockers, eligibility_of, plan_result, plan,
}
use immich_doctor.Repair.Undo.Plan.Eligible.{IsUndoable, load_run-reads, load_journal_entries-reads}
use immich_doctor.Repair.Undo.Plan.Ready.{IsReady, is_reversible, all-reversible}

-- An assessment of the entry that says reversible.
abbrev Assessed : Platform → World → RepairJournalEntry → Type 0
Assessed platform w e =
    (a : UndoEntryAssessment) × (assess_entry platform e w ≡ (ok a, w)) × (is_reversible a ≡ true)

module _ (platform : Platform) (w : World) where
  assess_mode-undrifted :
      (e : RepairJournalEntry) (d : Fields) (m : ℕ)
      → IsUndoable platform w e
      → is_reversible (assess_mode platform e (entry_blockers e) d m m) ≡ true
  unfolding assess_mode entry_blockers
  assess_mode-undrifted e d m u =
      rw (u.was_applied, u.restores_permissions) (ground (arith, nat_beq_iff m m))

  assess_file-found :
      (e : RepairJournalEntry) (p o n : Value) (st : ℕ)
      → int_of platform n ≡ ok (s_imode st)
      → assess_file platform e (entry_blockers e) p o n (ok st) w ≡ (
        ok (
            assess_mode platform e
              (entry_blockers e)
              (details_of platform p o n (field "current_mode" (int (s_imode st)) end))
              (s_imode st)
              (s_imode st)),
        w,
      )
  unfolding assess_file lift pure
  assess_file-found e p o n st h = rw h refl

  assess_entry-Assessed : (e : RepairJournalEntry) → IsUndoable platform w e → Assessed platform w e
  unfolding assess_entry attempt stat_path
  assess_entry-Assessed e u =
      let p = path_value e in
      let o = get_or_null "old_mode" e.undo_payload in
      let n = get_or_null "new_mode" e.undo_payload in
      (
        assess_mode platform e (entry_blockers e)
            (details_of platform p o n (field "current_mode" (int (s_imode u.st_mode)) end))
            (s_imode u.st_mode) (s_imode u.st_mode),
        rw (u.has_path, u.has_old_mode, u.has_new_mode, u.exists)
            (assess_file-found e p o n u.st_mode u.undrifted),
        assess_mode-undrifted e _ (s_imode u.st_mode) u,
      )

  all-Assessed :
      (l : List RepairJournalEntry)
      → All (IsUndoable platform w) l
      → (bs : List UndoEntryAssessment) × (for_each (assess_entry platform) l w ≡ (ok bs, w))
        × (all is_reversible bs ≡ true)
        × (is_empty bs ≡ is_empty l)
  unfolding for_each pure
  all-Assessed [] h = ([], refl, refl, refl)
  all-Assessed (e ∷ l) (u, us) =
      let (a, q, good) = assess_entry-Assessed e u in
      let (bs, qs, goods, same) = all-Assessed l us in
      (
        a ∷ bs,
        bind-returns (assess_entry platform e) _ w q
            ∙ bind-returns (for_each (assess_entry platform) l) (λ ys. pure (a ∷ ys)) w qs,
        ground (arith, good, goods),
        refl,
      )

eligibility_of-ready :
    (run : RepairRun) (entries : List RepairJournalEntry) (l : List UndoEntryAssessment)
    → run.status ≡ RepairRunStatus.completed
    → any (λ e. e.status == RepairJournalEntryStatus.failed) entries ≡ false
    → is_empty l ≡ false
    → all is_reversible l ≡ true
    → eligibility_of l (global_blockers run entries l) ≡ reversible_now
unfolding eligibility_of global_blockers
eligibility_of-ready run entries l h₁ h₂ h₃ h₄ = rw (h₁, h₂, h₃, all-reversible l, h₄) refl

reads_to :
    {A : Type 0} (w : World) (m : M A) {a : A} → (m w).0 ≡ ok a → (m w).1 ≡ w → m w ≡ (ok a, w)
reads_to w m h k = λ i. (h i, k i)

module _ (platform : Platform) (r : String) (ids : List String) (w : World) where
  -- A completed run without failed entries, of which some entry is selected and every selected entry
  -- is undoable, is planned, and planned as reversible.
  pub plan-ready :
      (run : RepairRun) (entries : List RepairJournalEntry)
      → IsReady platform w r ids run entries
      → (p : UndoPlanResult) × (plan platform r ids w ≡ (ok p, w))
        × (p.eligibility ≡ reversible_now)
  unfolding plan plan_result pure
  plan-ready run entries ready =
      let selected = select_entries entries ids in
      let (l, q, good, same) = all-Assessed platform w selected ready.all_undoable in
      (
        plan_result r run entries selected l,
        bind-returns (load_run r) _ w
              (reads_to w (load_run r) ready.loads_run ((load_run-reads platform r).at w))
            ∙ bind-returns (load_journal_entries r) _ w (
                reads_to w (load_journal_entries r) ready.loads_journal
                  ((load_journal_entries-reads platform r).at w))
            ∙ bind-returns (for_each (assess_entry platform) selected) _ w q,
        eligibility_of-ready run entries l ready.completed ready.no_failure
            (same ∙ ready.some_selected) good,
      )
