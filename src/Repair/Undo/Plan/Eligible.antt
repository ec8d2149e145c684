-- ===== src/Repair/Undo/Plan/Eligible.antt =====
use immich_doctor.Base.{
  ℕ, String, ◌≡◌, refl, inl, inr, Bool, true, false, not, ◌||◌, List, arith, nat_beq_iff,
  Bool-cases,
}
use immich_doctor.Core.Value.{Value, Fields, get_or_null, truthy}
use immich_doctor.Effects.Result.{Result, ok, raised}
use immich_doctor.Effects.World.{World, Platform}
use immich_doctor.Effects.Within.{
  Within, Unchanged, Unchanged-IsPreorder, Within-pure, Within-lift, Within-attempt, Within-if,
  Within-bind, Within-for_each,
}
use immich_doctor.Filesystem.{stat_path, s_imode, stat_node}
use immich_doctor.Repair.Models.{RepairJournalEntry, RepairJournalEntryStatus, UndoType}
use immich_doctor.Repair.Store.{load_run, load_journal_entries}
use immich_doctor.Repair.Undo.Models.{reversible_now, UndoBlocker, UndoEntryAssessment}
use immich_doctor.Repair.Undo.Plan.{
  entry_blockers, path_value, is_null, path_of, int_of, assess_mode, assess_file, assess_entry,
  plan,
}

module _ (platform : Platform) where
  assess_file-reads :
      (e : RepairJournalEntry) (b : List UndoBlocker) (p o n : Value) (r : Result ℕ)
      → Within Unchanged (assess_file platform e b p o n r)
  unfolding assess_file
  assess_file-reads e b p o n r = record { at = λ w. ground arith }

  stat_path-reads : (p : String) → Within Unchanged (stat_path p)
  unfolding stat_path
  stat_path-reads p = record { at = λ w. refl }

  pub load_run-reads : (r : String) → Within Unchanged (load_run r)
  unfolding load_run
  load_run-reads r = record { at = λ w. refl }

  pub load_journal_entries-reads : (r : String) → Within Unchanged (load_journal_entries r)
  unfolding load_journal_entries
  load_journal_entries-reads r = record { at = λ w. refl }

  ruleset reads_rules = (
    Unchanged-IsPreorder, Within-pure, Within-lift, Within-attempt, Within-if, Within-bind,
    Within-for_each, assess_file-reads, stat_path-reads, load_run-reads, load_journal_entries-reads,
  )

  pub assess_entry-reads : (e : RepairJournalEntry) → Within Unchanged (assess_entry platform e)
  assess_entry-reads e = unfold assess_entry in search reads_rules

  plan-Within : (r : String) (ids : List String) → Within Unchanged (plan platform r ids)
  unfolding plan
  plan-Within r ids = search (reads_rules, assess_entry-reads)

  -- Planning leaves files, manifests and journals as they are, also where it raises.
  pub plan-reads : (r : String) (ids : List String) (w : World) → (plan platform r ids w).1 ≡ w
  plan-reads r ids w = (plan-Within r ids).at w

-- What an entry must be, and what its file must be in the world, to be undone.
pub record IsUndoable (platform : Platform) (w : World) (e : RepairJournalEntry) : Type 0 where
  pub was_applied : e.status ≡ RepairJournalEntryStatus.applied
  pub restores_permissions : e.undo_type ≡ UndoType.restore_permissions
  pub has_path : truthy (path_value e) ≡ true
  pub has_old_mode : is_null (get_or_null "old_mode" e.undo_payload) ≡ false
  pub has_new_mode : is_null (get_or_null "new_mode" e.undo_payload) ≡ false
  pub st_mode : ℕ
  pub exists : stat_node (w.files (path_of platform (path_value e))) ≡ ok st_mode
  pub undrifted : int_of platform (get_or_null "new_mode" e.undo_payload) ≡ ok (s_imode st_mode)

abbrev pub lacks_payload : RepairJournalEntry → Bool
lacks_payload e =
    not (truthy (path_value e))
    || is_null (get_or_null "old_mode" e.undo_payload)
    || is_null (get_or_null "new_mode" e.undo_payload)

module _ (platform : Platform) where
  assess_mode-reversible :
      (e : RepairJournalEntry) (d : Fields) (current new : ℕ)
      → (assess_mode platform e (entry_blockers e) d current new).eligibility ≡ reversible_now
      → (e.status ≡ RepairJournalEntryStatus.applied)
        × (e.undo_type ≡ UndoType.restore_permissions)
        × (current ≡ new)
  unfolding assess_mode entry_blockers
  assess_mode-reversible e d current new h = ground (arith, nat_beq_iff current new)

  assess_file-undoable_parts :
      (e : RepairJournalEntry) (p o n : Value) (r : Result ℕ) (w : World) {a : UndoEntryAssessment}
      → (assess_file platform e (entry_blockers e) p o n r w).0 ≡ ok a
      → a.eligibility ≡ reversible_now
      → (st : ℕ) × (r ≡ ok st)
        × (int_of platform n ≡ ok (s_imode st))
        × (e.status ≡ RepairJournalEntryStatus.applied)
        × (e.undo_type ≡ UndoType.restore_permissions)
  unfolding assess_file assess_mode entry_blockers
  assess_file-undoable_parts e p o n (ok st) w {a} h r =
      (st, refl, ground arith, ground arith, ground arith)
  assess_file-undoable_parts e p o n (raised x) w {a} h r = ground arith

  pub assess_entry-IsUndoable :
      (e : RepairJournalEntry) (w : World) {a : UndoEntryAssessment}
      → (assess_entry platform e w).0 ≡ ok a
      → a.eligibility ≡ reversible_now
      → IsUndoable platform w e
  unfolding assess_entry
  assess_entry-IsUndoable e w {a} h r = elim (Bool-cases (lacks_payload e)) [
    | inl lacking ↦ ground arith
    | inr complete ↦
        let (st, found, undrifted, applied, kind) =
          assess_file-undoable_parts e (path_value e) (get_or_null "old_mode" e.undo_payload)
            (get_or_null "new_mode" e.undo_payload)
            (stat_node (w.files (path_of platform (path_value e)))) w {a = a} (ground arith) r in
        record {
          was_applied = applied;
          restores_permissions = kind;
          has_path = ground arith;
          has_old_mode = ground arith;
          has_new_mode = ground arith;
          st_mode = st;
          exists = found;
          undrifted = undrifted;
        }
  ]
