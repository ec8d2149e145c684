-- ===== src/MetadataFailures/Repair/Undone.antt =====
-- A permission fix and its undo.
use immich_doctor.Base.{
  ℕ, ◌+◌, ◌*◌, ◌/◌, String, ◌≡◌, refl, ◌∙◌, ap, sym, true, false, inl, inr, arith, ◌==◌, string_eq,
  Bool-cases, List, [], ◌∷◌, ◌++◌, if◌then◌else◌,
}
use Prim.Native.Nat.{bit_or}
use immich_doctor.Core.Value.{str, int, get_field, get_or_null, truthy}
use immich_doctor.Effects.Result.{PyError, Result, ok, require}
use immich_doctor.Effects.World.{
  World, Platform, Node, present, pure, lift, attempt, current_instant, fresh_id, ◌>>◌,
}
use immich_doctor.Effects.Within.{bind-returns, attempt-ends}
use immich_doctor.Filesystem.{
  stat_node, stat_path, set_permissions, chmod_node, add_read_permissions, s_imode, set_file,
}
use immich_doctor.Repair.Models.{RepairRun, RepairJournalEntry, RepairJournalEntryStatus}
use immich_doctor.Repair.Store.{append_journal_entry, load_journal_entries}
use immich_doctor.Repair.Store.Journal.{load_journal_entries-append}
use immich_doctor.Repair.Undo.Models.{UndoExecutionItem}
use immich_doctor.Repair.Undo.Plan.{text_of, int_of, path_value, path_of}
use immich_doctor.Repair.Undo.Plan.Eligible.{IsUndoable}
use immich_doctor.Repair.Undo.Restore.{
  restore_mode, after_stat, after_chmod, execute_entry, restored, record_undo, Outcome,
}
use immich_doctor.MetadataFailures.Models.{MetadataFailureDiagnostic, MetadataRepairAction}
use immich_doctor.MetadataFailures.Repair.{
  fixed, permission_fix, after_old_mode, after_fix, fix_action, apply_permission_fix, action_entry,
  action_undo_type, journal_status, record_action,
}

-- The mode of a file after `chmod mode`.
abbrev with_mode : ℕ → ℕ → ℕ
with_mode st_mode mode = st_mode / 4096 * 4096 + s_imode mode

abbrev readable : ℕ → ℕ
readable st_mode = with_mode st_mode (bit_or (bit_or st_mode 0o400) 0o040)

-- Setting the mode back gives the status of the file back.
mode_back : (st_mode m : ℕ) → with_mode (with_mode st_mode m) (s_imode st_mode) ≡ st_mode
mode_back st_mode m = omega arith

same_path : (p : String) → (p == p) ≡ true
same_path p = (string_eq.same_iff p p).1 refl

module _ (p : String) (st_mode : ℕ) (w : World) (h : w.files p ≡ present st_mode true) where
  stat_present : stat_path p w ≡ (ok st_mode, w)
  unfolding stat_path
  stat_present = rw h refl

  chmod_present :
      (mode : ℕ)
      → set_permissions p mode w ≡ (ok tt, set_file p (present (with_mode st_mode mode) true) w)
  unfolding set_permissions chmod_node
  chmod_present mode = rw h refl

  add_read_present :
      add_read_permissions p w ≡ (ok tt, set_file p (present (readable st_mode) true) w)
  unfolding add_read_permissions
  add_read_present =
      bind-returns (stat_path p) _ w stat_present
      ∙ chmod_present (bit_or (bit_or st_mode 0o400) 0o040)

  stat_after :
      (m : ℕ) → stat_path p (set_file p (present m true) w) ≡ (ok m, set_file p (present m true) w)
  unfolding stat_path
  stat_after m = rw (same_path p) refl

  permission_fix-present : permission_fix p w ≡ (
    ok (fixed (s_imode st_mode) (s_imode (readable st_mode))),
    set_file p (present (readable st_mode) true) w,
  )
  unfolding permission_fix after_old_mode after_fix pure
  permission_fix-present =
      bind-returns (attempt (stat_path p)) (after_old_mode p) w
        (attempt-ends (stat_path p) w stat_present)
      ∙ bind-returns (attempt (add_read_permissions p >> stat_path p))
          (after_fix p (s_imode st_mode)) w
          (attempt-ends (add_read_permissions p >> stat_path p) w (
            bind-returns (add_read_permissions p) (λ _. stat_path p) w add_read_present
            ∙ stat_after (readable st_mode)))

  restore_mode-present :
      (old_mode : ℕ)
      → restore_mode p old_mode w ≡ (
        ok (restored (s_imode st_mode) (s_imode (with_mode st_mode old_mode))),
        set_file p (present (with_mode st_mode old_mode) true) w,
      )
  unfolding restore_mode after_stat after_chmod pure
  restore_mode-present old_mode =
      bind-returns (attempt (stat_path p)) (after_stat p old_mode) w
        (attempt-ends (stat_path p) w stat_present)
      ∙ bind-returns (attempt (set_permissions p old_mode >> stat_path p))
          (after_chmod p old_mode (s_imode st_mode)) w
          (attempt-ends (set_permissions p old_mode >> stat_path p) w (
            bind-returns (set_permissions p old_mode) (λ _. stat_path p) w (chmod_present old_mode)
            ∙ stat_after (with_mode st_mode old_mode)))

module _ (platform : Platform) (undo_run : RepairRun) (e : RepairJournalEntry) where
  record_undo-files :
      (p : String) (o : Outcome) (w : World)
      → (record_undo platform undo_run e p o w).1.files ≡ w.files
  unfolding record_undo fresh_id current_instant append_journal_entry pure
  record_undo-files p o w = refl

  module _ (source : String) (old_mode m : ℕ) (w : World)
      (has_path : require "path" e.undo_payload ≡ ok (str source))
      (has_mode : require "old_mode" e.undo_payload ≡ ok (int old_mode))
      (h : w.files (platform.str_of_path source) ≡ present m true) where
    execute_entry-present :
        (execute_entry platform undo_run e w).1.files
        ≡ (set_file (platform.str_of_path source) (present (with_mode m old_mode) true) w).files
    unfolding execute_entry lift text_of int_of
    execute_entry-present =
        let p = platform.str_of_path source in
        rw (has_path, has_mode)
          (ap (λ (x : Result UndoExecutionItem × World). x.1.files)
              (bind-returns (restore_mode p old_mode) (record_undo platform undo_run e p) w
                (restore_mode-present p m w h old_mode))
            ∙ record_undo-files p _ _)

set_file-back :
    (p : String) (st_mode : ℕ) (w : World) (n : Node)
    → w.files p ≡ present st_mode true
    → (q : String)
    → (if q == p
        then present (with_mode (readable st_mode) (s_imode st_mode)) true
        else (set_file p n w).files q)
      ≡ w.files q
set_file-back p st_mode w n h q = elim (Bool-cases (q == p)) [
  | inl same ↦
      rw (same, mode_back st_mode (bit_or (bit_or st_mode 0o400) 0o040))
        (sym h ∙ ap w.files (sym ((string_eq.same_iff q p).0 same)))
  | inr other ↦ rw other refl
]

module _ (platform : Platform) (os_message : PyError → String) (d : MetadataFailureDiagnostic)
    (st_mode : ℕ) (w : World)
    (h : w.files (platform.str_of_path d.source_path) ≡ present st_mode true) where
  abbrev repaired_action : MetadataRepairAction
  repaired_action = fix_action os_message d (fixed (s_imode st_mode) (s_imode (readable st_mode)))

  apply_permission_fix-present : apply_permission_fix platform os_message d w ≡ (
    ok repaired_action,
    set_file (platform.str_of_path d.source_path) (present (readable st_mode) true) w,
  )
  unfolding apply_permission_fix pure
  apply_permission_fix-present =
      let p = platform.str_of_path d.source_path in
      bind-returns (permission_fix p) (λ outcome. pure (fix_action os_message d outcome)) w
        (permission_fix-present p st_mode w h)

  -- On a file that the process owns, the permission fix succeeds, and the undo of the entry that
  -- records it, whatever the manifests then hold, gives every file its status from before the
  -- fix.
  pub apply_permission_fix-undone :
      (repair_run undo_run : RepairRun) (entry_id now : String) (later : World)
      → later.files ≡ (apply_permission_fix platform os_message d w).1.files
      → (a : MetadataRepairAction) × ((apply_permission_fix platform os_message d w).0 ≡ ok a)
        × (a.applied ≡ true)
        × ((q : String)
            → (execute_entry platform undo_run
                  (action_entry entry_id now repair_run RepairJournalEntryStatus.applied d a)
                  later).1.files
                q
              ≡ w.files q)
  unfolding fix_action action_entry action_undo_type require get_field get_or_null
  apply_permission_fix-undone repair_run undo_run entry_id now later k =
      let p = platform.str_of_path d.source_path in
      let fixed_files =
        k
        ∙ ap (λ (x : Result MetadataRepairAction × World). x.1.files)
            apply_permission_fix-present in
      (
        repaired_action,
        ap (λ (x : Result MetadataRepairAction × World). x.0) apply_permission_fix-present,
        refl,
        λ q.
            ap (λ f. f q)
              (execute_entry-present platform undo_run _ d.source_path (s_imode st_mode)
                (readable st_mode) later refl refl
                (ap (λ f. f p) fixed_files ∙ rw (same_path p) refl))
            ∙ ap
                (λ f.
                  if q == p
                  then present (with_mode (readable st_mode) (s_imode st_mode)) true
                  else f q)
                fixed_files
            ∙ set_file-back p st_mode w (present (readable st_mode) true) h q,
      )

  found :
      (later : World)
      → later.files ≡ (apply_permission_fix platform os_message d w).1.files
      → stat_node (later.files (platform.str_of_path d.source_path)) ≡ ok (readable st_mode)
  found later k =
      let p = platform.str_of_path d.source_path in
      ap (λ f. stat_node (f p))
        (k
          ∙ ap (λ (x : Result MetadataRepairAction × World). x.1.files)
              apply_permission_fix-present)
      ∙ rw (same_path p) refl

  recorded :
      (repair_run : RepairRun) (v : World) {es : List RepairJournalEntry}
      → (load_journal_entries repair_run.repair_run_id v).0 ≡ ok es
      → (load_journal_entries repair_run.repair_run_id
          (record_action platform repair_run d repaired_action v).1).0
        ≡ ok (
            es
            ++ action_entry
                (platform.uuid4_hex v.questions)
                (platform.isoformat (platform.now (v.questions + 1)))
                repair_run
                RepairJournalEntryStatus.applied
                d
                repaired_action
              ∷ [])
  unfolding record_action fresh_id lift current_instant fix_action journal_status action_entry
      load_journal_entries
  recorded repair_run v {es} h =
      load_journal_entries-append
        (action_entry (platform.uuid4_hex v.questions)
          (platform.isoformat (platform.now (v.questions + 1))) repair_run
          RepairJournalEntryStatus.applied d repaired_action)
        repair_run.repair_run_id (record v { questions = v.questions + 2 }) {es = es} h
      ∙ rw (same_path repair_run.repair_run_id) refl

  -- On a file that the process owns, at a path that is not empty, the permission fix succeeds.
  -- Recording it in a journal that is read without error adds one entry at the end of what is read
  -- there, and undo planning accepts this entry as long as no file has changed.
  pub apply_permission_fix-IsUndoable :
      (d.source_path == "") ≡ false
      → (repair_run : RepairRun) (later : World) {es : List RepairJournalEntry}
      → later.files ≡ (apply_permission_fix platform os_message d w).1.files
      → (load_journal_entries repair_run.repair_run_id
          (apply_permission_fix platform os_message d w).1).0
        ≡ ok es
      → (a : MetadataRepairAction) × ((apply_permission_fix platform os_message d w).0 ≡ ok a)
        × (e : RepairJournalEntry) × ((load_journal_entries repair_run.repair_run_id
              (record_action platform repair_run d a
                (apply_permission_fix platform os_message d w).1).1).0
            ≡ ok (es ++ e ∷ []))
        × IsUndoable platform later e
  unfolding fix_action action_entry action_undo_type get_field get_or_null truthy path_value path_of
      text_of int_of
  apply_permission_fix-IsUndoable named repair_run later {es} k h = (
    repaired_action,
    ap (λ (x : Result MetadataRepairAction × World). x.0) apply_permission_fix-present,
    _,
    recorded repair_run (apply_permission_fix platform os_message d w).1 h,
    record {
      was_applied = refl;
      restores_permissions = refl;
      has_path = rw (named, named) refl;
      has_old_mode = refl;
      has_new_mode = refl;
      st_mode = readable st_mode;
      exists = rw named (found later k);
      undrifted = refl;
    },
  )
