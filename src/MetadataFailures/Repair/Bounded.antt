-- ===== src/MetadataFailures/Repair/Bounded.antt =====
-- The files that an action may change.
use immich_doctor.Base.{
  ℕ, String, ◌≡◌, refl, ◌∙◌, ap, Bool, true, false, ◌&&◌, List, [], ◌∷◌, Option, arith, contains,
  filter_by, ◌==◌, string_eq, Bool-cases, inl, inr,
}
use immich_doctor.Effects.Result.{PyError, Result, ok, raised}
use immich_doctor.Effects.World.{
  World, Platform, Node, absent, inaccessible, faulty, present, pure, raise, current_instant,
  fresh_id,
}
use immich_doctor.Effects.Within.{
  IsPreorder, Within, Within-pure, Within-raise, Within-lift, Within-attempt, Within-if,
  Within-bind,
}
use immich_doctor.Filesystem.{stat_path, set_permissions, chmod_node, add_read_permissions}
use immich_doctor.Repair.Models.{RepairRun, RepairJournalEntry}
use immich_doctor.Repair.Store.{append_journal_entry}
use immich_doctor.MetadataFailures.Models.{
  SuggestedAction, fix_permissions, suggested_action_eq, MetadataFailureDiagnostic,
  MetadataRepairAction,
}
use immich_doctor.MetadataFailures.Repair.{
  caught, after_fix, after_old_mode, permission_fix, apply_permission_fix, chosen_action,
  record_action, plan_or_apply_action,
}

-- The file at a path is as it was.
abbrev pub KeepsFile : String → World → World → Type 0
KeepsFile q w w' = w'.files q ≡ w.files q

pub KeepsFile-IsPreorder : (q : String) → IsPreorder (KeepsFile q)
KeepsFile-IsPreorder q = record { stay = λ w. refl; chain = λ u v w h k. k ∙ h }

module _ (q : String) where
  pub stat_path-keeps : (p : String) → Within (KeepsFile q) (stat_path p)
  unfolding stat_path
  stat_path-keeps p = record { at = λ w. refl }

  pub current_instant-keeps :
      (platform : Platform) → Within (KeepsFile q) (current_instant platform)
  unfolding current_instant
  current_instant-keeps platform = record { at = λ w. refl }

  pub fresh_id-keeps : (platform : Platform) → Within (KeepsFile q) (fresh_id platform)
  unfolding fresh_id
  fresh_id-keeps platform = record { at = λ w. refl }

  pub append_journal_entry-keeps :
      (e : RepairJournalEntry) → Within (KeepsFile q) (append_journal_entry e)
  unfolding append_journal_entry
  append_journal_entry-keeps e = record { at = λ w. refl }

  pub caught-keeps : (o : Option ℕ) (e : PyError) → Within (KeepsFile q) (caught o e)
  unfolding caught pure raise
  caught-keeps o e = record { at = λ w. ground arith }

  chmod_node-keeps :
      (p : String) (mode : ℕ)
      → (q == p) ≡ false
      → (n : Node) (w : World) → KeepsFile q w (chmod_node p mode n w).1
  unfolding chmod_node
  chmod_node-keeps p mode h absent w = refl
  chmod_node-keeps p mode h inaccessible w = refl
  chmod_node-keeps p mode h (faulty k) w = refl
  chmod_node-keeps p mode h (present st_mode false) w = refl
  chmod_node-keeps p mode h (present st_mode true) w = rw h refl

  pub set_permissions-keeps :
      (p : String) (mode : ℕ) → (q == p) ≡ false → Within (KeepsFile q) (set_permissions p mode)
  unfolding set_permissions
  set_permissions-keeps p mode h = record { at = λ w. chmod_node-keeps p mode h (w.files p) w }

  pub ruleset keeps_rules = (
    KeepsFile-IsPreorder, Within-pure, Within-raise, Within-lift, Within-attempt, Within-if,
    Within-bind, stat_path-keeps, current_instant-keeps, fresh_id-keeps, append_journal_entry-keeps,
    caught-keeps, set_permissions-keeps,
  )

  add_read_permissions-keeps :
      (p : String) → (q == p) ≡ false → Within (KeepsFile q) (add_read_permissions p)
  unfolding add_read_permissions
  add_read_permissions-keeps p h = search keeps_rules

  after_fix-keeps : (p : String) (m : ℕ) (r : Result ℕ) → Within (KeepsFile q) (after_fix p m r)
  unfolding after_fix
  after_fix-keeps p m (ok n) = search keeps_rules
  after_fix-keeps p m (raised e) = search keeps_rules

  after_old_mode-keeps :
      (p : String) (r : Result ℕ) → (q == p) ≡ false → Within (KeepsFile q) (after_old_mode p r)
  unfolding after_old_mode
  after_old_mode-keeps p (ok n) h =
      search (keeps_rules, add_read_permissions-keeps, after_fix-keeps)
  after_old_mode-keeps p (raised e) h = search keeps_rules

  permission_fix-keeps : (p : String) → (q == p) ≡ false → Within (KeepsFile q) (permission_fix p)
  unfolding permission_fix
  permission_fix-keeps p h = search (keeps_rules, after_old_mode-keeps)

  apply_permission_fix-keeps :
      (platform : Platform) (os_message : PyError → String) (d : MetadataFailureDiagnostic)
      → (q == platform.str_of_path d.source_path) ≡ false
      → Within (KeepsFile q) (apply_permission_fix platform os_message d)
  unfolding apply_permission_fix
  apply_permission_fix-keeps platform os_message d h = search (keeps_rules, permission_fix-keeps)

  pub record_action-keeps :
      (platform : Platform) (run : RepairRun) (d : MetadataFailureDiagnostic)
      (a : MetadataRepairAction)
      → Within (KeepsFile q) (record_action platform run d a)
  unfolding record_action
  record_action-keeps platform run d a = search keeps_rules

  -- Among the matching actions is a fix, and the path is that of the diagnostic.
  abbrev fixes : Platform → Bool → MetadataFailureDiagnostic → List SuggestedAction → Bool
  fixes platform apply d matching =
      apply && (contains matching fix_permissions && (q == platform.str_of_path d.source_path))

  chosen_action-keeps :
      (platform : Platform) (os_message : PyError → String) (apply : Bool)
      (d : MetadataFailureDiagnostic) (matching : List SuggestedAction)
      → fixes platform apply d matching ≡ false
      → Within (KeepsFile q) (chosen_action platform os_message apply d matching)
  unfolding chosen_action
  chosen_action-keeps platform os_message apply d [] h = search keeps_rules
  chosen_action-keeps platform os_message false d (a ∷ l) h = search keeps_rules
  chosen_action-keeps platform os_message true d (a ∷ l) h =
      elim (Bool-cases (a == fix_permissions)) [
        | inl same ↦ rw same (apply_permission_fix-keeps platform os_message d (ground arith))
        | inr other ↦ rw other (search keeps_rules)
      ]

contains-filter_by :
    (selected l : List SuggestedAction) (a : SuggestedAction)
    → contains (filter_by (contains selected) l) a ≡ (contains selected a && contains l a)
contains-filter_by selected [] a = ground arith
contains-filter_by selected (x ∷ l) a = elim (Bool-cases (x == a)) [
  | inl same ↦ ground (
    arith,
    contains-filter_by selected l a,
    ap (contains selected) ((suggested_action_eq.same_iff x a).0 same),
  )
  | inr other ↦ ground (arith, contains-filter_by selected l a)
]

-- An applied repair of the diagnostic may change the file at the path.
abbrev pub may_change :
    Platform → Bool → List SuggestedAction → String → MetadataFailureDiagnostic → Bool
may_change platform apply selected q d =
    apply
    && (contains selected fix_permissions
        && (contains d.available_actions fix_permissions
            && (q == platform.str_of_path d.source_path)))

-- Acting on a diagnostic leaves every file alone but the source file of the diagnostic, and that
-- too unless the repair is applied and the permission fix is both selected and available.
pub plan_or_apply_action-keeps :
    (platform : Platform) (os_message : PyError → String) (selected : List SuggestedAction)
    (apply : Bool) (run : RepairRun) (d : MetadataFailureDiagnostic) (q : String)
    → may_change platform apply selected q d ≡ false
    → Within (KeepsFile q) (plan_or_apply_action platform os_message selected apply run d)
unfolding plan_or_apply_action
plan_or_apply_action-keeps platform os_message selected apply run d q h =
    Within-bind (KeepsFile-IsPreorder q) _ _
      (chosen_action-keeps q platform os_message apply d _
        (ground (arith, contains-filter_by selected d.available_actions fix_permissions)))
      λ a.
        Within-bind (KeepsFile-IsPreorder q) _ _ (record_action-keeps q platform run d a)
          λ _. Within-pure (KeepsFile-IsPreorder q) a
