-- ===== src/EmptyFolders/Quarantine.antt =====
-- Moving empty folders to the quarantine and back, and their deletion
-- (immich_doctor/storage/empty_folders/quarantine_manager.py). The file system and the clock are
-- the standard library's; a file of the quarantine is what its JSON denotes, and its writing
-- succeeds.
pub mod Settled
use immich_doctor.Base.{
  ℕ, suc, ◌+◌, String, Bool, true, false, not, Option, none, some, List, [], ◌∷◌, ◌++◌, ◌<>◌,
  length, is_empty, decimal, ◌==◌, string_eq, if◌then◌else◌,
}
use immich_doctor.Effects.Result.{
  PyError, Result, ok, raised, file_not_found, permission_error, os_error, key_error, value_error,
  type_error,
}
use immich_doctor.Storage.PosixPath.{PurePosixPath, as_posix, parse_path, join_path}
use immich_doctor.EmptyFolders.Scan.{EmptyDirectoryFinding}
use immich_doctor.EmptyFolders.Items.{
  EmptyDirQuarantineItem, mark_restored, mark_deleted, EmptyDirQuarantineSession, new_session,
  FailedPath, EmptyDirQuarantineResult, EmptyDirRestoreResult, EmptyDirDeleteResult,
}
use immich_doctor.EmptyFolders.QuarantineIndex.{
  select_findings, select_quarantine_items, sort_items, put_item, by_id, merge_index_items,
  list_quarantined,
}
use immich_doctor.EmptyFolders.Moves.{
  is_os_error, parent, Calls, ItemOutcome, failed_at, quarantine_destination, settled_unless,
  restore_to, restore_item, delete_item, quarantine_item, Progress, settle, fail_path, advance,
  round, rounds, begun, settled, refused, interrupted,
}

-- The directories, and the files of the quarantine.
pub record QuarantineState (D : Type 0) : Type 0 where
  pub directories : D
  pub index : List EmptyDirQuarantineItem
  pub sessions : List EmptyDirQuarantineSession

module _ {D : Type 0} (calls : Calls D) where
  abbrev pub restored_report : Progress → EmptyDirRestoreResult
  restored_report p = record {
    summary = "Restored " <> decimal (length p.settled_items) <> " quarantined empty directories.";
    dry_run = false;
    restored = p.settled_items;
    failed = p.failures;
  }

  -- `_write_index` at the end of the loop
  abbrev pub written :
      {R : Type 0}
      → (Progress → R)
      → QuarantineState D
      → Result Progress × D
      → Result R × QuarantineState D
  written report s (ok p, d) =
      (ok (report p), record s { directories = d; index = sort_items p.updated })
  written report s (raised e, d) = (raised e, record s { directories = d })

  -- `restore`
  unfoldable pub restore :
      String
      → List String
      → Bool
      → Bool
      → QuarantineState D
      → Result EmptyDirRestoreResult × QuarantineState D
  unfolding decimal
  restore session_id paths restore_all dry_run s =
      let items =
        select_quarantine_items paths restore_all
          (list_quarantined (some session_id) false s.index) in
      if is_empty items
      then (
        ok record {
          summary = "No quarantined empty directories matched the requested restore selection.";
          dry_run = dry_run;
          restored = [];
          failed = [];
        },
        s,
      )
      else if dry_run
      then (
        ok record {
          summary =
              "Dry-run prepared "
              <> decimal (length items)
              <> " quarantined directories for restore.";
          dry_run = true;
          restored = items;
          failed = [];
        },
        s,
      )
      else written restored_report s
          (rounds (restore_item calls) items (ok (begun (by_id s.index)), s.directories))

  abbrev pub deleted_report : Progress → EmptyDirDeleteResult
  deleted_report p = record {
    summary =
        "Deleted "
        <> decimal (length p.settled_items)
        <> " quarantined empty directories permanently.";
    dry_run = false;
    deleted = p.settled_items;
    failed = p.failures;
  }

  -- `finalize_delete`
  unfoldable pub finalize_delete :
      String
      → List String
      → Bool
      → Bool
      → QuarantineState D
      → Result EmptyDirDeleteResult × QuarantineState D
  unfolding decimal
  finalize_delete session_id paths delete_all dry_run s =
      let items =
        select_quarantine_items paths delete_all
          (list_quarantined (some session_id) false s.index) in
      if is_empty items
      then (
        ok record {
          summary = "No quarantined empty directories matched the requested delete selection.";
          dry_run = dry_run;
          deleted = [];
          failed = [];
        },
        s,
      )
      else if dry_run
      then (
        ok record {
          summary =
              "Dry-run prepared "
              <> decimal (length items)
              <> " quarantined directories for deletion.";
          dry_run = true;
          deleted = items;
          failed = [];
        },
        s,
      )
      else written deleted_report s
          (rounds (delete_item calls) items (ok (begun (by_id s.index)), s.directories))

  -- What the dry run of `quarantine` prepares
  abbrev preview_item :
      PurePosixPath → String → String → ℕ → EmptyDirectoryFinding → D → EmptyDirQuarantineItem
  preview_item quarantine_path session_id reason index f d = record {
    quarantine_item_id = "dry-run-" <> decimal index;
    session_id = session_id;
    root_slug = f.root_slug;
    relative_path = f.relative_path;
    original_path = as_posix f.absolute_path;
    quarantine_path = as_posix (quarantine_destination quarantine_path session_id f);
    reason = reason;
    size_bytes = f.size_bytes;
    last_modified_at = f.last_modified_at;
    mode = none;
    state = "active";
    created_at = calls.utcnow d;
    state_changed_at = none;
    deleted_at = none;
  }

  preview_items :
      PurePosixPath
      → String
      → String
      → ℕ
      → List EmptyDirectoryFinding
      → D
      → List EmptyDirQuarantineItem
  preview_items quarantine_path session_id reason n [] d = []
  preview_items quarantine_path session_id reason n (f ∷ l) d =
      preview_item quarantine_path session_id reason n f d
      ∷ preview_items quarantine_path session_id reason (suc n) l d

  -- The session and the merged index are written after the loop.
  abbrev quarantined :
      EmptyDirQuarantineSession
      → QuarantineState D
      → Result Progress × D
      → Result EmptyDirQuarantineResult × QuarantineState D
  quarantined session s (ok p, d) = (
    ok record {
      summary = "Quarantined " <> decimal (length p.settled_items) <> " empty directories.";
      dry_run = false;
      session_id = some session.session_id;
      items = p.settled_items;
      failed = p.failures;
    },
    record s {
      directories = d;
      index = merge_index_items p.settled_items s.index;
      sessions = session ∷ s.sessions;
    },
  )
  quarantined session s (raised e, d) = (raised e, record s { directories = d })

  -- `quarantine`, given the findings of its scan
  unfoldable pub quarantine :
      PurePosixPath
      → List String
      → List String
      → Bool
      → Bool
      → String
      → List EmptyDirectoryFinding
      → QuarantineState D
      → Result EmptyDirQuarantineResult × QuarantineState D
  unfolding preview_items decimal
  quarantine quarantine_path root_slugs paths quarantine_all dry_run reason findings s =
      let selected = select_findings root_slugs paths quarantine_all findings in
      let id = calls.new_id s.directories in
      let session = new_session id (calls.utcnow s.directories) root_slugs paths dry_run reason in
      if is_empty selected
      then (
        ok record {
          summary = "No empty directories matched the requested quarantine selection.";
          dry_run = dry_run;
          session_id = none;
          items = [];
          failed = [];
        },
        s,
      )
      else if dry_run
      then (let items = preview_items quarantine_path id reason 1 selected s.directories in
          (
            ok record {
              summary =
                  "Dry-run prepared "
                  <> decimal (length items)
                  <> " empty directories for quarantine.";
              dry_run = true;
              session_id = some id;
              items = items;
              failed = [];
            },
            s,
          ))
      else quarantined session s (
          rounds (quarantine_item calls quarantine_path id reason) selected
            (ok (begun []), s.directories))
