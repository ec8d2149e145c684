-- ===== src/EmptyFolders/Moves.antt =====
-- What becomes of one folder of a quarantine, and the loop over them
-- (immich_doctor/storage/empty_folders/quarantine_manager.py). The file system and the clock are
-- the standard library's.
use immich_doctor.Base.{
  ℕ, String, Bool, true, false, Option, none, some, List, [], ◌∷◌, ◌++◌, ◌<>◌, ◌==◌, string_eq,
  if◌then◌else◌,
}
use immich_doctor.Effects.Result.{
  PyError, Result, ok, raised, file_not_found, permission_error, os_error, key_error, value_error,
  type_error,
}
use immich_doctor.Storage.PosixPath.{PurePosixPath, as_posix, parse_path, join_path}
use immich_doctor.EmptyFolders.Scan.{EmptyDirectoryFinding}
use immich_doctor.EmptyFolders.Items.{
  EmptyDirQuarantineItem, mark_restored, mark_deleted, FailedPath,
}
use immich_doctor.EmptyFolders.QuarantineIndex.{put_item}

abbrev pub is_os_error : PyError → Bool
is_os_error file_not_found = true
is_os_error permission_error = true
is_os_error (os_error errno) = true
is_os_error (key_error k) = false
is_os_error value_error = false
is_os_error type_error = false

abbrev without_last : List String → List String
without_last [] = []
without_last (n ∷ []) = []
without_last (n ∷ m ∷ l) = n ∷ without_last (m ∷ l)

-- `path.parent`
abbrev pub parent : PurePosixPath → PurePosixPath
parent p = record p { names = without_last p.names }

-- What the standard library does to the directories `D`: `path.exists()`, `mkdir` with its parents,
-- `shutil.move`, `os.utime` with the timestamp of an ISO text, `chmod`, `shutil.rmtree`,
-- `stat().st_mode`, the time, `uuid4().hex`, and the text of an exception.
pub record Calls (D : Type 0) : Type 0 where
  pub exists_at : PurePosixPath → D → Result Bool
  pub make_parents : PurePosixPath → D → Result (Unit {0}) × D
  pub move : PurePosixPath → PurePosixPath → D → Result (Unit {0}) × D
  pub set_times : PurePosixPath → String → D → Result (Unit {0}) × D
  pub set_mode : PurePosixPath → ℕ → D → Result (Unit {0}) × D
  pub remove_tree : PurePosixPath → D → Result (Unit {0}) × D
  pub mode_of : PurePosixPath → D → Option ℕ
  pub utcnow : D → String
  pub new_id : D → String
  pub text_of : PyError → String

-- What becomes of one item: `interrupted` is an exception that the loop does not catch.
pub data ItemOutcome : Type 0 where
  settled : EmptyDirQuarantineItem → ItemOutcome
  refused : FailedPath → ItemOutcome
  interrupted : PyError → ItemOutcome

abbrev pub failed_at : String → String → FailedPath
failed_at path reason = record { path = path; reason = reason }

-- `quarantine_path / "empty-folders"`, given `quarantine_path`
abbrev pub quarantine_destination : PurePosixPath → String → EmptyDirectoryFinding → PurePosixPath
quarantine_destination quarantine_path session_id f =
    let root =
      join_path (join_path (join_path quarantine_path "empty-folders") "sessions") session_id in
    join_path (join_path root f.root_slug)
      (if f.relative_path == "" then "_root" else f.relative_path)

module _ {D : Type 0} (calls : Calls D) where
  infixl 5 ◌and_then◌
  -- The next call, unless the one before raises.
  abbrev ◌and_then◌ : Result (Unit {0}) × D → (D → Result (Unit {0}) × D) → Result (Unit {0}) × D
  (ok u, d) and_then f = f d
  (raised e, d) and_then f = (raised e, d)

  abbrev stamp : PurePosixPath → Option String → D → Result (Unit {0}) × D
  stamp p none d = (ok tt, d)
  stamp p (some iso) d = calls.set_times p iso d

  abbrev chmod_back : PurePosixPath → Option ℕ → D → Result (Unit {0}) × D
  chmod_back p none d = (ok tt, d)
  chmod_back p (some mode) d = calls.set_mode p mode d

  -- `except OSError`: the item that is made, or the entry of `failed`
  abbrev pub settled_unless :
      String → (D → EmptyDirQuarantineItem) → Result (Unit {0}) × D → ItemOutcome × D
  settled_unless path made (ok u, d) = (settled (made d), d)
  settled_unless path made (raised e, d) =
      (if is_os_error e then refused (failed_at path (calls.text_of e)) else interrupted e, d)

  abbrev pub restore_to : EmptyDirQuarantineItem → Result Bool → Result Bool → D → ItemOutcome × D
  restore_to i (raised e) there d = (interrupted e, d)
  restore_to i (ok false) there d = (
    refused (failed_at i.original_path "Original parent directory is missing or inaccessible."),
    d,
  )
  restore_to i (ok true) (raised e) d = (interrupted e, d)
  restore_to i (ok true) (ok true) d =
      (refused (failed_at i.original_path "Original path already exists."), d)
  restore_to i (ok true) (ok false) d =
      let destination = parse_path i.original_path in
      settled_unless i.original_path (λ d. mark_restored (calls.utcnow d) i)
        (calls.move (parse_path i.quarantine_path) destination d
          and_then stamp destination i.last_modified_at
          and_then chmod_back destination i.mode)

  -- One round of the loop of `restore`
  unfoldable pub restore_item : EmptyDirQuarantineItem → D → ItemOutcome × D
  unfolding parse_path
  restore_item i d =
      let destination = parse_path i.original_path in
      restore_to i (calls.exists_at (parent destination) d) (calls.exists_at destination d) d

  -- One round of the loop of `finalize_delete`
  unfoldable pub delete_item : EmptyDirQuarantineItem → D → ItemOutcome × D
  unfolding parse_path
  delete_item i d =
      settled_unless i.quarantine_path (λ d. mark_deleted (calls.utcnow d) i)
        (calls.remove_tree (parse_path i.quarantine_path) d)

  -- `_safe_mode` is read before the move.
  unfoldable pub quarantine_item :
      PurePosixPath → String → String → EmptyDirectoryFinding → D → ItemOutcome × D
  unfolding as_posix
  quarantine_item quarantine_path session_id reason f d =
      let destination = quarantine_destination quarantine_path session_id f in
      let mode = calls.mode_of f.absolute_path d in
      settled_unless (as_posix f.absolute_path)
        (λ d. record {
          quarantine_item_id = session_id <> ":" <> f.root_slug <> ":" <> f.relative_path;
          session_id = session_id;
          root_slug = f.root_slug;
          relative_path = f.relative_path;
          original_path = as_posix f.absolute_path;
          quarantine_path = as_posix destination;
          reason = reason;
          size_bytes = f.size_bytes;
          last_modified_at = f.last_modified_at;
          mode = mode;
          state = "active";
          created_at = calls.utcnow d;
          state_changed_at = none;
          deleted_at = none;
        })
        (calls.make_parents (parent destination) d and_then calls.move f.absolute_path destination)

-- The state of a loop: the index that is written after it, the items that are settled, and the
-- failures.
pub record Progress : Type 0 where
  pub updated : List EmptyDirQuarantineItem
  pub settled_items : List EmptyDirQuarantineItem
  pub failures : List FailedPath

abbrev pub settle : EmptyDirQuarantineItem → Progress → Progress
settle i p = record {
  updated = put_item i p.updated;
  settled_items = p.settled_items ++ i ∷ [];
  failures = p.failures;
}

abbrev pub fail_path : FailedPath → Progress → Progress
fail_path f p = record p { failures = p.failures ++ f ∷ [] }

abbrev pub advance {ℓ} : {D : Type ℓ} → Progress → ItemOutcome × D → Result Progress × D
advance p (settled i, d) = (ok (settle i p), d)
advance p (refused f, d) = (ok (fail_path f p), d)
advance p (interrupted e, d) = (raised e, d)

module _ {D X : Type 0} (step : X → D → ItemOutcome × D) where
  -- What is not caught ends the loop.
  abbrev pub round : X → Result Progress × D → Result Progress × D
  round x (ok p, d) = advance p (step x d)
  round x (raised e, d) = (raised e, d)

  abbrev pub rounds : List X → Result Progress × D → Result Progress × D
  rounds [] r = r
  rounds (x ∷ l) r = rounds l (round x r)

abbrev pub begun : List EmptyDirQuarantineItem → Progress
begun index = record { updated = index; settled_items = []; failures = [] }
