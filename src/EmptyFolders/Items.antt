-- ===== src/EmptyFolders/Items.antt =====
-- The records of a quarantine of empty folders (immich_doctor/storage/empty_folders/models.py).
use immich_doctor.Base.{ℕ, String, Bool, Option, some, List}

-- `EmptyDirQuarantineItem`
pub record EmptyDirQuarantineItem : Type 0 where
  pub quarantine_item_id : String
  pub session_id : String
  pub root_slug : String
  pub relative_path : String
  pub original_path : String
  pub quarantine_path : String
  pub reason : String
  pub size_bytes : Option ℕ
  pub last_modified_at : Option String
  pub mode : Option ℕ
  pub state : String
  pub created_at : String
  pub state_changed_at : Option String
  pub deleted_at : Option String

-- The time is the `utcnow()` of the call.
abbrev pub mark_restored : String → EmptyDirQuarantineItem → EmptyDirQuarantineItem
mark_restored now item = record item { state = "restored"; state_changed_at = some now }

abbrev pub mark_deleted : String → EmptyDirQuarantineItem → EmptyDirQuarantineItem
mark_deleted now item = record item {
  state = "deleted";
  state_changed_at = some now;
  deleted_at = some now;
}

pub record EmptyDirQuarantineSession : Type 0 where
  pub session_id : String
  pub created_at : String
  pub root_slugs : List String
  pub requested_paths : List String
  pub dry_run : Bool
  pub reason : String

-- `EmptyDirQuarantineSession.new`, with the identifier and the time of the call
abbrev pub new_session :
    String → String → List String → List String → Bool → String → EmptyDirQuarantineSession
new_session id now root_slugs requested_paths dry_run reason = record {
  session_id = id;
  created_at = now;
  root_slugs = root_slugs;
  requested_paths = requested_paths;
  dry_run = dry_run;
  reason = reason;
}

-- An entry of `failed`.
pub record FailedPath : Type 0 where
  pub path : String
  pub reason : String

pub record EmptyDirQuarantineResult : Type 0 where
  pub summary : String
  pub dry_run : Bool
  pub session_id : Option String
  pub items : List EmptyDirQuarantineItem
  pub failed : List FailedPath

pub record EmptyDirRestoreResult : Type 0 where
  pub summary : String
  pub dry_run : Bool
  pub restored : List EmptyDirQuarantineItem
  pub failed : List FailedPath

pub record EmptyDirDeleteResult : Type 0 where
  pub summary : String
  pub dry_run : Bool
  pub deleted : List EmptyDirQuarantineItem
  pub failed : List FailedPath
