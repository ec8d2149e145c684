-- ===== src/EmptyFolders/Scan.antt =====
-- The scan of one root (immich_doctor/storage/empty_folders/scanner.py, and the finding of
-- models.py). The progress callback is left out.
pub mod Empty
pub mod Found
use immich_doctor.Base.{
  ℕ, suc, ◌+◌, String, Bool, true, false, not, ◌&&◌, Option, none, some, List, [], ◌∷◌, ◌++◌, map,
  is_empty, length, all, ◌==◌, nat_eq, if◌then◌else◌,
}
use Prim.Native.String.{compare}
use text.Mathlib.Text.{is_le}
use mathlib.Core.Option
use immich_doctor.Storage.Text.{join_slash}
use immich_doctor.Storage.PosixPath.{PurePosixPath}
use immich_doctor.Storage.Printed.{under}

mutual
  -- A directory as `os.scandir` lists it: the error that ended the listing, and what came before.
  pub data Directory : Type 0 where
    listing : Option String → Entries → Directory

  -- `other` is neither a file nor a directory, `failing` an entry that raises an `OSError`.
  pub data Entries : Type 0 where
    nil : Entries
    symlink file other : String → Entries → Entries
    failing : String → String → Entries → Entries
    subdirectory : String → Directory → Entries → Entries

-- `EmptyDirectoryFinding`
pub record EmptyDirectoryFinding : Type 0 where
  pub root_slug : String
  pub relative_path : String
  pub absolute_path : PurePosixPath
  pub depth : ℕ
  pub size_bytes : Option ℕ
  pub last_modified_at : Option String
  pub child_count_before : ℕ
  pub is_orphan_parent : Bool

-- An entry of `symlink_directories` (without a message) or of `entry_errors`.
pub record EntryNote : Type 0 where
  pub root_slug : String
  pub relative_path : String
  pub absolute_path : PurePosixPath
  pub message : Option String

-- What a scan adds to `_RootScanState`, and what it returns.
pub record RootScan : Type 0 where
  pub directory_count : ℕ
  pub findings : List EmptyDirectoryFinding
  pub orphan_parents : List EmptyDirectoryFinding
  pub symlink_directories : List EntryNote
  pub entry_errors : List EntryNote
  pub error_message : Option String
  pub is_empty : Bool

abbrev pub nothing_scanned : RootScan
nothing_scanned = record {
  directory_count = 0;
  findings = [];
  orphan_parents = [];
  symlink_directories = [];
  entry_errors = [];
  error_message = none;
  is_empty = true;
}

-- `if state.error_message is None: ...`
abbrev pub first_message : Option String → Option String → Option String
first_message none m = m
first_message (some m) _ = some m

-- The state after two scans in turn; empty if both are.
abbrev pub then_scan : RootScan → RootScan → RootScan
then_scan a b = record {
  directory_count = a.directory_count + b.directory_count;
  findings = a.findings ++ b.findings;
  orphan_parents = a.orphan_parents ++ b.orphan_parents;
  symlink_directories = a.symlink_directories ++ b.symlink_directories;
  entry_errors = a.entry_errors ++ b.entry_errors;
  error_message = first_message a.error_message b.error_message;
  is_empty = a.is_empty && b.is_empty;
}

-- The scans of the child directories, in the order of `sorted(child_directories)`.
abbrev pub insert_child : String × RootScan → List (String × RootScan) → List (String × RootScan)
insert_child c [] = c ∷ []
insert_child c (d ∷ l) =
    let rest = insert_child c l in if is_le (compare c.0 d.0) then c ∷ d ∷ l else d ∷ rest

abbrev pub sort_children : List (String × RootScan) → List (String × RootScan)
sort_children [] = []
sort_children (c ∷ l) = insert_child c (sort_children l)

abbrev pub scan_all : List (String × RootScan) → RootScan
scan_all [] = nothing_scanned
scan_all ((_, s) ∷ l) = then_scan s (scan_all l)

abbrev pub is_zero : ℕ → Bool
is_zero n = n == 0

-- Files or blocking entries.
abbrev pub has_blocking : Entries → Bool
has_blocking nil = false
has_blocking (symlink _ _) = true
has_blocking (file _ _) = true
has_blocking (other _ _) = true
has_blocking (failing _ _ _) = true
has_blocking (subdirectory _ _ es) = has_blocking es

-- `root_slug` and `root_path` of the state; `stat` is `_safe_stat` with the size and the ISO time.
module _ (root_slug : String) (root_path : PurePosixPath)
    (stat : PurePosixPath → Option (ℕ × String)) where
  abbrev pub note_of : List String → Option String → EntryNote
  note_of names message = record {
    root_slug = root_slug;
    relative_path = join_slash names;
    absolute_path = under root_path names;
    message = message;
  }

  -- The loop over the entries: what it adds to `symlink_directories` and to `entry_errors`.
  abbrev pub symlinks_of : List String → Entries → List EntryNote
  symlinks_of names nil = []
  symlinks_of names (symlink n es) = note_of (names ++ (n ∷ [])) none ∷ symlinks_of names es
  symlinks_of names (file n es) = symlinks_of names es
  symlinks_of names (other n es) = symlinks_of names es
  symlinks_of names (failing n m es) = symlinks_of names es
  symlinks_of names (subdirectory n d es) = symlinks_of names es

  abbrev pub errors_of : List String → Entries → List EntryNote
  errors_of names nil = []
  errors_of names (symlink n es) = errors_of names es
  errors_of names (file n es) = errors_of names es
  errors_of names (other n es) = errors_of names es
  errors_of names (failing n m es) = note_of (names ++ (n ∷ [])) (some m) ∷ errors_of names es
  errors_of names (subdirectory n d es) = errors_of names es

  -- `_build_finding`
  unfoldable pub build_finding : List String → ℕ → EmptyDirectoryFinding
  unfolding join_slash
  build_finding names child_count =
      let path = under root_path names in
      record {
        root_slug = root_slug;
        relative_path = join_slash names;
        absolute_path = path;
        depth = length names;
        size_bytes = Option.map (λ s. s.0) (stat path);
        last_modified_at = Option.map (λ s. s.1) (stat path);
        child_count_before = child_count;
        is_orphan_parent = if is_zero child_count then false else true;
      }

  -- The listing failed: the directory is not empty, and its children are not scanned.
  abbrev pub scan_unreadable : List String → Entries → String → RootScan
  scan_unreadable names entries message = record {
    directory_count = 1;
    findings = [];
    orphan_parents = [];
    symlink_directories = symlinks_of names entries;
    entry_errors = errors_of names entries ++ (note_of names (some message) ∷ []);
    error_message = some message;
    is_empty = false;
  }

  -- The finding of a directory that is empty and not the root.
  abbrev pub own_finding : List String → Bool → ℕ → List EmptyDirectoryFinding
  own_finding [] empty count = []
  own_finding (n ∷ names) empty count = if empty then build_finding (n ∷ names) count ∷ [] else []

  abbrev pub scan_readable : List String → Entries → List (String × RootScan) → RootScan
  scan_readable names entries children =
      let below = scan_all (sort_children children) in
      let empty = not (has_blocking entries) && below.is_empty in
      let own = own_finding names empty (length children) in
      record {
        directory_count = suc below.directory_count;
        findings = below.findings ++ (if is_zero (length children) then own else []);
        orphan_parents = below.orphan_parents ++ (if is_zero (length children) then [] else own);
        symlink_directories = symlinks_of names entries ++ below.symlink_directories;
        entry_errors = errors_of names entries ++ below.entry_errors;
        error_message = below.error_message;
        is_empty = empty;
      }

  abbrev pub scan_listing :
      List String → Option String → Entries → List (String × RootScan) → RootScan
  scan_listing names (some message) entries children = scan_unreadable names entries message
  scan_listing names none entries children = scan_readable names entries children

  unfoldable mutual
    -- `_scan_directory`, for the directory at the names below the root
    pub scan_directory : List String → Directory → RootScan
    scan_directory names (listing error entries) =
        scan_listing names error entries (scan_children names entries)

    pub scan_children : List String → Entries → List (String × RootScan)
    scan_children names nil = []
    scan_children names (symlink n es) = scan_children names es
    scan_children names (file n es) = scan_children names es
    scan_children names (other n es) = scan_children names es
    scan_children names (failing n m es) = scan_children names es
    scan_children names (subdirectory n d es) =
        (n, scan_directory (names ++ (n ∷ [])) d) ∷ scan_children names es
