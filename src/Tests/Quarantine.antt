-- ===== src/Tests/Quarantine.antt =====
-- A quarantine of empty folders whose directories are a list of paths.
use immich_doctor.Base.{
  ◌≡◌, refl, String, true, false, not, none, some, List, [], ◌∷◌, map, contains, filter_by, ◌==◌,
  string_eq, if◌then◌else◌,
}
use immich_doctor.Effects.Result.{Result, ok, raised, file_not_found}
use immich_doctor.Storage.PosixPath.{as_posix}
use immich_doctor.EmptyFolders.Scan.{EmptyDirectoryFinding}
use immich_doctor.EmptyFolders.QuarantineIndex.{
  select_findings, select_quarantine_items, merge_index_items, list_quarantined,
}
use immich_doctor.EmptyFolders.Moves.{Calls, restore_item, delete_item, quarantine_item}
use immich_doctor.EmptyFolders.Quarantine.{QuarantineState, restore, finalize_delete, quarantine}
use immich_doctor.EmptyFolders.Quarantine.Settled.{IsDone, settled-IsNotOffered_again}
use immich_doctor.Tests.Storage.{storage_code, absolute_of}

quarantine_code : Unit {0}
unfolding storage_code select_findings select_quarantine_items merge_index_items list_quarantined
    restore_item delete_item quarantine_item restore finalize_delete quarantine
quarantine_code = tt

abbrev taken : String → List String → Result (Unit {0}) × List String
taken p d =
    if contains d p then (ok tt, filter_by (λ q. not (q == p)) d) else (raised file_not_found, d)

abbrev added : String → Result (Unit {0}) × List String → Result (Unit {0}) × List String
added p (ok u, d) = (ok u, p ∷ d)
added p (raised e, d) = (raised e, d)

abbrev list_calls : Calls (List String)
list_calls = record {
  exists_at = λ p d. ok (contains d (as_posix p));
  make_parents = λ p d. (ok tt, d);
  move = λ p q d. added (as_posix q) (taken (as_posix p) d);
  set_times = λ p iso d. (ok tt, d);
  set_mode = λ p mode d. (ok tt, d);
  remove_tree = λ p d. taken (as_posix p) d;
  mode_of = λ p d. some 0o755;
  utcnow = λ d. "2024-05-01T00:00:00+00:00";
  new_id = λ d. "s1";
  text_of = λ e. "gone";
}

abbrev finding_at : String → EmptyDirectoryFinding
finding_at name = record {
  root_slug = "uploads";
  relative_path = name;
  absolute_path = absolute_of ("data" ∷ name ∷ []);
  depth = 1;
  size_bytes = none;
  last_modified_at = none;
  child_count_before = 0;
  is_orphan_parent = false;
}

abbrev no_quarantine : QuarantineState (List String)
no_quarantine = record {
  directories = "/data" ∷ "/data/a" ∷ "/data/b" ∷ [];
  index = [];
  sessions = [];
}

abbrev two_quarantined : QuarantineState (List String)
unfolding quarantine_code
two_quarantined =
    (quarantine list_calls (absolute_of ("q" ∷ [])) [] [] true false "cleanup"
      (finding_at "a" ∷ finding_at "b" ∷ []) no_quarantine).1

moves_both :
    two_quarantined.directories
    ≡ "/q/empty-folders/sessions/s1/uploads/b" ∷ "/q/empty-folders/sessions/s1/uploads/a" ∷ "/data"
      ∷ []
unfolding quarantine_code two_quarantined
moves_both = refl

restores_one :
    map (λ i. i.state) (restore list_calls "s1" ("a" ∷ []) false false two_quarantined).1.index
    ≡ "restored" ∷ "active" ∷ []
unfolding quarantine_code two_quarantined
restores_one = refl

settled-IsNotOffered_again_example :
    IsDone
      (λ r. r.restored)
      two_quarantined
      (restore list_calls "s1" ("a" ∷ []) false false two_quarantined)
    × IsDone
        (λ r. r.deleted)
        two_quarantined
        (finalize_delete list_calls "s1" ("a" ∷ []) false false two_quarantined)
settled-IsNotOffered_again_example =
    settled-IsNotOffered_again list_calls "s1" ("a" ∷ []) false two_quarantined
