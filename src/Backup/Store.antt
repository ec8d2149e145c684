-- ===== src/Backup/Store.antt =====
-- `BackupSnapshotStore` (immich_doctor/backup/core/store.py, paths.py).
pub mod Persisted
use immich_doctor.Base.{
  String, Bool, Option, none, some, List, [], ◌∷◌, ◌<>◌, map, Dict, lookup, insert, filter_by,
  sorted, ◌==◌, string_eq, if◌then◌else◌,
}
use immich_doctor.Core.Value.{Value, Fields, end, field, str}
use immich_doctor.Effects.Result.{Result, ok, raised, file_not_found, ◌>>=◌, traverse}
use immich_doctor.Effects.World.{Platform}
use immich_doctor.Storage.Text.{text_ends_with}
use immich_doctor.Storage.PosixPath.{PurePosixPath, as_posix, join_path}
use immich_doctor.Backup.Models.{BackupSnapshot, snapshot_to_dict, snapshot_from_dict}

-- The files of the snapshot directory under their names, each with what reading and parsing it
-- gives: the dictionary, or the exception.
abbrev pub SnapshotFiles : Type 0
SnapshotFiles = Dict (Result Fields)

-- `f"{snapshot_id}.json"`
abbrev pub manifest_name : String → String
manifest_name snapshot_id = snapshot_id <> ".json"

-- `{**payload, key: value}`, for a key that the payload has.
abbrev pub with_field : String → Value → Fields → Fields
with_field k v end = end
with_field k v (field j w d) =
    let rest = with_field k v d in if j == k then field j v d else field j w rest

abbrev pub names_of : SnapshotFiles → List String
names_of [] = []
names_of ((name, _) ∷ files) = name ∷ names_of files

abbrev pub content_of : Option (Result Fields) → Result Fields
content_of none = raised file_not_found
content_of (some content) = content

module _ (platform : Platform) (root : PurePosixPath) where
  -- `persist_snapshot`: what it returns, and the files afterwards.
  unfoldable pub persist_snapshot :
      BackupSnapshot → SnapshotFiles → Result BackupSnapshot × SnapshotFiles
  unfolding snapshot_to_dict snapshot_from_dict as_posix join_path
  persist_snapshot snapshot files =
      let path = join_path root (manifest_name snapshot.snapshot_id) in
      let payload = snapshot_to_dict platform snapshot in
      (
        snapshot_from_dict platform (with_field "manifest_path" (str (as_posix path)) payload),
        insert (manifest_name snapshot.snapshot_id) (ok payload) files,
      )

  -- `load_snapshot_from_path`, for a file of the snapshot directory
  unfoldable pub load_snapshot_from_path : String → SnapshotFiles → Result BackupSnapshot
  unfolding snapshot_from_dict
  load_snapshot_from_path name files =
      content_of (lookup name files) >>= snapshot_from_dict platform

  unfoldable pub load_snapshot : String → SnapshotFiles → Result BackupSnapshot
  unfolding load_snapshot_from_path
  load_snapshot snapshot_id files = load_snapshot_from_path (manifest_name snapshot_id) files

  -- `list_snapshot_manifest_paths`: the names of the files.
  unfoldable pub list_snapshot_manifest_paths : SnapshotFiles → List String
  unfolding text_ends_with
  list_snapshot_manifest_paths files =
      sorted (filter_by (λ name. text_ends_with name ".json") (names_of files))

  unfoldable pub list_snapshots : SnapshotFiles → Result (List BackupSnapshot)
  unfolding list_snapshot_manifest_paths load_snapshot_from_path traverse
  list_snapshots files =
      traverse (λ name. load_snapshot_from_path name files) (list_snapshot_manifest_paths files)
