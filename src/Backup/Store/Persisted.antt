-- ===== src/Backup/Store/Persisted.antt =====
-- What has been persisted is loaded (immich_doctor/backup/core/store.py).
use immich_doctor.Base.{
  String, Bool, true, false, ◌≡◌, refl, ap, ◌∙◌, some, Option, lookup, lookup-insert, ◌==◌,
  string_eq, if◌then◌else◌, eq_iff,
}
use immich_doctor.Core.Value.{Fields, str}
use immich_doctor.Effects.Result.{Result, ok, ◌>>=◌}
use immich_doctor.Effects.World.{Platform}
use immich_doctor.Storage.PosixPath.{PurePosixPath, as_posix, join_path}
use immich_doctor.Storage.Printed.{IsPath}
use immich_doctor.Backup.Models.{BackupSnapshot, snapshot_to_dict, snapshot_from_dict}
use immich_doctor.Backup.Models.RoundTrip.{HasPaths, snapshot_round_trip}
use immich_doctor.Backup.Store.{
  SnapshotFiles, manifest_name, with_field, persist_snapshot, content_of, load_snapshot_from_path,
  load_snapshot,
}

same_text : (k : String) → (k == k) ≡ true
same_text k = (eq_iff k k).1 refl

module _ (platform : Platform) (root : PurePosixPath) (s : BackupSnapshot)
    (files : SnapshotFiles) where
  -- The snapshot as `persist_snapshot` returns it, with the path of its file.
  abbrev pub placed : BackupSnapshot
  placed = record s { manifest_path = join_path root (manifest_name s.snapshot_id) }

  abbrev pub persisted : SnapshotFiles
  persisted = (persist_snapshot platform root s files).1

  placed-dict :
      with_field "manifest_path" (str (as_posix placed.manifest_path)) (snapshot_to_dict platform s)
      ≡ snapshot_to_dict platform placed
  unfolding snapshot_to_dict
  placed-dict = refl

  persist-returned :
      platform.fromisoformat (platform.isoformat s.created_at) ≡ some s.created_at
      → HasPaths s
      → IsPath placed.manifest_path
      → (persist_snapshot platform root s files).0 ≡ ok placed
  unfolding persist_snapshot
  persist-returned time paths path =
      ap (snapshot_from_dict platform) placed-dict
      ∙ snapshot_round_trip platform placed time (paths.0, paths.1, path)

  loaded :
      (b : Bool) (other : Option (Result Fields))
      → snapshot_from_dict platform (snapshot_to_dict platform s) ≡ ok s
      → (content_of (if b then some (ok (snapshot_to_dict platform s)) else other)
          >>= snapshot_from_dict platform)
        ≡ (if b then ok s else (content_of other >>= snapshot_from_dict platform))
  loaded true other e = e
  loaded false other e = refl

  load-inserted :
      (name : String)
      → snapshot_from_dict platform (snapshot_to_dict platform s) ≡ ok s
      → load_snapshot_from_path platform root name persisted ≡ (
          if manifest_name s.snapshot_id == name
          then ok s
          else load_snapshot_from_path platform root name files)
  unfolding persist_snapshot load_snapshot_from_path
  load-inserted name e =
      ap (λ o. content_of o >>= snapshot_from_dict platform)
        (lookup-insert (manifest_name s.snapshot_id) name (ok (snapshot_to_dict platform s)) files)
      ∙ loaded (manifest_name s.snapshot_id == name) (lookup name files) e

  load-own :
      snapshot_from_dict platform (snapshot_to_dict platform s) ≡ ok s
      → load_snapshot platform root s.snapshot_id persisted ≡ ok s
  unfolding load_snapshot
  load-own e =
      load-inserted (manifest_name s.snapshot_id) e
      ∙ ap
          (λ b.
            if b
            then ok s
            else load_snapshot_from_path platform root (manifest_name s.snapshot_id) files)
          (same_text (manifest_name s.snapshot_id))

  -- Persisting a snapshot returns it with the path of its file. Its file then gives the snapshot as
  -- it was handed in, and every other file what it gave before.
  pub load-persist :
      (name : String)
      → platform.fromisoformat (platform.isoformat s.created_at) ≡ some s.created_at
      → HasPaths s
      → IsPath (join_path root (manifest_name s.snapshot_id))
      → ((persist_snapshot platform root s files).0 ≡ ok placed)
        × (load_snapshot platform root s.snapshot_id persisted ≡ ok s)
        × (load_snapshot_from_path platform root name persisted ≡ (
            if manifest_name s.snapshot_id == name
            then ok s
            else load_snapshot_from_path platform root name files))
  load-persist name time paths path =
      let read = snapshot_round_trip platform s time paths in
      (persist-returned time paths path, load-own read, load-inserted name read)
