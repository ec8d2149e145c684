-- ===== src/Backup/Models/RoundTrip.antt =====
-- A snapshot is read back from its dictionary (immich_doctor/backup/core/models.py).
use immich_doctor.Base.{◌≡◌, refl, Option, none, some, List, [], ◌∷◌, map, All}
use immich_doctor.Core.Value.{object, items}
use immich_doctor.Effects.Result.{ok, traverse}
use immich_doctor.Effects.World.{Platform}
use immich_doctor.Storage.Printed.{IsPath, parse_path-as_posix}
use immich_doctor.Backup.Models.{
  SnapshotKind, SnapshotCoverage, pre_repair, files_only, snapshot_kind_value, snapshot_kind_of,
  snapshot_coverage_value, snapshot_coverage_of, BackupTarget, BackupArtifact, BackupSnapshot,
  target_to_dict, artifact_to_dict, optional_artifact, snapshot_to_dict, target_from_dict,
  artifact_from_dict, values_of, optional_artifact_of, snapshot_from_dict,
}
use immich_doctor.Repair.Models.RoundTrip.{as_optional_text-value, as_optional_int-value}

kind_of-value : (k : SnapshotKind) → snapshot_kind_of (snapshot_kind_value k) ≡ ok k
unfolding snapshot_kind_of snapshot_kind_value
kind_of-value pre_repair = refl
kind_of-value _ = refl

coverage_of-value : (c : SnapshotCoverage) → snapshot_coverage_of (snapshot_coverage_value c) ≡ ok c
unfolding snapshot_coverage_of snapshot_coverage_value
coverage_of-value files_only = refl
coverage_of-value _ = refl

target_round_trip : (t : BackupTarget) → target_from_dict (target_to_dict t) ≡ ok t
unfolding target_from_dict target_to_dict
target_round_trip t = refl

artifact_round_trip :
    (a : BackupArtifact)
    → IsPath a.relative_path
    → artifact_from_dict (object (artifact_to_dict a)) ≡ ok a
unfolding artifact_from_dict artifact_to_dict
artifact_round_trip a h =
    rw
      (
        as_optional_int-value a.size_bytes,
        as_optional_text-value a.checksum,
        parse_path-as_posix a.relative_path h,
      )
      refl

artifacts_round_trip :
    (l : List BackupArtifact)
    → All (λ a. IsPath a.relative_path) l
    → traverse artifact_from_dict (values_of (items (map (λ a. object (artifact_to_dict a)) l)))
      ≡ ok l
unfolding traverse
artifacts_round_trip [] h = refl
artifacts_round_trip (a ∷ l) h = rw (artifact_round_trip a h.0, artifacts_round_trip l h.1) refl

-- The paths of a snapshot are paths as `pathlib` keeps them.
abbrev pub HasPath : Option BackupArtifact → Type 0
HasPath none = Unit {0}
HasPath (some a) = IsPath a.relative_path

abbrev pub HasPaths : BackupSnapshot → Type 0
HasPaths s =
    All (λ a. IsPath a.relative_path) s.file_artifacts
    × HasPath s.db_artifact
    × IsPath s.manifest_path

optional_round_trip :
    (o : Option BackupArtifact) → HasPath o → optional_artifact_of (optional_artifact o) ≡ ok o
optional_round_trip none h = refl
optional_round_trip (some a) h = rw (artifact_round_trip a h) refl

-- A snapshot whose paths are as `pathlib` keeps them is read back from its dictionary, where the
-- platform reads the time that it has written.
pub snapshot_round_trip :
    (platform : Platform) (s : BackupSnapshot)
    → platform.fromisoformat (platform.isoformat s.created_at) ≡ some s.created_at
    → HasPaths s
    → snapshot_from_dict platform (snapshot_to_dict platform s) ≡ ok s
unfolding snapshot_from_dict snapshot_to_dict
snapshot_round_trip platform s time h =
    rw
      (
        kind_of-value s.kind,
        time,
        coverage_of-value s.coverage,
        artifacts_round_trip s.file_artifacts h.0,
        optional_round_trip s.db_artifact h.1,
        parse_path-as_posix s.manifest_path h.2,
        as_optional_text-value s.repair_run_id,
      )
      refl
