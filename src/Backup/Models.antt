-- ===== src/Backup/Models.antt =====
-- Backup targets, artifacts and snapshots with their dictionaries
-- (immich_doctor/backup/core/models.py).
pub mod RoundTrip
use immich_doctor.Base.{
  ℕ, String, Bool, true, false, not, Option, none, some, List, [], ◌∷◌, map, Eq, eq_of, contains,
  ◌==◌, string_eq, if◌then◌else◌,
}
use immich_doctor.Core.Value.{
  Value, Fields, Items, end, field, null, bool, str, object, array, nil, cons, items, optional_text,
  optional_int, get_field, get_or_null, truthy,
}
use immich_doctor.Effects.Result.{
  Result, ok, raised, value_error, type_error, ◌>>=◌, require, as_text, as_optional_text,
  as_optional_int, as_dict, traverse,
}
use immich_doctor.Effects.World.{Platform}
use immich_doctor.Storage.PosixPath.{PurePosixPath, parse_path, as_posix}

pub data SnapshotKind : Type 0 where
  pre_repair post_repair periodic manual : SnapshotKind

pub data SnapshotCoverage : Type 0 where
  files_only db_only paired : SnapshotCoverage

abbrev pub snapshot_kind_discrete : Discrete SnapshotKind
snapshot_kind_discrete = hlevel

instance abbrev pub snapshot_kind_eq : Eq SnapshotKind
snapshot_kind_eq = eq_of snapshot_kind_discrete

abbrev pub snapshot_coverage_discrete : Discrete SnapshotCoverage
snapshot_coverage_discrete = hlevel

instance abbrev pub snapshot_coverage_eq : Eq SnapshotCoverage
snapshot_coverage_eq = eq_of snapshot_coverage_discrete

unfoldable pub snapshot_kind_value : SnapshotKind → String
snapshot_kind_value pre_repair = "pre_repair"
snapshot_kind_value post_repair = "post_repair"
snapshot_kind_value periodic = "periodic"
snapshot_kind_value manual = "manual"

-- `SnapshotKind(value)`
unfoldable pub snapshot_kind_of : String → Result SnapshotKind
snapshot_kind_of v =
    if v == "pre_repair"
    then ok pre_repair
    else if v == "post_repair"
    then ok post_repair
    else if v == "periodic"
    then ok periodic
    else if v == "manual"
    then ok manual
    else raised value_error

unfoldable pub snapshot_coverage_value : SnapshotCoverage → String
snapshot_coverage_value files_only = "files_only"
snapshot_coverage_value db_only = "db_only"
snapshot_coverage_value paired = "paired"

-- `SnapshotCoverage(value)`
unfoldable pub snapshot_coverage_of : String → Result SnapshotCoverage
snapshot_coverage_of v =
    if v == "files_only"
    then ok files_only
    else if v == "db_only"
    then ok db_only
    else if v == "paired"
    then ok paired
    else raised value_error

pub record BackupTarget : Type 0 where
  pub kind : String
  pub reference : String
  pub display_name : String
  pub writable_required : Bool

pub record BackupArtifact : Type 0 where
  pub name : String
  pub kind : String
  pub target : BackupTarget
  pub relative_path : PurePosixPath
  pub size_bytes : Option ℕ
  pub checksum : Option String

pub record BackupSnapshot : Type 0 where
  pub snapshot_id : String
  pub kind : SnapshotKind
  pub created_at : ℕ
  pub source_fingerprint : String
  pub coverage : SnapshotCoverage
  pub file_artifacts : List BackupArtifact
  pub db_artifact : Option BackupArtifact
  pub manifest_path : PurePosixPath
  pub verified : Bool
  pub repair_run_id : Option String

-- `BackupTarget.to_dict`
unfoldable pub target_to_dict : BackupTarget → Fields
target_to_dict t = field "kind" (str t.kind) (
    field "reference" (str t.reference) (
      field "display_name" (str t.display_name)
        (field "writable_required" (bool t.writable_required) end)))

-- `BackupArtifact.to_dict`
unfoldable pub artifact_to_dict : BackupArtifact → Fields
unfolding target_to_dict as_posix
artifact_to_dict a = field "name" (str a.name) (
    field "kind" (str a.kind) (
      field "target" (object (target_to_dict a.target)) (
        field "relative_path" (str (as_posix a.relative_path)) (
          field "size_bytes" (optional_int a.size_bytes)
            (field "checksum" (optional_text a.checksum) end)))))

abbrev pub optional_artifact : Option BackupArtifact → Value
optional_artifact none = null
optional_artifact (some a) = object (artifact_to_dict a)

-- `BackupSnapshot.to_dict`
unfoldable pub snapshot_to_dict : Platform → BackupSnapshot → Fields
unfolding artifact_to_dict as_posix snapshot_kind_value snapshot_coverage_value
snapshot_to_dict platform s = field "snapshot_id" (str s.snapshot_id) (
    field "kind" (str (snapshot_kind_value s.kind)) (
      field "created_at" (str (platform.isoformat s.created_at)) (
        field "source_fingerprint" (str s.source_fingerprint) (
          field "coverage" (str (snapshot_coverage_value s.coverage)) (
            field "file_artifacts"
              (array (items (map (λ a. object (artifact_to_dict a)) s.file_artifacts)))
              (field "db_artifact" (optional_artifact s.db_artifact) (
                field "manifest_path" (str (as_posix s.manifest_path)) (
                  field "verified" (bool s.verified)
                    (field "repair_run_id" (optional_text s.repair_run_id) end)))))))))

-- A keyword argument that has no default: Python raises a `TypeError` if it is missing.
unfoldable pub argument : String → Fields → Result Value
unfolding get_field
argument k d = elim (get_field k d) [ none ↦ raised type_error | some v ↦ ok v ]

abbrev pub as_flag : Value → Result Bool
as_flag (bool b) = ok b
as_flag _ = raised type_error

-- Only the parameters of `BackupTarget` are accepted as keywords.
abbrev pub are_target_keys : Fields → Bool
are_target_keys end = true
are_target_keys (field k v d) =
    let rest = are_target_keys d in
    if contains ("kind" ∷ "reference" ∷ "display_name" ∷ "writable_required" ∷ []) k
    then rest
    else false

-- `BackupTarget(**payload)`
unfoldable pub target_from_dict : Fields → Result BackupTarget
unfolding argument as_text get_field
target_from_dict payload = if not (are_target_keys payload) then raised type_error else do
  kind ← argument "kind" payload >>= as_text
  reference ← argument "reference" payload >>= as_text
  display_name ← argument "display_name" payload >>= as_text
  writable ← elim (get_field "writable_required" payload) [ none ↦ ok true | some v ↦ as_flag v ]
  ok (record {
    kind = kind;
    reference = reference;
    display_name = display_name;
    writable_required = writable;
  })

-- `BackupArtifact(...)` as `BackupSnapshot.from_dict` builds it.
unfoldable pub artifact_from_dict : Value → Result BackupArtifact
unfolding require as_text as_dict as_optional_int as_optional_text get_or_null target_from_dict
    parse_path
artifact_from_dict value = do
  artifact ← as_dict value
  name ← require "name" artifact >>= as_text
  kind ← require "kind" artifact >>= as_text
  target ← require "target" artifact >>= as_dict >>= target_from_dict
  relative_path ← require "relative_path" artifact >>= as_text
  size_bytes ← as_optional_int (get_or_null "size_bytes" artifact)
  checksum ← as_optional_text (get_or_null "checksum" artifact)
  ok (record {
    name = name;
    kind = kind;
    target = target;
    relative_path = parse_path relative_path;
    size_bytes = size_bytes;
    checksum = checksum;
  })

abbrev pub values_of : Items → List Value
values_of nil = []
values_of (cons v vs) = v ∷ values_of vs

abbrev pub as_list : Value → Result (List Value)
as_list (array vs) = ok (values_of vs)
as_list _ = raised type_error

abbrev pub some_artifact : Result BackupArtifact → Result (Option BackupArtifact)
some_artifact (ok a) = ok (some a)
some_artifact (raised e) = raised e

-- `... if payload.get("db_artifact") is not None else None`
abbrev pub optional_artifact_of : Value → Result (Option BackupArtifact)
optional_artifact_of null = ok none
optional_artifact_of v = some_artifact (artifact_from_dict v)

-- `datetime.fromisoformat(text).astimezone(UTC)`
abbrev pub instant_of : Option ℕ → Result ℕ
instant_of none = raised value_error
instant_of (some t) = ok t

-- `BackupSnapshot.from_dict`
unfoldable pub snapshot_from_dict : Platform → Fields → Result BackupSnapshot
unfolding require as_text as_optional_text get_or_null truthy traverse parse_path snapshot_kind_of
    snapshot_coverage_of
snapshot_from_dict platform payload = do
  snapshot_id ← require "snapshot_id" payload >>= as_text
  kind ← require "kind" payload >>= as_text >>= snapshot_kind_of
  created_at ←
      require "created_at" payload >>= as_text >>= λ text. instant_of (platform.fromisoformat text)
  source_fingerprint ← require "source_fingerprint" payload >>= as_text
  coverage ← require "coverage" payload >>= as_text >>= snapshot_coverage_of
  file_artifacts ← require "file_artifacts" payload >>= as_list >>= traverse artifact_from_dict
  db_artifact ← optional_artifact_of (get_or_null "db_artifact" payload)
  manifest_path ← require "manifest_path" payload >>= as_text
  verified ← require "verified" payload
  repair_run_id ← as_optional_text (get_or_null "repair_run_id" payload)
  ok (record {
    snapshot_id = snapshot_id;
    kind = kind;
    created_at = created_at;
    source_fingerprint = source_fingerprint;
    coverage = coverage;
    file_artifacts = file_artifacts;
    db_artifact = db_artifact;
    manifest_path = parse_path manifest_path;
    verified = truthy verified;
    repair_run_id = repair_run_id;
  })
