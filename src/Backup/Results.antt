-- ===== src/Backup/Results.antt =====
-- The manifests, contexts, jobs and results of a backup (immich_doctor/backup/core/models.py).
use immich_doctor.Base.{ℕ, String, Bool, Option, none, some, List, [], ◌∷◌, map, string_eq, Dict}
use immich_doctor.Core.Value.{
  Value, Fields, end, field, null, bool, int, str, object, array, items, texts, optional_text,
}
use immich_doctor.Effects.World.{Platform}
use immich_doctor.Storage.PosixPath.{PurePosixPath, as_posix}
use immich_doctor.Backup.Models.{
  BackupTarget, BackupArtifact, BackupSnapshot, target_to_dict, artifact_to_dict, snapshot_to_dict,
}

pub record ResolvedBackupLocation : Type 0 where
  pub target : BackupTarget
  pub root_path : PurePosixPath

pub record BackupManifest : Type 0 where
  pub timestamp : ℕ
  pub included_components : List String
  pub artifacts : List BackupArtifact
  pub versions : Dict String
  pub environment_hints : Dict String
  pub snapshot : Option BackupSnapshot

pub record BackupContext : Type 0 where
  pub job_name : String
  pub requested_components : List String
  pub target : BackupTarget
  pub started_at : ℕ
  pub initiated_by : String
  pub correlation_id : Option String

pub record BackupJob : Type 0 where
  pub name : String
  pub component : String
  pub description : String
  pub target : BackupTarget
  pub order : ℕ
  pub requires_lock : Bool

-- `BackupStatus`
pub data BackupStatus : Type 0 where
  pending success warn fail : BackupStatus

pub record BackupResult : Type 0 where
  pub domain : String
  pub action : String
  pub status : BackupStatus
  pub summary : String
  pub context : BackupContext
  pub artifacts : List BackupArtifact
  pub manifest : Option BackupManifest
  pub snapshot : Option BackupSnapshot
  pub warnings : List String
  pub details : Fields

-- `self.status.upper()`
abbrev pub upper_status : BackupStatus → String
upper_status BackupStatus.pending = "PENDING"
upper_status BackupStatus.success = "SUCCESS"
upper_status BackupStatus.warn = "WARN"
upper_status BackupStatus.fail = "FAIL"

-- `BackupResult.exit_code`
abbrev pub backup_exit_code : BackupResult → ℕ
backup_exit_code r = elim r.status [ BackupStatus.success ↦ 0 | BackupStatus.warn ↦ 0 | _ ↦ 1 ]

abbrev pub text_fields : Dict String → Fields
text_fields [] = end
text_fields ((k, v) ∷ d) = field k (str v) (text_fields d)

abbrev pub artifact_values : List BackupArtifact → Value
artifact_values l = array (items (map (λ a. object (artifact_to_dict a)) l))

-- `ResolvedBackupLocation.to_dict`
abbrev pub location_to_dict : ResolvedBackupLocation → Fields
location_to_dict l =
    field "target" (object (target_to_dict l.target))
      (field "root_path" (str (as_posix l.root_path)) end)

-- `BackupJob.to_dict`
abbrev pub backup_job_to_dict : BackupJob → Fields
backup_job_to_dict j = field "name" (str j.name) (
    field "component" (str j.component) (
      field "description" (str j.description) (
        field "target" (object (target_to_dict j.target))
          (field "order" (int j.order) (field "requires_lock" (bool j.requires_lock) end)))))

module _ (platform : Platform) where
  abbrev pub optional_snapshot : Option BackupSnapshot → Value
  optional_snapshot none = null
  optional_snapshot (some s) = object (snapshot_to_dict platform s)

  -- `BackupManifest.to_dict`
  abbrev pub manifest_to_dict : BackupManifest → Fields
  manifest_to_dict m = field "timestamp" (str (platform.isoformat m.timestamp)) (
      field "included_components" (array (texts m.included_components)) (
        field "artifacts" (artifact_values m.artifacts) (
          field "versions" (object (text_fields m.versions)) (
            field "environment_hints" (object (text_fields m.environment_hints))
              (field "snapshot" (optional_snapshot m.snapshot) end)))))

  abbrev pub optional_manifest : Option BackupManifest → Value
  optional_manifest none = null
  optional_manifest (some m) = object (manifest_to_dict m)

  -- `BackupContext.to_dict`
  abbrev pub context_to_dict : BackupContext → Fields
  context_to_dict c = field "job_name" (str c.job_name) (
      field "requested_components" (array (texts c.requested_components)) (
        field "target" (object (target_to_dict c.target)) (
          field "started_at" (str (platform.isoformat c.started_at)) (
            field "initiated_by" (str c.initiated_by)
              (field "correlation_id" (optional_text c.correlation_id) end)))))

  -- `BackupResult.to_dict`
  abbrev pub backup_result_to_dict : BackupResult → Fields
  backup_result_to_dict r = field "domain" (str r.domain) (
      field "action" (str r.action) (
        field "status" (str (upper_status r.status)) (
          field "summary" (str r.summary) (
            field "context" (object (context_to_dict r.context)) (
              field "artifacts" (artifact_values r.artifacts) (
                field "manifest" (optional_manifest r.manifest) (
                  field "snapshot" (optional_snapshot r.snapshot) (
                    field "warnings" (array (texts r.warnings))
                      (field "details" (object r.details) end)))))))))
