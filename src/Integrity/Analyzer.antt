-- ===== src/Integrity/Analyzer.antt =====
-- `RuntimeFileIntegrityAnalyzer` (immich_doctor/runtime/integrity/service.py).
pub mod Verdict
pub mod InOrder
pub mod Coverage
use immich_doctor.Base.{
  ℕ, String, ◌<>◌, Bool, true, false, not, ◌&&◌, ◌||◌, Option, none, some, List, [], ◌∷◌, ◌++◌, map,
  any, all, contains, is_empty, Dict, lookup, nat_eq, string_eq, ◌==◌, if◌then◌else◌,
}
use immich_doctor.Core.Value.{Value, int, optional_text, Fields, end, field}
use immich_doctor.Effects.Result.{
  PyError, Result, ok, raised, file_not_found, permission_error, os_error,
}
use immich_doctor.Effects.World.{World}
use immich_doctor.Filesystem.{stat_node}
use immich_doctor.Integrity.Models.{
  FileIntegrityStatus, file_ok, file_missing, file_empty, file_permission_denied, file_truncated,
  file_container_broken, file_corrupted, file_type_mismatch, file_unknown_problem, FileRole, source,
  preview, thumbnail, derivative, file_role_eq, file_role_value, MediaKind, image, video, audio,
  unknown, FileIntegrityFinding,
}
use immich_doctor.Integrity.Probes.{
  ProbeResult, Inspection, image_extensions, video_extensions, audio_extensions, or_list,
  expected_formats, is_disjoint, map_probe_status, errno, AssetRow, AssetFileRow,
}

-- What the arguments of `_inspect_file` fix before the file is looked at.
pub record Subject : Type 0 where
  pub asset_id : String
  pub path : String
  pub media_kind : MediaKind
  pub file_role : FileRole
  pub asset_file_id : Option String

module _ (i : Inspection) where
  unfoldable pub is_type_mismatch : String → String → MediaKind → Bool
  unfolding expected_formats
  is_type_mismatch extension detected_format media_kind =
      elim (expected_formats media_kind extension) [
        | none ↦ false
        | some expected ↦ is_disjoint (i.formats detected_format) expected
      ]

  unfoldable pub probe_media : World → String → MediaKind → ProbeResult
  probe_media w path image = i.probe_image w path
  probe_media w path video = i.probe_av w path
  probe_media w path audio = i.probe_av w path
  probe_media w path unknown = i.probe_unknown w path

  -- `file_path.suffix.lower() or None`
  unfoldable pub extension_of : String → Option String
  extension_of path = let e = i.suffix_lower path in if e == "" then none else some e

  abbrev finding :
      Subject
      → FileIntegrityStatus
      → Option ℕ
      → Option String
      → String
      → Fields
      → FileIntegrityFinding
  finding s status size detected message details = record {
    finding_id =
        "file_integrity:"
        <> s.asset_id
        <> ":"
        <> file_role_value s.file_role
        <> ":"
        <> elim s.asset_file_id [
          | none ↦ i.file_name s.path
          | some f ↦ if f == "" then i.file_name s.path else f
        ];
    asset_id = s.asset_id;
    file_role = s.file_role;
    media_kind = s.media_kind;
    path = s.path;
    status = status;
    asset_file_id = s.asset_file_id;
    message = message;
    size_bytes = size;
    detected_format = detected;
    extension = extension_of s.path;
    details = details;
  }

  -- The handlers of the `stat`.
  unfoldable pub stat_failed : Subject → PyError → FileIntegrityFinding
  stat_failed s file_not_found =
      finding s file_missing none none "File path does not exist in the current runtime filesystem."
        end
  stat_failed s permission_error =
      finding s file_permission_denied none none
        "File path exists but cannot be accessed due to permissions." end
  stat_failed s e =
      finding s file_unknown_problem none none
        ("File path could not be inspected: " <> i.os_message e <> ".")
        (field "errno" (int (errno e)) end)

  -- The handlers of the read probe.
  unfoldable pub read_failed : Subject → ℕ → PyError → FileIntegrityFinding
  read_failed s size permission_error =
      finding s file_permission_denied (some size) none
        "File exists but is not readable by the current process." end
  read_failed s size e =
      finding s
        (if errno e == 13 || errno e == 1 then file_permission_denied else file_unknown_problem)
        (some size) none ("File read probe failed: " <> i.os_message e <> ".")
        (field "errno" (int (errno e)) end)

  abbrev text_or : Option String → String → String
  text_or none d = d
  text_or (some s) d = if s == "" then d else s

  abbrev pub mismatches : Subject → ProbeResult → Bool
  mismatches s probe = elim (extension_of s.path) [
    | none ↦ false
    | some e ↦ elim probe.detected_format [
      | none ↦ false
      | some d ↦ not (d == "") && is_type_mismatch e d s.media_kind
    ]
  ]

  -- From the media probe on.
  unfoldable pub probed : Subject → ℕ → ProbeResult → FileIntegrityFinding
  probed s size probe =
      if not probe.ok
      then finding s (map_probe_status probe.error_category) (some size) probe.detected_format
          (text_or probe.error_message "Media probe failed.")
          (field "probe_error_category" (optional_text probe.error_category) end)
      else if mismatches s probe
      then finding s file_type_mismatch (some size) probe.detected_format
          "Detected media format does not match the file extension." end
      else finding s file_ok (some size) probe.detected_format
          "File passed the current physical integrity checks." end

  unfoldable pub read_checked : World → Subject → ℕ → Result (Unit {0}) → FileIntegrityFinding
  read_checked w s size (ok _) = probed s size (probe_media w s.path s.media_kind)
  read_checked w s size (raised e) = read_failed s size e

  unfoldable pub stat_checked : World → Subject → Result ℕ → FileIntegrityFinding
  stat_checked w s (ok _) =
      let size = i.st_size w s.path in
      if size == 0
      then finding s file_empty (some size) none "File exists but is zero bytes." end
      else read_checked w s size (i.read_probe w s.path)
  stat_checked w s (raised e) = stat_failed s e

  -- The inspection reads the world and never writes.
  unfoldable pub inspect_file : World → Subject → FileIntegrityFinding
  inspect_file w s = stat_checked w s (stat_node (w.files s.path))

  unfoldable pub file_role_of : String → FileRole
  file_role_of asset_file_type =
      let normalized = i.lower asset_file_type in
      if normalized == "preview"
      then preview
      else if normalized == "thumbnail"
      then thumbnail
      else derivative

  unfoldable pub media_kind_of : String → FileRole → MediaKind
  media_kind_of asset_type file_role =
      let normalized = i.lower asset_type in
      if file_role == preview || file_role == thumbnail
      then image
      else if normalized == "image"
      then image
      else if normalized == "video"
      then video
      else if normalized == "audio"
      then audio
      else unknown

  unfoldable pub source_subject : AssetRow → Subject
  source_subject row = record {
    asset_id = row.id;
    path = row.original_path;
    media_kind = media_kind_of row.type source;
    file_role = source;
    asset_file_id = none;
  }

  unfoldable pub file_subject : AssetRow → AssetFileRow → Subject
  file_subject row file = record {
    asset_id = row.id;
    path = file.path;
    media_kind = media_kind_of row.type (file_role_of file.type);
    file_role = file_role_of file.type;
    asset_file_id = some file.id;
  }

  -- `asset_file_rows.get(asset_id, [])`, with the rows grouped by their asset
  unfoldable pub files_of : String → List AssetFileRow → List AssetFileRow
  files_of k [] = []
  files_of k (f ∷ l) = let rest = files_of k l in if f.asset_id == k then f ∷ rest else rest

  unfoldable pub inspect_records :
      World → List AssetRow → List AssetFileRow → Bool → List FileIntegrityFinding
  inspect_records w [] files include_derivatives = []
  inspect_records w (row ∷ rows) files include_derivatives =
      let rest = inspect_records w rows files include_derivatives in
      inspect_file w (source_subject row)
      ∷ (if include_derivatives
          then map (λ f. inspect_file w (file_subject row f)) (files_of row.id files) ++ rest
          else rest)
