-- ===== src/Integrity/Probes.antt =====
-- What the probes answer and what they make of it (immich_doctor/runtime/integrity/service.py).
use immich_doctor.Base.{
  ℕ, String, Bool, not, Option, none, some, List, [], ◌∷◌, any, contains, Dict, lookup, nat_eq,
  string_eq, ◌==◌, if◌then◌else◌,
}
use immich_doctor.Core.Value.{Value}
use immich_doctor.Effects.Result.{PyError, Result, file_not_found, permission_error, os_error}
use immich_doctor.Effects.World.{World}
use immich_doctor.Integrity.Models.{
  FileIntegrityStatus, file_missing, file_permission_denied, file_truncated, file_container_broken,
  file_corrupted, file_type_mismatch, file_unknown_problem, file_role_eq, MediaKind, image, video,
  audio, unknown,
}

-- What a media probe answers (immich_doctor/adapters/media_probe.py).
pub record ProbeResult : Type 0 where
  pub ok : Bool
  pub detected_format : Option String
  pub error_category : Option String
  pub error_message : Option String

-- What the file system, the probes and the text methods answer. `formats` is the set of stripped,
-- non-empty parts of a comma-separated text; `os_message e` is `exc.strerror or exc`.
pub record Inspection : Type 0 where
  pub st_size : World → String → ℕ
  pub read_probe : World → String → Result (Unit {0})
  pub probe_image : World → String → ProbeResult
  pub probe_av : World → String → ProbeResult
  pub probe_unknown : World → String → ProbeResult
  pub suffix_lower : String → String
  pub file_name : String → String
  pub lower : String → String
  pub formats : String → List String
  pub os_message : PyError → String

abbrev pub image_extensions : Dict (List String)
image_extensions =
    (".jpg", "jpeg" ∷ [])
    ∷ (".jpeg", "jpeg" ∷ [])
    ∷ (".png", "png" ∷ [])
    ∷ (".webp", "webp" ∷ [])
    ∷ (".tif", "tiff" ∷ [])
    ∷ (".tiff", "tiff" ∷ [])
    ∷ (".bmp", "bmp" ∷ [])
    ∷ (".gif", "gif" ∷ [])
    ∷ []

abbrev pub video_extensions : Dict (List String)
video_extensions =
    (".mp4", "mp4" ∷ "mov" ∷ [])
    ∷ (".mov", "mov" ∷ [])
    ∷ (".m4v", "mp4" ∷ "mov" ∷ [])
    ∷ (".m4a", "mp4" ∷ "mov" ∷ [])
    ∷ (".webm", "webm" ∷ "matroska" ∷ [])
    ∷ (".mkv", "matroska" ∷ [])
    ∷ (".avi", "avi" ∷ [])
    ∷ []

abbrev pub audio_extensions : Dict (List String)
audio_extensions =
    (".mp3", "mp3" ∷ [])
    ∷ (".wav", "wav" ∷ [])
    ∷ (".flac", "flac" ∷ [])
    ∷ (".ogg", "ogg" ∷ [])
    ∷ (".aac", "aac" ∷ [])
    ∷ (".m4a", "mp4" ∷ "mov" ∷ [])
    ∷ []

abbrev pub or_list : Option (List String) → Option (List String) → Option (List String)
or_list (some l) o = some l
or_list none o = o

-- The formats that an extension stands for, by the kind of the asset.
unfoldable pub expected_formats : MediaKind → String → Option (List String)
expected_formats image e = lookup e image_extensions
expected_formats video e = lookup e video_extensions
expected_formats audio e = lookup e audio_extensions
expected_formats unknown e =
    or_list (lookup e image_extensions)
      (or_list (lookup e video_extensions) (lookup e audio_extensions))

abbrev pub is_disjoint : List String → List String → Bool
is_disjoint l m = not (any (contains m) l)

unfoldable pub map_probe_status : Option String → FileIntegrityStatus
map_probe_status none = file_unknown_problem
map_probe_status (some c) =
    if c == "missing_file"
    then file_missing
    else if c == "permission_denied"
    then file_permission_denied
    else if c == "truncated"
    then file_truncated
    else if c == "container_broken"
    then file_container_broken
    else if c == "corrupted"
    then file_corrupted
    else if c == "type_mismatch"
    then file_type_mismatch
    else if c == "unsupported_format"
    then file_type_mismatch
    else file_unknown_problem

-- `errno` of an exception; ENOENT and EACCES of the named classes.
abbrev pub errno : PyError → ℕ
errno file_not_found = 2
errno permission_error = 13
errno (os_error n) = n
errno _ = 0

-- The columns of the queries that the analysis reads.
pub record AssetRow : Type 0 where
  pub id : String
  pub type : String
  pub original_path : String
  pub metadata_extracted_at : Value

pub record AssetFileRow : Type 0 where
  pub id : String
  pub asset_id : String
  pub type : String
  pub path : String
