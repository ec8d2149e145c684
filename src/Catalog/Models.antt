-- ===== src/Catalog/Models.antt =====
-- The rows and constants of immich_doctor/catalog/consistency_state.py.
use immich_doctor.Base.{
  ℕ, String, Bool, Option, none, some, List, [], ◌∷◌, ◌<>◌, ◌==◌, string_eq, nat_eq, if◌then◌else◌,
}
use Prim.Native.Char.{code}
use mathlib.Core.Option
use immich_doctor.Core.Value.{Fields}
use immich_doctor.Storage.Text.{strip}
use immich_doctor.Storage.PathMapping.{MappingMode}

abbrev pub zero_byte_section : String
zero_byte_section = "ZERO_BYTE_FILES"

abbrev pub db_missing_section : String
db_missing_section = "DB_ORIGINALS_MISSING_ON_STORAGE"

abbrev pub storage_missing_section : String
storage_missing_section = "STORAGE_ORIGINALS_MISSING_IN_DB"

abbrev pub orphan_section : String
orphan_section = "ORPHAN_DERIVATIVES_WITHOUT_ORIGINAL"

abbrev pub unmapped_section : String
unmapped_section = "UNMAPPED_DATABASE_PATHS"

abbrev pub source_root_slug : String
source_root_slug = "uploads"

abbrev pub derivative_root_slugs : List String
derivative_root_slugs = "thumbs" ∷ "profile" ∷ "video" ∷ []

abbrev pub sidecar_extension : String
sidecar_extension = ".xmp"

abbrev pub fuse_hidden_prefix : String
fuse_hidden_prefix = ".fuse_hidden"

abbrev pub immich_marker_file : String
immich_marker_file = ".immich"

-- A row of the newest snapshot of each root; `columns` is the whole row.
pub record SnapshotRow : Type 0 where
  pub root_slug : String
  pub snapshot_id : Option ℕ
  pub generation : Option ℕ
  pub snapshot_current : Bool
  pub started_at : Option String
  pub committed_at : Option String
  pub absolute_path : String
  pub columns : Fields

-- A file of a committed snapshot.
pub record CatalogFileRow : Type 0 where
  pub root_slug : String
  pub relative_path : String
  pub file_name : String
  pub extension : Option String
  pub size_bytes : ℕ
  pub snapshot_id : ℕ
  pub generation : ℕ
  pub modified_at_fs : Option String

-- A row of the `asset` table; a column holds a text or `None`.
pub record CatalogAssetRow : Type 0 where
  pub id : String
  pub asset_type : Option String
  pub original_path : Option String
  pub original_file_name : Option String
  pub encoded_video_path : Option String
  pub live_photo_video_id : Option String
  pub created_at : Option String
  pub updated_at : Option String

-- A row of the `asset_file` table.
pub record CatalogAssetFileRow : Type 0 where
  pub asset_id : String
  pub file_type : String
  pub path : String

pub record DbMissingRow : Type 0 where
  pub asset_id : String
  pub asset_name : Option String
  pub asset_type : Option String
  pub database_path : String
  pub resolved_root : String
  pub relative_path : String
  pub mapping_mode : MappingMode
  pub classification : Option String

pub record UnmappedRow : Type 0 where
  pub asset_id : String
  pub asset_name : Option String
  pub database_path : String
  pub mapping_status : String
  pub resolved : Option (String × MappingMode)

pub record StorageMissingRow : Type 0 where
  pub root_slug : String
  pub relative_path : String
  pub absolute_path : Option String
  pub file_name : String
  pub size_bytes : ℕ
  pub snapshot_id : ℕ
  pub generation : ℕ

pub record OrphanRow : Type 0 where
  pub asset_id : String
  pub derivative_type : String
  pub root_slug : String
  pub relative_path : String
  pub absolute_path : String
  pub database_path : String
  pub original_relative_path : String

-- `truthy_path`
unfoldable pub truthy_path : Option String → Option String
unfolding strip
truthy_path none = none
truthy_path (some value) = let text = strip value in if text == "" then none else some text

-- `text.replace("Z", "+00:00")`
unfoldable pub with_offset : String → String
with_offset String.[] = ""
with_offset (String.◌∷◌ c s) =
    let rest = with_offset s in if code c == 90 then "+00:00" <> rest else String.◌∷◌ c rest

-- What the standard library supplies: times as `datetime.fromisoformat(text).astimezone(UTC)` reads
-- them (`none` for its `ValueError`) and `isoformat` writes them, and the case of a text.
pub record TextPlatform : Type 0 where
  pub fromisoformat : String → Option ℕ
  pub isoformat : ℕ → String
  pub lower : String → String
  pub upper : String → String

-- `parse_timestamp`
unfoldable pub parse_timestamp : TextPlatform → Option String → Option ℕ
unfolding truthy_path with_offset Option.bind
parse_timestamp platform value =
    Option.bind (truthy_path value) (λ text. platform.fromisoformat (with_offset text))
