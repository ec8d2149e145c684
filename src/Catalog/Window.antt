-- ===== src/Catalog/Window.antt =====
-- The comparison window, the candidates, and the checks of `collect`
-- (immich_doctor/catalog/consistency_state.py).
use immich_doctor.Base.{
  sorted, ℕ, String, Bool, true, false, not, ◌&&◌, ◌||◌, Option, none, some, List, [], ◌∷◌, ◌<>◌,
  map, Dict, filter_by, is_empty, length, contains, decimal, leb, ltb, ◌==◌, string_eq,
  if◌then◌else◌,
}
use text.Mathlib.Text.{starts_with, is_lt}
use Prim.Native.String.{compare}
use mathlib.Core.Option
use immich_doctor.Core.Value.{Fields, end, field, str, array, texts, optional_text, optional_int}
use immich_doctor.Core.Models.{CheckResult, pass, warn, check_status_eq}
use immich_doctor.Storage.Text.{split_slash, text_ends_with}
use immich_doctor.Storage.PosixPath.{PurePosixPath, as_posix, join_all}
use immich_doctor.Catalog.Models.{
  source_root_slug, derivative_root_slugs, sidecar_extension, fuse_hidden_prefix,
  immich_marker_file, SnapshotRow, CatalogFileRow, CatalogAssetRow, UnmappedRow, StorageMissingRow,
  TextPlatform, parse_timestamp,
}
use immich_doctor.Catalog.Snapshots.{is_current}
use immich_doctor.Catalog.Classify.{text_or_empty}

-- `_row_within_snapshot_window`, for `modified_at_fs`
unfoldable pub row_within_snapshot_window : TextPlatform → Option String → CatalogFileRow → Bool
unfolding parse_timestamp
row_within_snapshot_window platform started row = elim (parse_timestamp platform started) [
  | none ↦ true
  | some cutoff ↦ elim (parse_timestamp platform row.modified_at_fs) [
    | none ↦ true
    | some row_timestamp ↦ leb row_timestamp cutoff
  ]
]

-- `candidate is not None and candidate > cutoff` fails.
abbrev pub not_after : ℕ → Option ℕ → Bool
not_after cutoff none = true
not_after cutoff (some candidate) = not (ltb cutoff candidate)

-- `_asset_within_snapshot_window`
unfoldable pub asset_within_snapshot_window : TextPlatform → Option String → CatalogAssetRow → Bool
unfolding parse_timestamp
asset_within_snapshot_window platform started row = elim (parse_timestamp platform started) [
  | none ↦ true
  | some cutoff ↦
      not_after cutoff (parse_timestamp platform row.created_at)
      && not_after cutoff (parse_timestamp platform row.updated_at)
]

-- `_is_original_candidate`
unfoldable pub is_original_candidate : TextPlatform → CatalogFileRow → Bool
unfolding text_ends_with
is_original_candidate platform row =
    if platform.lower (text_or_empty row.extension) == sidecar_extension
    then false
    else if row.file_name == immich_marker_file || starts_with row.file_name fuse_hidden_prefix
    then false
    else not (text_ends_with row.relative_path sidecar_extension)

-- The candidates that no original of the database names.
unfoldable pub missing_in_database : List String → List CatalogFileRow → List CatalogFileRow
missing_in_database db_original_index candidates =
    filter_by (λ row. not (contains db_original_index row.relative_path)) candidates

abbrev pub storage_missing_row : Option PurePosixPath → CatalogFileRow → StorageMissingRow
storage_missing_row uploads_path row = record {
  root_slug = row.root_slug;
  relative_path = row.relative_path;
  absolute_path =
      Option.map (λ path. as_posix (join_all path (split_slash row.relative_path))) uploads_path;
  file_name = row.file_name;
  size_bytes = row.size_bytes;
  snapshot_id = row.snapshot_id;
  generation = row.generation;
}

-- `derivative_snapshot_coverage`
abbrev pub snapshot_coverage : Dict SnapshotRow → List String
snapshot_coverage by_slug = sorted (
    filter_by (λ slug. contains derivative_root_slugs slug || slug == source_root_slug)
      (map (λ entry. entry.0) by_slug))

abbrev pub coverage_check : List String → CheckResult
coverage_check coverage = record {
  name = "catalog_snapshot_coverage";
  status = if is_empty coverage then warn else pass;
  message =
      if is_empty coverage
      then "Only a partial set of catalog snapshots is available."
      else "Committed catalog snapshots are available for the required storage roots.";
  details = field "roots" (array (texts coverage)) end;
}

abbrev pub path_mapping_check : List UnmappedRow → CheckResult
path_mapping_check rows = record {
  name = "catalog_path_mapping";
  status = if is_empty rows then pass else warn;
  message =
      if is_empty rows
      then "Database paths mapped cleanly into configured runtime roots."
      else decimal (length rows)
        <> " database paths could not be mapped "
        <> "into configured runtime roots.";
  details = end;
}

-- The row is of a current snapshot of a root that is scanned.
abbrev pub is_basis : List String → SnapshotRow → Bool
is_basis effective row = is_current row && contains effective row.root_slug

abbrev pub basis_entry : SnapshotRow → Fields
basis_entry row = field "rootSlug" (str row.root_slug) (
    field "snapshotId" (optional_int row.snapshot_id) (
      field "generation" (optional_int row.generation) (
        field "startedAt" (optional_text row.started_at) (
          field "committedAt" (optional_text row.committed_at)
            (field "absolutePath" (str row.absolute_path) end)))))

-- `row.get("committed_at") and bool(row.get("snapshot_current")) and ...`
abbrev pub is_committed : List String → SnapshotRow → Bool
is_committed effective row =
    not (text_or_empty row.committed_at == "")
    && row.snapshot_current
    && contains effective row.root_slug

-- `max(texts, default=None)`
abbrev pub latest_text : List String → Option String
latest_text [] = none
latest_text (s ∷ l) = elim (latest_text l) [
  | none ↦ some s
  | some t ↦ some (if is_lt (compare s t) then t else s)
]

unfoldable pub latest_scan_committed_at : List String → List SnapshotRow → Option String
latest_scan_committed_at effective rows =
    latest_text
      (map (λ row. text_or_empty row.committed_at) (filter_by (is_committed effective) rows))
