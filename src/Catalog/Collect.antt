-- ===== src/Catalog/Collect.antt =====
-- `collect` (immich_doctor/catalog/consistency_state.py). The progress callbacks are left out.
pub mod Agrees
use immich_doctor.Base.{
  sorted, ℕ, String, Bool, true, false, not, ◌&&◌, ◌||◌, Option, none, some, List, [], ◌∷◌, ◌++◌,
  ◌<>◌, map, Dict, lookup, filter_by, is_empty, length, all, contains, decimal, leb, ltb, ◌==◌,
  string_eq, if◌then◌else◌,
}
use text.Mathlib.Text.{starts_with, is_lt}
use Prim.Native.String.{compare}
use mathlib.Core.Option
use immich_doctor.Core.Value.{
  Value, Fields, end, field, int, str, object, array, items, texts, optional_text, optional_int,
}
use immich_doctor.Core.Models.{CheckResult, CheckStatus, pass, fail, warn, check_status_eq}
use immich_doctor.Effects.Result.{Result, ok, raised, PyError, value_error}
use immich_doctor.Storage.Text.{split_slash, text_ends_with}
use immich_doctor.Storage.PosixPath.{PurePosixPath, as_posix, join_all}
use immich_doctor.Storage.PathMapping.{StorageSettings, build_roots}
use immich_doctor.Catalog.Models.{
  source_root_slug, derivative_root_slugs, sidecar_extension, fuse_hidden_prefix,
  immich_marker_file, SnapshotRow, CatalogFileRow, CatalogAssetRow, CatalogAssetFileRow,
  DbMissingRow, UnmappedRow, StorageMissingRow, OrphanRow, TextPlatform, parse_timestamp,
}
use immich_doctor.Catalog.Snapshots.{
  CatalogSnapshotState, CatalogAnswers, prepare_snapshot_state, is_current, drop_none,
}
use immich_doctor.Catalog.Classify.{
  index_of, files_by_root, derivative_indexes, live_photo_video_ids, text_or_empty, Scan,
  Classified, nothing_classified, classify_assets,
}
use immich_doctor.Catalog.Orphans.{orphans_of}
use immich_doctor.Catalog.Window.{
  row_within_snapshot_window, not_after, asset_within_snapshot_window, is_original_candidate,
  missing_in_database, storage_missing_row, snapshot_coverage, coverage_check, path_mapping_check,
  is_basis, basis_entry, is_committed, latest_text, latest_scan_committed_at,
}

-- The store of snapshots and the database, as `collect` and its caller ask them; an empty DSN
-- counts as none.
pub record ConsistencyAnswers : Type 0 where
  pub catalog : CatalogAnswers
  pub postgres_dsn : Option String
  pub connection : CheckResult
  pub zero_byte_files : List CatalogFileRow
  pub snapshot_files : List CatalogFileRow
  pub assets : List CatalogAssetRow
  pub asset_files : List CatalogAssetFileRow

pub record CatalogConsistencyState : Type 0 where
  pub checks : List CheckResult
  pub latest_snapshots : List SnapshotRow
  pub latest_files : List CatalogFileRow
  pub asset_rows : List CatalogAssetRow
  pub asset_file_rows : List CatalogAssetFileRow
  pub zero_byte_rows : List CatalogFileRow
  pub db_missing_rows : List DbMissingRow
  pub storage_missing_rows : List StorageMissingRow
  pub orphan_rows : List OrphanRow
  pub unmapped_rows : List UnmappedRow
  pub uploads_rows : List CatalogFileRow
  pub uploads_index : List String
  pub db_original_index : List String
  pub original_by_asset : Dict String
  pub derivative_indexes : Dict (List String)
  pub snapshot_basis : List Fields
  pub latest_scan_committed_at : Option String
  pub comparison_window_started_at : Option String
  pub comparison_window_committed_at : Option String
  pub configured_root_slugs : List String
  pub total_assets_scanned : ℕ
  pub valid_motion_video_components : ℕ
  pub progress_metadata : Fields

module _ (platform : TextPlatform) (settings : StorageSettings) where
  -- What the loops read: the files within the window, their indexes, and the stable assets.
  unfoldable pub scan_of : List CatalogFileRow → List CatalogAssetRow → Scan
  unfolding build_roots files_by_root derivative_indexes
  scan_of latest_files asset_rows =
      let files = files_by_root latest_files in
      record {
        platform = platform;
        roots = build_roots settings;
        uploads_index = map (λ row. row.relative_path) (index_of files source_root_slug);
        indexes = derivative_indexes files;
        live_ids = live_photo_video_ids asset_rows;
      }

  -- The comparison, once the snapshots are ready and the database is reached.
  unfoldable pub compare_catalog :
      CatalogSnapshotState → ConsistencyAnswers → CatalogConsistencyState
  unfolding row_within_snapshot_window asset_within_snapshot_window is_original_candidate
      missing_in_database latest_scan_committed_at scan_of files_by_root classify_assets orphans_of
  compare_catalog snapshots answers =
      let started = snapshots.comparison_window_started_at in
      let latest_files =
        filter_by (row_within_snapshot_window platform started) answers.snapshot_files in
      let asset_rows = filter_by (asset_within_snapshot_window platform started) answers.assets in
      let stable_asset_ids = map (λ asset. asset.id) asset_rows in
      let asset_file_rows =
        filter_by (λ row. contains stable_asset_ids row.asset_id) answers.asset_files in
      let scan = scan_of latest_files asset_rows in
      let uploads_rows = index_of (files_by_root latest_files) source_root_slug in
      let source_only_rows = filter_by (is_original_candidate platform) uploads_rows in
      let classified = classify_assets scan asset_rows nothing_classified in
      let effective = snapshots.effective_root_slugs in
      record {
        checks =
            snapshots.checks
            ++ (answers.connection
                ∷ coverage_check (snapshot_coverage snapshots.snapshot_by_slug)
                ∷ path_mapping_check classified.unmapped_rows
                ∷ []);
        latest_snapshots = snapshots.latest_snapshots;
        latest_files = latest_files;
        asset_rows = asset_rows;
        asset_file_rows = asset_file_rows;
        zero_byte_rows =
            filter_by (row_within_snapshot_window platform started) answers.zero_byte_files;
        db_missing_rows = classified.db_missing_rows;
        storage_missing_rows =
            map (storage_missing_row settings.immich_uploads_path)
              (missing_in_database classified.db_original_index source_only_rows);
        orphan_rows = orphans_of scan classified.original_by_asset asset_file_rows asset_rows [];
        unmapped_rows = classified.unmapped_rows;
        uploads_rows = uploads_rows;
        uploads_index = scan.uploads_index;
        db_original_index = classified.db_original_index;
        original_by_asset = classified.original_by_asset;
        derivative_indexes = scan.indexes;
        snapshot_basis =
            map basis_entry (filter_by (is_basis effective) snapshots.latest_snapshots);
        latest_scan_committed_at = latest_scan_committed_at effective snapshots.latest_snapshots;
        comparison_window_started_at = started;
        comparison_window_committed_at = snapshots.comparison_window_committed_at;
        configured_root_slugs = snapshots.synced_roots;
        total_assets_scanned = classified.total_assets_scanned;
        valid_motion_video_components = classified.valid_motion_video_components;
        progress_metadata = snapshots.metadata;
      }

  abbrev pub collect_connected :
      CatalogSnapshotState → ConsistencyAnswers → Option String → Result CatalogConsistencyState
  collect_connected snapshots answers none = raised value_error
  collect_connected snapshots answers (some dsn) =
      if answers.connection.status == fail
      then raised value_error
      else ok (compare_catalog snapshots answers)

  unfoldable pub collect : ConsistencyAnswers → Result CatalogConsistencyState
  unfolding prepare_snapshot_state compare_catalog
  collect answers =
      let snapshots = prepare_snapshot_state platform answers.catalog in
      if not snapshots.ready
      then raised value_error
      else collect_connected snapshots answers answers.postgres_dsn
