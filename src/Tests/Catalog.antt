-- ===== src/Tests/Catalog.antt =====
-- The comparison of a small catalog with a small database.
use immich_doctor.Base.{
  ◌+◌, String, ◌≡◌, ◌↔◌, ◌==◌, string_eq, nat_eq, refl, true, false, none, some, [], ◌∷◌, map,
  filter_by, All, length, count_by, if◌then◌else◌, arith,
}
use immich_doctor.Core.Value.{end}
use immich_doctor.Core.Models.{pass, check_status_eq, report_exit_code}
use immich_doctor.Effects.Result.{ok}
use immich_doctor.Storage.Text.{text_ends_with, has_infix}
use immich_doctor.Catalog.Models.{
  SnapshotRow, CatalogFileRow, CatalogAssetRow, TextPlatform, truthy_path, with_offset,
  parse_timestamp,
}
use immich_doctor.Catalog.Snapshots.{
  CatalogSnapshotState, snapshots_by_slug, is_stale, stale_slugs, missing_slugs, times_of,
  prepare_snapshot_state,
}
use immich_doctor.Catalog.Snapshots.Ready.{IsCovered, prepare-ready}
use immich_doctor.Catalog.Classify.{
  files_by_root, derivative_indexes, is_valid_motion_video_component, classify_asset,
  classify_assets,
}
use immich_doctor.Catalog.Classify.Counted.{is_found}
use immich_doctor.Catalog.Classify.Known.{is_original}
use immich_doctor.Catalog.Classify.Absent.{IsAbsent}
use immich_doctor.Catalog.Orphans.{append_orphan_row, orphans_of_asset, orphans_of}
use immich_doctor.Catalog.Orphans.Distinct.{IsOrphan, AreDistinct}
use immich_doctor.Catalog.Collect.{
  ConsistencyAnswers, CatalogConsistencyState, scan_of, compare_catalog, collect,
}
use immich_doctor.Catalog.Window.{
  row_within_snapshot_window, asset_within_snapshot_window, is_original_candidate,
  missing_in_database, storage_missing_row, latest_scan_committed_at,
}
use immich_doctor.Catalog.Collect.Agrees.{
  unknown_originals, compare-unknown, compare-counts, compare-IsAbsent, compare-AreDistinct,
}
use immich_doctor.Catalog.Validate.{
  real_issue_count, consistency_sections, consistency_metrics, consistency_metadata,
  consistency_report, validate_catalog,
}
use immich_doctor.Catalog.Validate.Report.{
  direct_report, report-bounds, report-exit_code, validate_catalog-direct,
}
use immich_doctor.Tests.Code.{repair_code}
use immich_doctor.Tests.Storage.{storage_code, uploads_only}

catalog_code : Unit {0}
unfolding repair_code storage_code text_ends_with has_infix truthy_path with_offset parse_timestamp
    snapshots_by_slug stale_slugs missing_slugs times_of prepare_snapshot_state files_by_root
    derivative_indexes is_valid_motion_video_component classify_asset classify_assets
    append_orphan_row orphans_of_asset orphans_of row_within_snapshot_window
    asset_within_snapshot_window is_original_candidate missing_in_database latest_scan_committed_at
    scan_of compare_catalog collect real_issue_count consistency_sections consistency_metrics
    consistency_metadata consistency_report validate_catalog is_found is_original
catalog_code = tt

abbrev text_platform : TextPlatform
text_platform = record {
  fromisoformat = λ s. if s == "T1" then some 1 else if s == "T9" then some 9 else none;
  isoformat = λ n. if n == 1 then "T1" else "T9";
  lower = λ s. s;
  upper = λ s. s;
}

abbrev uploads_snapshot : SnapshotRow
uploads_snapshot = record {
  root_slug = "uploads";
  snapshot_id = some 7;
  generation = some 2;
  snapshot_current = true;
  started_at = some "T1";
  committed_at = some "T1";
  absolute_path = "/data/up";
  columns = end;
}

abbrev file : String → CatalogFileRow
file path = record {
  root_slug = "uploads";
  relative_path = path;
  file_name = path;
  extension = some ".jpg";
  size_bytes = 3;
  snapshot_id = 7;
  generation = 2;
  modified_at_fs = some "T1";
}

abbrev asset : String → String → CatalogAssetRow
asset id path = record {
  id = id;
  asset_type = some "IMAGE";
  original_path = some path;
  original_file_name = some "photo.jpg";
  encoded_video_path = none;
  live_photo_video_id = none;
  created_at = some "T1";
  updated_at = none;
}

-- `a` is found, `b` is missing with a derivative that is left, and `c` lies elsewhere.
abbrev small_answers : ConsistencyAnswers
small_answers = record {
  catalog = record {
    synced_roots = "uploads" ∷ [];
    scan_roots = "uploads" ∷ [];
    latest_snapshots = uploads_snapshot ∷ [];
  };
  postgres_dsn = some "postgresql://immich";
  connection = record { name = "postgres_connection"; status = pass; message = ""; details = end };
  zero_byte_files = [];
  snapshot_files = file "a.jpg" ∷ file "b.webp" ∷ file "new.jpg" ∷ [];
  assets =
      asset "1" "/data/up/a.jpg"
      ∷ asset "2" "/usr/src/app/upload/upload/b.jpg"
      ∷ asset "3" "/elsewhere/c.jpg"
      ∷ [];
  asset_files =
      record { asset_id = "2"; file_type = "preview"; path = "/data/up/b.webp" }
      ∷ record { asset_id = "2"; file_type = "preview"; path = "/data/up/b.webp" }
      ∷ [];
}

abbrev small_snapshots : CatalogSnapshotState
small_snapshots = prepare_snapshot_state text_platform small_answers.catalog

abbrev small_state : CatalogConsistencyState
small_state = compare_catalog text_platform uploads_only small_snapshots small_answers

small_counts :
    small_state.total_assets_scanned
      ∷ length small_state.unmapped_rows
      ∷ length small_state.db_missing_rows
      ∷ length small_state.orphan_rows
      ∷ []
    ≡ 3 ∷ 1 ∷ 1 ∷ 1 ∷ []
unfolding catalog_code
small_counts = refl

small_unknown :
    map (λ row. row.relative_path) small_state.storage_missing_rows ≡ "b.webp" ∷ "new.jpg" ∷ []
unfolding catalog_code
small_unknown = refl

prepare-ready_example : (small_snapshots.ready ≡ true) ↔ (
    All (IsCovered (uploads_snapshot ∷ [])) ("uploads" ∷ [])
    × All (λ row. is_stale ("uploads" ∷ []) row ≡ false) (uploads_snapshot ∷ []))
prepare-ready_example = prepare-ready text_platform small_answers.catalog

compare-unknown_example :
    small_state.storage_missing_rows
    ≡ map (storage_missing_row uploads_only.immich_uploads_path) (
        unknown_originals
          (scan_of text_platform uploads_only small_state.latest_files small_state.asset_rows)
          small_state.asset_rows
          (filter_by (is_original_candidate text_platform) small_state.uploads_rows))
compare-unknown_example = compare-unknown text_platform uploads_only small_snapshots small_answers

compare-counts_example :
    small_state.total_assets_scanned
    ≡ small_state.valid_motion_video_components
      + length small_state.unmapped_rows
      + length small_state.db_missing_rows
      + count_by
          (is_found
            (scan_of text_platform uploads_only small_state.latest_files small_state.asset_rows))
          small_state.asset_rows
compare-counts_example = compare-counts text_platform uploads_only small_snapshots small_answers

compare-IsAbsent_example :
    All
      (IsAbsent
        (scan_of text_platform uploads_only small_state.latest_files small_state.asset_rows))
      small_state.db_missing_rows
compare-IsAbsent_example = compare-IsAbsent text_platform uploads_only small_snapshots small_answers

compare-AreDistinct_example :
    All
      (IsOrphan
        (scan_of text_platform uploads_only small_state.latest_files small_state.asset_rows))
      small_state.orphan_rows
    × AreDistinct small_state.orphan_rows
compare-AreDistinct_example =
    compare-AreDistinct text_platform uploads_only small_snapshots small_answers

report-bounds_example :
    map (λ s. length s.rows) (consistency_report 1 small_state 0).sections ≡ 1 ∷ 1 ∷ 1 ∷ 0 ∷ 1 ∷ []
unfolding catalog_code
report-bounds_example = report-bounds 1 small_state 0

report-exit_code_example : report_exit_code (consistency_report 200 small_state 0) ≡ 1
unfolding catalog_code
report-exit_code_example = report-exit_code 200 small_state 0 (omega arith)

validate_catalog-direct_example :
    validate_catalog text_platform uploads_only 200 small_answers small_answers 0
    ≡ ok (direct_report text_platform uploads_only 200 small_answers 0)
validate_catalog-direct_example =
    validate_catalog-direct text_platform uploads_only 200 small_answers 0
