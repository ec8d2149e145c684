-- ===== src/Catalog/Orphans.antt =====
-- The rows of derivatives without an original (immich_doctor/catalog/consistency_state.py).
pub mod Distinct
use immich_doctor.Base.{
  String, Bool, true, false, not, ◌&&◌, ◌||◌, Option, none, some, List, [], ◌∷◌, ◌++◌, Dict, lookup,
  filter_by, any, contains, ◌==◌, string_eq, if◌then◌else◌,
}
use immich_doctor.Storage.PosixPath.{as_posix}
use immich_doctor.Storage.PathMapping.{ResolvedStoragePath, resolve}
use immich_doctor.Catalog.Models.{CatalogAssetRow, CatalogAssetFileRow, OrphanRow, truthy_path}
use immich_doctor.Catalog.Classify.{index_of, Scan}

-- The keys of `orphan_keys`, each that of a row.
abbrev pub has_key : String → String → String → OrphanRow → Bool
has_key asset_id derivative_type relative_path row =
    row.asset_id == asset_id
    && row.derivative_type == derivative_type
    && row.relative_path == relative_path

abbrev pub orphan_row : String → String → String → String → ResolvedStoragePath → OrphanRow
orphan_row asset_id derivative_type path_text original resolved = record {
  asset_id = asset_id;
  derivative_type = derivative_type;
  root_slug = resolved.root_slug;
  relative_path = resolved.relative_path;
  absolute_path = as_posix resolved.absolute_path;
  database_path = path_text;
  original_relative_path = original;
}

module _ (scan : Scan) (asset_id : String) (original : String) where
  abbrev pub append_resolved :
      String → String → Option ResolvedStoragePath → List OrphanRow → List OrphanRow
  append_resolved derivative_type path_text none rows = rows
  append_resolved derivative_type path_text (some resolved) rows =
      if not (contains (index_of scan.indexes resolved.root_slug) resolved.relative_path)
      then rows
      else if any (has_key asset_id derivative_type resolved.relative_path) rows
      then rows
      else rows ++ (orphan_row asset_id derivative_type path_text original resolved ∷ [])

  -- `_append_orphan_row`
  unfoldable pub append_orphan_row : String → String → List OrphanRow → List OrphanRow
  append_orphan_row derivative_type path_text rows =
      append_resolved derivative_type path_text (resolve scan.roots path_text) rows

  abbrev pub append_encoded_video : Option String → List OrphanRow → List OrphanRow
  append_encoded_video none rows = rows
  append_encoded_video (some path) rows = append_orphan_row "encoded_video" path rows

  abbrev pub append_derivatives : List CatalogAssetFileRow → List OrphanRow → List OrphanRow
  append_derivatives [] rows = rows
  append_derivatives (derivative ∷ derivatives) rows =
      append_derivatives derivatives (append_orphan_row derivative.file_type derivative.path rows)

module _ (scan : Scan) (original_by_asset : Dict String)
    (asset_files : List CatalogAssetFileRow) where
  -- `derivative_rows_by_asset.get(asset_id, [])`
  abbrev pub derivatives_of : String → List CatalogAssetFileRow
  derivatives_of asset_id = filter_by (λ row. row.asset_id == asset_id) asset_files

  abbrev pub orphans_of_original : CatalogAssetRow → Option String → List OrphanRow → List OrphanRow
  orphans_of_original asset none rows = rows
  orphans_of_original asset (some original) rows =
      if contains scan.uploads_index original
      then rows
      else append_derivatives scan asset.id original (derivatives_of asset.id)
          (append_encoded_video scan asset.id original (truthy_path asset.encoded_video_path) rows)

  -- One round of the loop.
  unfoldable pub orphans_of_asset : CatalogAssetRow → List OrphanRow → List OrphanRow
  orphans_of_asset asset rows = orphans_of_original asset (lookup asset.id original_by_asset) rows

  unfoldable pub orphans_of : List CatalogAssetRow → List OrphanRow → List OrphanRow
  orphans_of [] rows = rows
  orphans_of (asset ∷ assets) rows = orphans_of assets (orphans_of_asset asset rows)
