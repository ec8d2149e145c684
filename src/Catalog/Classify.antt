-- ===== src/Catalog/Classify.antt =====
-- The loop of `collect` over the assets (immich_doctor/catalog/consistency_state.py).
pub mod Counted
pub mod Absent
pub mod Known
use immich_doctor.Base.{
  ℕ, suc, String, Bool, true, false, not, ◌&&◌, ◌||◌, Option, none, some, List, [], ◌∷◌, ◌++◌, map,
  Dict, lookup, insert, filter_by, contains, ◌==◌, ◌!=◌, string_eq, if◌then◌else◌,
}
use mathlib.Core.Option
use immich_doctor.Storage.Text.{strip, with_slashes, has_infix}
use immich_doctor.Storage.PathMapping.{
  RootMapping, ResolvedStoragePath, MappingMode, resolve, looks_like_legacy_immich_path,
}
use immich_doctor.Catalog.Models.{
  source_root_slug, derivative_root_slugs, CatalogFileRow, CatalogAssetRow, DbMissingRow,
  UnmappedRow, TextPlatform, truthy_path,
}
use immich_doctor.Catalog.Snapshots.{is_some}

-- d.get(k, set())
abbrev pub index_of {ℓ} : {A : Type ℓ} → Dict (List A) → String → List A
index_of indexes slug = elim (lookup slug indexes) [ none ↦ [] | some values ↦ values ]

-- `files_by_root[slug].append(row)`
abbrev pub add_file : Dict (List CatalogFileRow) → CatalogFileRow → Dict (List CatalogFileRow)
add_file d row = insert row.root_slug (index_of d row.root_slug ++ (row ∷ [])) d

abbrev pub add_files : Dict (List CatalogFileRow) → List CatalogFileRow → Dict (List CatalogFileRow)
add_files d [] = d
add_files d (row ∷ rows) = add_files (add_file d row) rows

-- `files_by_root`
unfoldable pub files_by_root : List CatalogFileRow → Dict (List CatalogFileRow)
files_by_root rows = add_files [] rows

abbrev pub indexes_of : Dict (List CatalogFileRow) → Dict (List String)
indexes_of [] = []
indexes_of ((slug, rows) ∷ d) =
    let rest = indexes_of d in
    if contains derivative_root_slugs slug || slug == source_root_slug
    then (slug, map (λ row. row.relative_path) rows) ∷ rest
    else rest

-- `derivative_indexes`
unfoldable pub derivative_indexes : Dict (List CatalogFileRow) → Dict (List String)
derivative_indexes files = indexes_of files

-- `live_photo_video_ids`
abbrev pub live_photo_video_ids : List CatalogAssetRow → List String
live_photo_video_ids [] = []
live_photo_video_ids (asset ∷ assets) =
    let rest = live_photo_video_ids assets in
    elim asset.live_photo_video_id [
      | none ↦ rest
      | some value ↦ if is_some (truthy_path (some value)) then value ∷ rest else rest
    ]

-- What the loop reads.
pub record Scan : Type 0 where
  pub platform : TextPlatform
  pub roots : List RootMapping
  pub uploads_index : List String
  pub indexes : Dict (List String)
  pub live_ids : List String

-- `str(value or "")`
abbrev pub text_or_empty : Option String → String
text_or_empty none = ""
text_or_empty (some s) = s

-- `_is_valid_motion_video_component`
unfoldable pub is_valid_motion_video_component : Scan → CatalogAssetRow → String → String → Bool
unfolding strip with_slashes has_infix
is_valid_motion_video_component scan asset original_path resolved_root =
    resolved_root == "video"
    && scan.platform.upper (strip (text_or_empty asset.asset_type)) == "VIDEO"
    && has_infix (with_slashes original_path) "/encoded-video/"
    && contains scan.live_ids (strip asset.id)

-- What the loop has gathered. `db_original_index` is a set, of which only the membership is read.
pub record Classified : Type 0 where
  pub db_missing_rows : List DbMissingRow
  pub unmapped_rows : List UnmappedRow
  pub db_original_index : List String
  pub original_by_asset : Dict String
  pub total_assets_scanned : ℕ
  pub valid_motion_video_components : ℕ

abbrev pub nothing_classified : Classified
nothing_classified = record {
  db_missing_rows = [];
  unmapped_rows = [];
  db_original_index = [];
  original_by_asset = [];
  total_assets_scanned = 0;
  valid_motion_video_components = 0;
}

abbrev pub add_unmapped :
    CatalogAssetRow → String → String → Option (String × MappingMode) → Classified → Classified
add_unmapped asset original_path status resolved st = record st {
  unmapped_rows =
      st.unmapped_rows
      ++ (record {
        asset_id = asset.id;
        asset_name = truthy_path asset.original_file_name;
        database_path = original_path;
        mapping_status = status;
        resolved = resolved;
      }
          ∷ []);
}

abbrev pub add_db_missing :
    CatalogAssetRow → String → ResolvedStoragePath → Option String → Classified → Classified
add_db_missing asset original_path resolved classification st = record st {
  db_missing_rows =
      st.db_missing_rows
      ++ (record {
        asset_id = asset.id;
        asset_name = truthy_path asset.original_file_name;
        asset_type = asset.asset_type;
        database_path = original_path;
        resolved_root = resolved.root_slug;
        relative_path = resolved.relative_path;
        mapping_mode = resolved.mapping_mode;
        classification = classification;
      }
          ∷ []);
}

module _ (scan : Scan) (asset : CatalogAssetRow) (original_path : String) where
  -- An original that is mapped outside the uploads.
  abbrev pub classify_elsewhere : ResolvedStoragePath → Classified → Classified
  classify_elsewhere resolved st =
      if is_valid_motion_video_component scan asset original_path resolved.root_slug
      then if contains (index_of scan.indexes resolved.root_slug) resolved.relative_path
        then record st { valid_motion_video_components = suc st.valid_motion_video_components }
        else add_db_missing asset original_path resolved
            (some "valid_motion_video_component_missing_on_storage") st
      else add_unmapped asset original_path "unexpected_root"
          (some (resolved.root_slug, resolved.mapping_mode)) st

  -- `db_original_index.add(...)` and `original_by_asset[...] = ...`
  abbrev pub remember_original : ResolvedStoragePath → Classified → Classified
  remember_original resolved st = record st {
    db_original_index = resolved.relative_path ∷ st.db_original_index;
    original_by_asset = insert asset.id resolved.relative_path st.original_by_asset;
  }

  -- An original that is mapped into the uploads.
  abbrev pub classify_upload : ResolvedStoragePath → Classified → Classified
  classify_upload resolved st =
      let remembered = remember_original resolved st in
      if contains scan.uploads_index resolved.relative_path
      then remembered
      else add_db_missing asset original_path resolved none remembered

  abbrev pub classify_resolved : Option ResolvedStoragePath → Classified → Classified
  classify_resolved none st =
      add_unmapped asset original_path
        (if looks_like_legacy_immich_path original_path
          then "legacy_path_unmapped"
          else "unrecognized_path")
        none st
  classify_resolved (some resolved) st =
      if resolved.root_slug != source_root_slug
      then classify_elsewhere resolved st
      else classify_upload resolved st

module _ (scan : Scan) where
  abbrev pub classify_original : CatalogAssetRow → Option String → Classified → Classified
  classify_original asset none st = st
  classify_original asset (some original_path) st =
      classify_resolved scan asset original_path (resolve scan.roots original_path)
        (record st { total_assets_scanned = suc st.total_assets_scanned })

  -- One round of the loop.
  unfoldable pub classify_asset : CatalogAssetRow → Classified → Classified
  unfolding truthy_path
  classify_asset asset st = classify_original asset (truthy_path asset.original_path) st

  unfoldable pub classify_assets : List CatalogAssetRow → Classified → Classified
  unfolding classify_asset
  classify_assets [] st = st
  classify_assets (asset ∷ assets) st = classify_assets assets (classify_asset asset st)
