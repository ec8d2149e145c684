-- ===== src/Catalog/Collect/Agrees.antt =====
-- What the collected state says of the catalog and the database.
use immich_doctor.Base.{
  ◌+◌, Bool, not, ◌≡◌, refl, ap, List, [], ◌∷◌, map, filter_by, any, All, length, count_by,
}
use immich_doctor.Storage.PathMapping.{StorageSettings}
use immich_doctor.Catalog.Models.{CatalogFileRow, CatalogAssetRow, TextPlatform}
use immich_doctor.Catalog.Snapshots.{CatalogSnapshotState}
use immich_doctor.Catalog.Classify.{Scan, nothing_classified, classify_assets}
use immich_doctor.Catalog.Classify.Counted.{is_found, classify-counts}
use immich_doctor.Catalog.Classify.Absent.{IsAbsent, classify-IsAbsent}
use immich_doctor.Catalog.Classify.Known.{is_original, index-any}
use immich_doctor.Catalog.Orphans.Distinct.{IsOrphan, AreDistinct, orphans-AreDistinct}
use immich_doctor.Catalog.Collect.{
  ConsistencyAnswers, CatalogConsistencyState, scan_of, compare_catalog,
}
use immich_doctor.Catalog.Window.{is_original_candidate, missing_in_database, storage_missing_row}

filter_by-same {ℓ} :
    {A : Type ℓ} (p q : A → Bool) (l : List A)
    → ((x : A) → p x ≡ q x)
    → filter_by p l ≡ filter_by q l
filter_by-same p q [] h = refl
filter_by-same p q (x ∷ l) h = rw (h x, filter_by-same p q l h) refl

-- The files among the candidates that are the original of none of the assets.
abbrev pub unknown_originals :
    Scan → List CatalogAssetRow → List CatalogFileRow → List CatalogFileRow
unknown_originals scan assets =
    filter_by (λ row. not (any (is_original scan row.relative_path) assets))

missing-unknown :
    (scan : Scan) (assets : List CatalogAssetRow) (candidates : List CatalogFileRow)
    → missing_in_database
        (classify_assets scan assets nothing_classified).db_original_index
        candidates
      ≡ unknown_originals scan assets candidates
unfolding missing_in_database
missing-unknown scan assets candidates =
    filter_by-same _ _ candidates (λ row. ap not (index-any scan row.relative_path assets))

module _ (platform : TextPlatform) (settings : StorageSettings) (snapshots : CatalogSnapshotState)
    (answers : ConsistencyAnswers) where
  -- What the loops read for the files and the assets of the state.
  abbrev pub scanned : CatalogConsistencyState → Scan
  scanned state = scan_of platform settings state.latest_files state.asset_rows

  abbrev compared : CatalogConsistencyState
  compared = compare_catalog platform settings snapshots answers

  -- The files that are reported as missing in the database, which are found by an index that the
  -- loop over the assets fills, are those that a search through all assets for each candidate
  -- finds: the candidates among the uploads that are the original of no asset.
  pub compare-unknown :
      let state = compare_catalog platform settings snapshots answers in
      state.storage_missing_rows
      ≡ map (storage_missing_row settings.immich_uploads_path) (
          unknown_originals
            (scanned state)
            state.asset_rows
            (filter_by (is_original_candidate platform) state.uploads_rows))
  unfolding compare_catalog
  compare-unknown =
      ap (map (storage_missing_row settings.immich_uploads_path))
        (missing-unknown (scanned compared) compared.asset_rows _)

  -- Every asset with an original path is counted exactly once: the number of the scanned assets is
  -- the number of the suppressed motion videos, of the unmapped rows, of the rows that are missing
  -- on storage, and of the assets whose original the index of the uploads holds.
  pub compare-counts :
      let state = compare_catalog platform settings snapshots answers in
      state.total_assets_scanned
      ≡ state.valid_motion_video_components
        + length state.unmapped_rows
        + length state.db_missing_rows
        + count_by (is_found (scanned state)) state.asset_rows
  unfolding compare_catalog
  compare-counts = classify-counts (scanned compared) compared.asset_rows

  -- No original that is reported as missing on storage stands in the index of the root to which it
  -- is mapped.
  pub compare-IsAbsent :
      let state = compare_catalog platform settings snapshots answers in
      All (IsAbsent (scanned state)) state.db_missing_rows
  unfolding compare_catalog
  compare-IsAbsent = classify-IsAbsent (scanned compared) compared.asset_rows

  -- Every row of an orphan names a file that stands in the index of its root and an original that
  -- does not stand in the index of the uploads, and no two rows have the same asset, derivative
  -- type and relative path.
  pub compare-AreDistinct :
      let state = compare_catalog platform settings snapshots answers in
      All (IsOrphan (scanned state)) state.orphan_rows × AreDistinct state.orphan_rows
  unfolding compare_catalog
  compare-AreDistinct =
      orphans-AreDistinct (scanned compared) compared.original_by_asset compared.asset_file_rows
        compared.asset_rows
