-- ===== src/Catalog/Classify/Absent.antt =====
-- What is reported as missing on storage is missing (immich_doctor/catalog/consistency_state.py).
use immich_doctor.Base.{
  suc, String, true, false, ◌≡◌, inl, inr, Option, none, some, List, [], ◌∷◌, All, All-snoc,
  contains, Bool-cases, ◌==◌, string_eq, if◌then◌else◌,
}
use immich_doctor.Storage.PathMapping.{ResolvedStoragePath, resolve}
use immich_doctor.Catalog.Models.{source_root_slug, CatalogAssetRow, DbMissingRow, truthy_path}
use immich_doctor.Catalog.Classify.{
  index_of, Scan, is_valid_motion_video_component, Classified, nothing_classified,
  classify_elsewhere, classify_upload, classify_resolved, classify_original, classify_asset,
  classify_assets,
}

-- The index of the snapshot of a root.
abbrev pub scan_index : Scan → String → List String
scan_index scan slug =
    if slug == source_root_slug then scan.uploads_index else index_of scan.indexes slug

abbrev pub IsAbsent : Scan → DbMissingRow → Type 0
IsAbsent scan row = contains (scan_index scan row.resolved_root) row.relative_path ≡ false

abbrev AllAbsent : Scan → Classified → Type 0
AllAbsent scan st = All (IsAbsent scan) st.db_missing_rows

module _ (scan : Scan) (asset : CatalogAssetRow) (path : String) where
  elsewhere-AllAbsent :
      (r : ResolvedStoragePath) (st : Classified)
      → (r.root_slug == source_root_slug) ≡ false
      → AllAbsent scan st
      → AllAbsent scan (classify_elsewhere scan asset path r st)
  elsewhere-AllAbsent r st other h =
      elim (Bool-cases (is_valid_motion_video_component scan asset path r.root_slug)) [
        | inl e ↦ elim (Bool-cases (contains (index_of scan.indexes r.root_slug) r.relative_path)) [
          | inl f ↦ rw (e, f) h
          | inr f ↦ rw (e, f) (All-snoc (IsAbsent scan) st.db_missing_rows _ h (rw other f))
        ]
        | inr e ↦ rw e h
      ]

  upload-AllAbsent :
      (r : ResolvedStoragePath) (st : Classified)
      → (r.root_slug == source_root_slug) ≡ true
      → AllAbsent scan st
      → AllAbsent scan (classify_upload scan asset path r st)
  upload-AllAbsent r st source h = elim (Bool-cases (contains scan.uploads_index r.relative_path)) [
    | inl e ↦ rw e h
    | inr e ↦ rw e (All-snoc (IsAbsent scan) st.db_missing_rows _ h (rw source e))
  ]

  resolved-AllAbsent :
      (o : Option ResolvedStoragePath) (st : Classified)
      → AllAbsent scan st
      → AllAbsent scan (classify_resolved scan asset path o st)
  resolved-AllAbsent none st h = h
  resolved-AllAbsent (some r) st h = elim (Bool-cases (r.root_slug == source_root_slug)) [
    | inl e ↦ rw e (upload-AllAbsent r st e h)
    | inr e ↦ rw e (elsewhere-AllAbsent r st e h)
  ]

module _ (scan : Scan) where
  original-AllAbsent :
      (asset : CatalogAssetRow) (o : Option String) (st : Classified)
      → AllAbsent scan st
      → AllAbsent scan (classify_original scan asset o st)
  original-AllAbsent asset none st h = h
  original-AllAbsent asset (some path) st h =
      resolved-AllAbsent scan asset path (resolve scan.roots path)
        (record st { total_assets_scanned = suc st.total_assets_scanned }) h

  assets-AllAbsent :
      (assets : List CatalogAssetRow) (st : Classified)
      → AllAbsent scan st
      → AllAbsent scan (classify_assets scan assets st)
  unfolding classify_assets classify_asset
  assets-AllAbsent [] st h = h
  assets-AllAbsent (asset ∷ assets) st h =
      assets-AllAbsent assets (classify_asset scan asset st)
        (original-AllAbsent asset (truthy_path asset.original_path) st h)

  -- No original that is reported as missing on storage stands in the index of the root to which it
  -- is mapped.
  pub classify-IsAbsent :
      (assets : List CatalogAssetRow)
      → All (IsAbsent scan) (classify_assets scan assets nothing_classified).db_missing_rows
  classify-IsAbsent assets = assets-AllAbsent assets nothing_classified tt
