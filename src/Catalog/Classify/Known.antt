-- ===== src/Catalog/Classify/Known.antt =====
-- The index of the originals that the database knows (immich_doctor/catalog/consistency_state.py).
use immich_doctor.Base.{
  suc, String, Bool, false, ◌&&◌, ◌||◌, ◌≡◌, refl, ◌∙◌, inl, inr, Option, none, some, List, [], ◌∷◌,
  any, contains, Bool-cases, ◌==◌, string_eq, arith,
}
use immich_doctor.Storage.PathMapping.{ResolvedStoragePath, resolve}
use immich_doctor.Catalog.Models.{source_root_slug, CatalogAssetRow, truthy_path}
use immich_doctor.Catalog.Classify.{
  index_of, Scan, is_valid_motion_video_component, Classified, nothing_classified,
  classify_elsewhere, classify_upload, classify_resolved, classify_original, classify_asset,
  classify_assets,
}

-- The original of the asset is mapped into the uploads, at this relative path.
abbrev pub is_resolved_at : String → Option ResolvedStoragePath → Bool
is_resolved_at p none = false
is_resolved_at p (some r) = r.root_slug == source_root_slug && r.relative_path == p

abbrev pub is_path_at : Scan → String → Option String → Bool
is_path_at scan p none = false
is_path_at scan p (some path) = is_resolved_at p (resolve scan.roots path)

unfoldable pub is_original : Scan → String → CatalogAssetRow → Bool
is_original scan p asset = is_path_at scan p (truthy_path asset.original_path)

-- The index grows by the path if it is the original's.
abbrev Grows : String → Classified → Classified → Bool → Type 0
Grows p st st' original =
    contains st'.db_original_index p ≡ (original || contains st.db_original_index p)

module _ (scan : Scan) (p : String) where
  module _ (asset : CatalogAssetRow) (path : String) where
    elsewhere-Grows :
        (r : ResolvedStoragePath) (st : Classified)
        → Grows p st (classify_elsewhere scan asset path r st) false
    elsewhere-Grows r st =
        elim (Bool-cases (is_valid_motion_video_component scan asset path r.root_slug)) [
          | inl e ↦
              elim (Bool-cases (contains (index_of scan.indexes r.root_slug) r.relative_path)) [
                | inl f ↦ rw (e, f) refl
                | inr f ↦ rw (e, f) refl
              ]
          | inr e ↦ rw e refl
        ]

    upload-Grows :
        (r : ResolvedStoragePath) (st : Classified)
        → Grows p st (classify_upload scan asset path r st) (r.relative_path == p)
    upload-Grows r st = elim (Bool-cases (contains scan.uploads_index r.relative_path)) [
      | inl e ↦ rw e refl
      | inr e ↦ rw e refl
    ]

    resolved-Grows :
        (o : Option ResolvedStoragePath) (st : Classified)
        → Grows p st (classify_resolved scan asset path o st) (is_resolved_at p o)
    resolved-Grows none st = refl
    resolved-Grows (some r) st = elim (Bool-cases (r.root_slug == source_root_slug)) [
      | inl e ↦ rw e (upload-Grows r st)
      | inr e ↦ rw e (elsewhere-Grows r st)
    ]

  original-Grows :
      (asset : CatalogAssetRow) (o : Option String) (st : Classified)
      → Grows p st (classify_original scan asset o st) (is_path_at scan p o)
  original-Grows asset none st = refl
  original-Grows asset (some path) st =
      resolved-Grows asset path (resolve scan.roots path)
        (record st { total_assets_scanned = suc st.total_assets_scanned })

  asset-Grows :
      (asset : CatalogAssetRow) (st : Classified)
      → Grows p st (classify_asset scan asset st) (is_original scan p asset)
  unfolding classify_asset is_original
  asset-Grows asset st = original-Grows asset (truthy_path asset.original_path) st

  assets-Grows :
      (assets : List CatalogAssetRow) (st : Classified)
      → Grows p st (classify_assets scan assets st) (any (is_original scan p) assets)
  unfolding classify_assets
  assets-Grows [] st = refl
  assets-Grows (asset ∷ assets) st =
      ground (arith, asset-Grows asset st, assets-Grows assets (classify_asset scan asset st))

  -- After the loop the index holds a path exactly if it is the original of one of the assets.
  pub index-any :
      (assets : List CatalogAssetRow)
      → contains (classify_assets scan assets nothing_classified).db_original_index p
        ≡ any (is_original scan p) assets
  index-any assets = assets-Grows assets nothing_classified ∙ ground arith
