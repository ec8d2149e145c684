-- ===== src/Catalog/Classify/Counted.antt =====
-- Every scanned asset is counted once (immich_doctor/catalog/consistency_state.py).
use immich_doctor.Base.{
  ℕ, suc, ◌+◌, String, Bool, true, false, ◌&&◌, ◌≡◌, refl, ap, inl, inr, Option, none, some, List,
  [], ◌∷◌, ◌++◌, count_by, length, contains, Bool-cases, ◌==◌, string_eq, if◌then◌else◌, arith,
}
use immich_doctor.Storage.PathMapping.{ResolvedStoragePath, MappingMode, resolve}
use immich_doctor.Catalog.Models.{source_root_slug, CatalogAssetRow, truthy_path}
use immich_doctor.Catalog.Classify.{
  index_of, Scan, is_valid_motion_video_component, Classified, nothing_classified, add_unmapped,
  add_db_missing, classify_elsewhere, remember_original, classify_upload, classify_resolved,
  classify_original, classify_asset, classify_assets,
}

-- The original is mapped into the uploads, and the index of the uploads holds it.
abbrev pub is_found_resolved : Scan → Option ResolvedStoragePath → Bool
is_found_resolved scan none = false
is_found_resolved scan (some r) =
    r.root_slug == source_root_slug && contains scan.uploads_index r.relative_path

abbrev pub is_found_path : Scan → Option String → Bool
is_found_path scan none = false
is_found_path scan (some path) = is_found_resolved scan (resolve scan.roots path)

unfoldable pub is_found : Scan → CatalogAssetRow → Bool
is_found scan asset = is_found_path scan (truthy_path asset.original_path)

-- The assets that the loop has reported or suppressed.
abbrev pub reported : Classified → ℕ
reported st = st.valid_motion_video_components + length st.unmapped_rows + length st.db_missing_rows

abbrev unit_of : Bool → ℕ
unit_of b = if b then 1 else 0

length-snoc {ℓ} : {A : Type ℓ} (l : List A) (x : A) → length (l ++ (x ∷ [])) ≡ suc (length l)
length-snoc [] x = refl
length-snoc (y ∷ l) x = ap suc (length-snoc l x)

-- One asset is counted: the total grows by one, and so do the reports and the found together.
abbrev CountsOne : Classified → Classified → Bool → Type 0
CountsOne st st' found =
    (st'.total_assets_scanned ≡ st.total_assets_scanned)
    × (reported st' + unit_of found ≡ reported st + 1)

module _ (scan : Scan) (asset : CatalogAssetRow) (path : String) where
  unmapped-CountsOne :
      (status : String) (r : Option (String × MappingMode)) (st : Classified)
      → CountsOne st (add_unmapped asset path status r st) false
  unmapped-CountsOne status r st = (refl, omega (arith, length-snoc st.unmapped_rows _))

  db_missing-CountsOne :
      (r : ResolvedStoragePath) (c : Option String) (st : Classified)
      → CountsOne st (add_db_missing asset path r c st) false
  db_missing-CountsOne r c st = (refl, omega (arith, length-snoc st.db_missing_rows _))

  elsewhere-CountsOne :
      (r : ResolvedStoragePath) (st : Classified)
      → CountsOne st (classify_elsewhere scan asset path r st) false
  elsewhere-CountsOne r st =
      elim (Bool-cases (is_valid_motion_video_component scan asset path r.root_slug)) [
        | inl e ↦ elim (Bool-cases (contains (index_of scan.indexes r.root_slug) r.relative_path)) [
          | inl f ↦ rw (e, f) (refl, omega arith)
          | inr f ↦ rw (e, f) (db_missing-CountsOne r _ st)
        ]
        | inr e ↦ rw e (unmapped-CountsOne _ _ st)
      ]

  upload-CountsOne :
      (r : ResolvedStoragePath) (st : Classified)
      → CountsOne st
          (classify_upload scan asset path r st)
          (contains scan.uploads_index r.relative_path)
  upload-CountsOne r st = elim (Bool-cases (contains scan.uploads_index r.relative_path)) [
    | inl e ↦ rw e (refl, refl)
    | inr e ↦ rw e (db_missing-CountsOne r none (remember_original scan asset path r st))
  ]

  resolved-CountsOne :
      (o : Option ResolvedStoragePath) (st : Classified)
      → CountsOne st (classify_resolved scan asset path o st) (is_found_resolved scan o)
  resolved-CountsOne none st = unmapped-CountsOne _ none st
  resolved-CountsOne (some r) st = elim (Bool-cases (r.root_slug == source_root_slug)) [
    | inl e ↦ rw e (upload-CountsOne r st)
    | inr e ↦ rw e (elsewhere-CountsOne r st)
  ]

counted_by : (b : Bool) (n : ℕ) → (if b then suc n else n) ≡ unit_of b + n
counted_by true n = omega arith
counted_by false n = omega arith

-- What has been counted, and what is found.
abbrev Balanced : Classified → Classified → ℕ → Type 0
Balanced st st' found =
    st'.total_assets_scanned + reported st ≡ st.total_assets_scanned + (reported st' + found)

module _ (scan : Scan) where
  original-Balanced :
      (asset : CatalogAssetRow) (o : Option String) (st : Classified)
      → Balanced st (classify_original scan asset o st) (unit_of (is_found_path scan o))
  original-Balanced asset none st = omega arith
  original-Balanced asset (some path) st =
      let counted = record st { total_assets_scanned = suc st.total_assets_scanned } in
      let (same, one) = resolved-CountsOne scan asset path (resolve scan.roots path) counted in
      omega (arith, same, one)

  asset-Balanced :
      (asset : CatalogAssetRow) (st : Classified)
      → Balanced st (classify_asset scan asset st) (unit_of (is_found scan asset))
  unfolding classify_asset is_found
  asset-Balanced asset st = original-Balanced asset (truthy_path asset.original_path) st

  assets-Balanced :
      (assets : List CatalogAssetRow) (st : Classified)
      → Balanced st (classify_assets scan assets st) (count_by (is_found scan) assets)
  unfolding classify_assets
  assets-Balanced [] st = omega arith
  assets-Balanced (asset ∷ assets) st =
      let one = asset-Balanced asset st in
      let rest = assets-Balanced assets (classify_asset scan asset st) in
      omega (arith, one, rest, counted_by (is_found scan asset) (count_by (is_found scan) assets))

  -- Every asset with an original path is counted exactly once: the number of the scanned assets is
  -- the number of the suppressed motion videos, of the unmapped rows, of the rows that are missing
  -- on storage, and of the assets whose original the index of the uploads holds.
  pub classify-counts :
      (assets : List CatalogAssetRow)
      → (classify_assets scan assets nothing_classified).total_assets_scanned
        ≡ reported (classify_assets scan assets nothing_classified)
          + count_by (is_found scan) assets
  classify-counts assets = omega (arith, assets-Balanced assets nothing_classified)
