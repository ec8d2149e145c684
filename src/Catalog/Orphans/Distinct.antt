-- ===== src/Catalog/Orphans/Distinct.antt =====
-- What the rows of orphans promise (immich_doctor/catalog/consistency_state.py).
use immich_doctor.Base.{
  String, Bool, true, false, ◌||◌, ◌≡◌, inl, inr, Option, none, some, List, [], ◌∷◌, ◌++◌, Dict,
  lookup, any, All, All-snoc, contains, Bool-cases, string_eq, arith, eq_iff,
}
use immich_doctor.Storage.PathMapping.{ResolvedStoragePath, resolve}
use immich_doctor.Catalog.Models.{CatalogAssetRow, CatalogAssetFileRow, OrphanRow, truthy_path}
use immich_doctor.Catalog.Classify.{index_of, Scan}
use immich_doctor.Catalog.Orphans.{
  has_key, orphan_row, append_resolved, append_orphan_row, append_encoded_video, append_derivatives,
  derivatives_of, orphans_of_original, orphans_of_asset, orphans_of,
}

-- The file of the row stands in the index of its root, and its original not in the uploads.
abbrev pub IsOrphan : Scan → OrphanRow → Type 0
IsOrphan scan row =
    (contains (index_of scan.indexes row.root_slug) row.relative_path ≡ true)
    × (contains scan.uploads_index row.original_relative_path ≡ false)

-- No row has the key of a row before it.
abbrev pub AreDistinct : List OrphanRow → Type 0
AreDistinct [] = Unit {0}
AreDistinct (row ∷ rows) =
    All (λ other. has_key row.asset_id row.derivative_type row.relative_path other ≡ false) rows
    × AreDistinct rows

abbrev AreOrphans : Scan → List OrphanRow → Type 0
AreOrphans scan rows = All (IsOrphan scan) rows × AreDistinct rows

has_key_symm :
    (r s : OrphanRow)
    → has_key r.asset_id r.derivative_type r.relative_path s ≡ false
    → has_key s.asset_id s.derivative_type s.relative_path r ≡ false
has_key_symm r s e = ground (
  arith,
  eq_iff s.asset_id r.asset_id,
  eq_iff r.asset_id s.asset_id,
  eq_iff s.derivative_type r.derivative_type,
  eq_iff r.derivative_type s.derivative_type,
  eq_iff s.relative_path r.relative_path,
  eq_iff r.relative_path s.relative_path,
)

or_false : (a b : Bool) → (a || b) ≡ false → (a ≡ false) × (b ≡ false)
or_false a b e = (ground arith, ground arith)

any-first :
    (p : OrphanRow → Bool) (r : OrphanRow) (l : List OrphanRow)
    → any p (r ∷ l) ≡ false
    → (p r ≡ false) × (any p l ≡ false)
any-first p r l e = or_false (p r) (any p l) e

snoc-AreDistinct :
    (rows : List OrphanRow) (row : OrphanRow)
    → AreDistinct rows
    → any (has_key row.asset_id row.derivative_type row.relative_path) rows ≡ false
    → AreDistinct (rows ++ (row ∷ []))
snoc-AreDistinct [] row h e = (tt, tt)
snoc-AreDistinct (first ∷ rows) row h e =
    let (f, g) = any-first _ first rows e in
    (All-snoc _ rows row h.0 (has_key_symm row first f), snoc-AreDistinct rows row h.1 g)

snoc-AreOrphans :
    (scan : Scan) (rows : List OrphanRow) (row : OrphanRow)
    → AreOrphans scan rows
    → IsOrphan scan row
    → any (has_key row.asset_id row.derivative_type row.relative_path) rows ≡ false
    → AreOrphans scan (rows ++ (row ∷ []))
snoc-AreOrphans scan rows row h o e =
    (All-snoc (IsOrphan scan) rows row h.0 o, snoc-AreDistinct rows row h.1 e)

module _ (scan : Scan) (asset_id original : String)
    (gone : contains scan.uploads_index original ≡ false) where
  resolved-AreOrphans :
      (derivative_type path : String) (o : Option ResolvedStoragePath) (rows : List OrphanRow)
      → AreOrphans scan rows
      → AreOrphans scan (append_resolved scan asset_id original derivative_type path o rows)
  resolved-AreOrphans derivative_type path none rows h = h
  resolved-AreOrphans derivative_type path (some r) rows h =
      elim (Bool-cases (contains (index_of scan.indexes r.root_slug) r.relative_path)) [
        | inr e ↦ rw e h
        | inl e ↦ elim (Bool-cases (any (has_key asset_id derivative_type r.relative_path) rows)) [
          | inl f ↦ rw (e, f) h
          | inr f ↦
              rw (e, f)
                (snoc-AreOrphans scan rows (orphan_row asset_id derivative_type path original r) h
                  (e, gone) f)
        ]
      ]

  append-AreOrphans :
      (derivative_type path : String) (rows : List OrphanRow)
      → AreOrphans scan rows
      → AreOrphans scan (append_orphan_row scan asset_id original derivative_type path rows)
  unfolding append_orphan_row
  append-AreOrphans derivative_type path rows h =
      resolved-AreOrphans derivative_type path (resolve scan.roots path) rows h

  video-AreOrphans :
      (o : Option String) (rows : List OrphanRow)
      → AreOrphans scan rows
      → AreOrphans scan (append_encoded_video scan asset_id original o rows)
  video-AreOrphans none rows h = h
  video-AreOrphans (some path) rows h = append-AreOrphans "encoded_video" path rows h

  derivatives-AreOrphans :
      (l : List CatalogAssetFileRow) (rows : List OrphanRow)
      → AreOrphans scan rows
      → AreOrphans scan (append_derivatives scan asset_id original l rows)
  derivatives-AreOrphans [] rows h = h
  derivatives-AreOrphans (d ∷ l) rows h =
      derivatives-AreOrphans l (append_orphan_row scan asset_id original d.file_type d.path rows)
        (append-AreOrphans d.file_type d.path rows h)

module _ (scan : Scan) (originals : Dict String) (asset_files : List CatalogAssetFileRow) where
  original-AreOrphans :
      (asset : CatalogAssetRow) (o : Option String) (rows : List OrphanRow)
      → AreOrphans scan rows
      → AreOrphans scan (orphans_of_original scan originals asset_files asset o rows)
  original-AreOrphans asset none rows h = h
  original-AreOrphans asset (some original) rows h =
      elim (Bool-cases (contains scan.uploads_index original)) [
        | inl e ↦ rw e h
        | inr e ↦ rw e (
            derivatives-AreOrphans scan asset.id original e
              (derivatives_of scan originals asset_files asset.id) _
              (video-AreOrphans scan asset.id original e (truthy_path asset.encoded_video_path) rows
                h))
      ]

  assets-AreOrphans :
      (assets : List CatalogAssetRow) (rows : List OrphanRow)
      → AreOrphans scan rows
      → AreOrphans scan (orphans_of scan originals asset_files assets rows)
  unfolding orphans_of orphans_of_asset
  assets-AreOrphans [] rows h = h
  assets-AreOrphans (asset ∷ assets) rows h =
      assets-AreOrphans assets (orphans_of_asset scan originals asset_files asset rows)
        (original-AreOrphans asset (lookup asset.id originals) rows h)

  -- Every row of an orphan names a file that stands in the index of its root and an original that
  -- does not stand in the index of the uploads, and no two rows have the same asset, derivative type
  -- and relative path.
  pub orphans-AreDistinct :
      (assets : List CatalogAssetRow)
      → All (IsOrphan scan) (orphans_of scan originals asset_files assets [])
        × AreDistinct (orphans_of scan originals asset_files assets [])
  orphans-AreDistinct assets = assets-AreOrphans assets [] (tt, tt)
