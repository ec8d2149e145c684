-- ===== src/Catalog/Snapshots/Ready.antt =====
-- When the catalog is ready (`prepare_snapshot_state`).
use immich_doctor.Base.{
  insert_sorted, sorted, String, Bool, true, false, not, ◌&&◌, ◌≡◌, ◌↔◌, refl, ap, ◌∙◌, sym, ◌⊎◌,
  inl, inr, some, List, [], ◌∷◌, map, Dict, lookup, insert, lookup-insert, filter_by, is_empty,
  contains, All, In, In-All, All-In, In-filter_by, filter_by-In, filter_by-empty, Bool-cases,
  Option-cases, ◌==◌, string_eq, eq_iff, if◌then◌else◌, arith,
}
use mathlib.Core.Path.{subst}
use mathlib.Core.Option
use immich_doctor.Catalog.Models.{SnapshotRow, TextPlatform}
use immich_doctor.Catalog.Snapshots.{
  is_some, is_current, rows_by_slug, snapshots_by_slug, is_missing, is_stale, stale_slugs,
  missing_slugs, CatalogAnswers, prepare_snapshot_state,
}

-- The root has a committed snapshot that is current.
pub record IsCovered (rows : List SnapshotRow) (slug : String) : Type 0 where
  pub row : SnapshotRow
  pub listed : In row rows
  pub of_slug : row.root_slug ≡ slug
  pub current : is_current row ≡ true

inserted-cases :
    (k j : String) (v : SnapshotRow) (d : Dict SnapshotRow) (w : SnapshotRow)
    → lookup j (insert k v d) ≡ some w
    → (lookup j d ≡ some w) ⊎ ((k ≡ j) × (v ≡ w))
inserted-cases k j v d w e =
    let known = λ (b : Bool) (f : (k == j) ≡ b).
      sym (ap (λ c. if c then some v else lookup j d) f) ∙ sym (lookup-insert k j v d) ∙ e in
    elim (Bool-cases (k == j)) [
      | inl f ↦ inr ((eq_iff k j).0 f, Option.some-injective v w (known true f))
      | inr f ↦ inl (known false f)
    ]

rows_by_slug-finds :
    (d : Dict SnapshotRow) (rows : List SnapshotRow) (slug : String) (row : SnapshotRow)
    → lookup slug (rows_by_slug d rows) ≡ some row
    → (lookup slug d ≡ some row) ⊎ (In row rows × (row.root_slug ≡ slug))
rows_by_slug-finds d [] slug row e = inl e
rows_by_slug-finds d (first ∷ rows) slug row e =
    elim (rows_by_slug-finds (insert first.root_slug first d) rows slug row e) [
      | inr (at, same) ↦ inr (In.there at, same)
      | inl f ↦ elim (inserted-cases first.root_slug slug first d row f) [
        | inl g ↦ inl g
        | inr (k, same) ↦
            inr
              (subst (λ r. In r (first ∷ rows)) same In.here, ap (λ r. r.root_slug) (sym same) ∙ k)
      ]
    ]

rows_by_slug-keeps :
    (d : Dict SnapshotRow) (rows : List SnapshotRow) (slug : String)
    → is_some (lookup slug d) ≡ true
    → is_some (lookup slug (rows_by_slug d rows)) ≡ true
rows_by_slug-keeps d [] slug e = e
rows_by_slug-keeps d (first ∷ rows) slug e =
    rows_by_slug-keeps (insert first.root_slug first d) rows slug
      (ap is_some (lookup-insert first.root_slug slug first d) ∙ ground arith)

rows_by_slug-has :
    (d : Dict SnapshotRow) (rows : List SnapshotRow) (row : SnapshotRow)
    → In row rows
    → is_some (lookup row.root_slug (rows_by_slug d rows)) ≡ true
rows_by_slug-has d [] row at = elim at [ ]
rows_by_slug-has d (first ∷ rows) _ In.here =
    rows_by_slug-keeps (insert first.root_slug first d) rows first.root_slug (
      ap is_some (lookup-insert first.root_slug first.root_slug first d)
      ∙ ground (arith, eq_iff first.root_slug first.root_slug))
rows_by_slug-has d (first ∷ rows) row (In.there at) =
    rows_by_slug-has (insert first.root_slug first d) rows row at

insert_sorted-nonempty : (s : String) (l : List String) → is_empty (insert_sorted s l) ≡ false
insert_sorted-nonempty s [] = refl
insert_sorted-nonempty s (t ∷ l) = ground arith

sorted-empty : (l : List String) → is_empty (sorted l) ≡ is_empty l
sorted-empty [] = refl
sorted-empty (s ∷ l) = insert_sorted-nonempty s (sorted l)

is_empty-map {ℓ κ} :
    {A : Type ℓ} {B : Type κ} (f : A → B) (l : List A) → is_empty (map f l) ≡ is_empty l
is_empty-map f [] = refl
is_empty-map f (x ∷ l) = refl

module _ (effective : List String) (rows : List SnapshotRow) where
  IsCovered-found :
      (slug : String) → is_some (lookup slug (snapshots_by_slug rows)) ≡ true → IsCovered rows slug
  unfolding snapshots_by_slug
  IsCovered-found slug e = elim (Option-cases (lookup slug (snapshots_by_slug rows))) [
    | inl f ↦ absurd (ground arith)
    | inr (row, f) ↦ elim (rows_by_slug-finds [] (filter_by is_current rows) slug row f) [
      | inl g ↦ absurd (ground arith)
      | inr (at, same) ↦
          let (at', now) = In-filter_by is_current rows at in
          record { row = row; listed = at'; of_slug = same; current = now }
    ]
  ]

  found-IsCovered :
      (slug : String) → IsCovered rows slug → is_some (lookup slug (snapshots_by_slug rows)) ≡ true
  unfolding snapshots_by_slug
  found-IsCovered slug c =
      subst (λ s. is_some (lookup s (snapshots_by_slug rows)) ≡ true) c.of_slug
        (rows_by_slug-has [] (filter_by is_current rows) c.row
          (filter_by-In is_current c.listed c.current))

  stale_slugs-empty :
      (is_empty (stale_slugs effective rows) ≡ true)
      ↔ All (λ row. is_stale effective row ≡ false) rows
  unfolding stale_slugs
  stale_slugs-empty =
      let same =
        sorted-empty (map (λ row. row.root_slug) (filter_by (is_stale effective) rows))
        ∙ is_empty-map (λ row. row.root_slug) (filter_by (is_stale effective) rows) in
      (
        λ e. (filter_by-empty (is_stale effective) rows).0 (sym same ∙ e),
        λ h. same ∙ (filter_by-empty (is_stale effective) rows).1 h,
      )

contains-empty : (l : List String) (s : String) → is_empty l ≡ true → contains l s ≡ false
contains-empty [] s e = refl
contains-empty (t ∷ l) s e = absurd (ground arith)

and_left : (a b : Bool) → (a && b) ≡ true → a ≡ true
and_left a b e = ground arith

and_right : (a b : Bool) → (a && b) ≡ true → b ≡ true
and_right a b e = ground arith

and_intro : (a b : Bool) → a ≡ true → b ≡ true → (a && b) ≡ true
and_intro a b e f = ground arith

found_of : (a b : Bool) → (not a && not b) ≡ false → b ≡ false → a ≡ true
found_of a b e f = ground arith

covered_of : (a b : Bool) → a ≡ true → (not a && not b) ≡ false
covered_of a b e = ground arith

-- The catalog is ready exactly if every root that is scanned has a committed snapshot that is
-- current, and no root that is scanned has one that is not current.
pub prepare-ready :
    (platform : TextPlatform) (answers : CatalogAnswers)
    → ((prepare_snapshot_state platform answers).ready ≡ true) ↔ (
        All (IsCovered answers.latest_snapshots) answers.scan_roots
        × All (λ row. is_stale answers.scan_roots row ≡ false) answers.latest_snapshots)
unfolding prepare_snapshot_state missing_slugs
prepare-ready platform answers =
    let effective = answers.scan_roots in
    let rows = answers.latest_snapshots in
    let by_slug = snapshots_by_slug rows in
    let stale = stale_slugs effective rows in
    let absent = is_missing by_slug stale in
    (
      λ e.
          let none_stale = and_right (is_empty (filter_by absent effective)) (is_empty stale) e in
          let none_absent = (filter_by-empty absent effective).0 (and_left _ (is_empty stale) e) in
          (
            All-In (IsCovered rows) effective (λ slug at. IsCovered-found effective rows slug (
                found_of (is_some (lookup slug by_slug)) (contains stale slug)
                  (In-All (λ slug. absent slug ≡ false) none_absent at)
                  (contains-empty stale slug none_stale))),
            (stale_slugs-empty effective rows).0 none_stale,
          ),
      λ (covered, current).
          and_intro _ _
            ((filter_by-empty absent effective).1 (
              All-In (λ slug. absent slug ≡ false) effective
                (λ slug at.
                  covered_of (is_some (lookup slug by_slug)) (contains stale slug)
                    (found-IsCovered effective rows slug (In-All (IsCovered rows) covered at)))))
            ((stale_slugs-empty effective rows).1 current),
    )
