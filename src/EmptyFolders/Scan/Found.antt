-- ===== src/EmptyFolders/Scan/Found.antt =====
-- What the findings are (immich_doctor/storage/empty_folders/scanner.py).
use immich_doctor.Base.{
  ℕ, String, Bool, true, false, not, ◌&&◌, ◌≡◌, refl, ap, ◌∙◌, sym, inl, inr, Option, none, some,
  List, [], ◌∷◌, ◌++◌, length, is_empty, All, Bool-cases, if◌then◌else◌, nat_eq, nat_beq_iff, arith,
}
use Prim.Native.String.{compare}
use text.Mathlib.Text.{is_le}
use mathlib.Core.Path.{ap₂, subst}
use mathlib.Core.List.{append-nil, append_assoc}
use immich_doctor.Storage.PosixPath.{PurePosixPath}
use immich_doctor.EmptyFolders.Scan.{
  Directory, listing, Entries, nil, symlink, file, other, failing, subdirectory,
  EmptyDirectoryFinding, RootScan, insert_child, sort_children, scan_all, is_zero, has_blocking,
  build_finding, own_finding, scan_directory, scan_children,
}
use immich_doctor.EmptyFolders.Scan.Empty.{
  HasChild, first, past_symlink, past_file, past_other, past_failing, past_directory, Holds, itself,
  inside, empty_leaf,
}

pub All-append {ℓ κ} :
    {A : Type ℓ} (P : A → Type κ) (xs ys : List A) → All P xs → All P ys → All P (xs ++ ys)
All-append P [] ys h g = g
All-append P (x ∷ xs) ys h g = (h.0, All-append P xs ys h.1 g)

pub All-map {ℓ κ} :
    {A : Type ℓ} (P Q : A → Type κ) (xs : List A) → ((x : A) → P x → Q x) → All P xs → All Q xs
All-map P Q [] f h = tt
All-map P Q (x ∷ xs) f h = (f x h.0, All-map P Q xs f h.1)

-- A property of the findings of every child.
abbrev OfChildren : (EmptyDirectoryFinding → Type 0) → List (String × RootScan) → Type 0
OfChildren P = All (λ c. All P c.1.findings)

module _ (P : EmptyDirectoryFinding → Type 0) where
  OfChildren-insert :
      (c : String × RootScan) (l : List (String × RootScan))
      → All P c.1.findings
      → OfChildren P l
      → OfChildren P (insert_child c l)
  OfChildren-insert c [] h g = (h, tt)
  OfChildren-insert c (d ∷ l) h g = elim (Bool-cases (is_le (compare c.0 d.0))) [
    | inl e ↦ rw e (h, (g.0, g.1))
    | inr e ↦ rw e (g.0, OfChildren-insert c l h g.1)
  ]

  OfChildren-sort : (l : List (String × RootScan)) → OfChildren P l → OfChildren P (sort_children l)
  OfChildren-sort [] h = tt
  OfChildren-sort (c ∷ l) h = OfChildren-insert c (sort_children l) h.0 (OfChildren-sort l h.1)

  OfChildren-scan_all :
      (l : List (String × RootScan)) → OfChildren P l → All P (scan_all l).findings
  OfChildren-scan_all [] h = tt
  OfChildren-scan_all (c ∷ l) h =
      All-append P c.1.findings (scan_all l).findings h.0 (OfChildren-scan_all l h.1)

unblocked : (a b : Bool) → (not a && b) ≡ true → a ≡ false
unblocked a b e = ground arith

module _ (root_slug : String) (root_path : PurePosixPath)
    (stat : PurePosixPath → Option (ℕ × String)) where
  -- The finding of an empty directory that stands at some names below the directory at `names`, and
  -- not at the root.
  abbrev pub IsLeafOf : List String → Directory → EmptyDirectoryFinding → Type 0
  IsLeafOf names d f =
      (ns : List String) × (f ≡ build_finding root_slug root_path stat (names ++ ns) 0)
      × (is_empty (names ++ ns) ≡ false)
      × Holds d ns empty_leaf

  abbrev IsLeafIn : List String → Entries → EmptyDirectoryFinding → Type 0
  IsLeafIn names es f =
      (n : String) × (c : Directory) × HasChild n c es × IsLeafOf (names ++ (n ∷ [])) c f

  leaf_within :
      (names : List String) (es : Entries) (f : EmptyDirectoryFinding)
      → IsLeafIn names es f
      → IsLeafOf names (listing none es) f
  leaf_within names es f (n, c, h, (ns, e, named, b)) = (
    n ∷ ns,
    e ∙ ap (λ l. build_finding root_slug root_path stat l 0) (append_assoc names (n ∷ []) ns),
    ap is_empty (sym (append_assoc names (n ∷ []) ns)) ∙ named,
    inside h b,
  )

  no_entries :
      (names : List String) (es : Entries)
      → has_blocking es ≡ false
      → is_zero (length (scan_children root_slug root_path stat names es)) ≡ true
      → es ≡ nil
  unfolding scan_directory
  no_entries names nil e z = refl
  no_entries names (symlink n es) e z = absurd (ground arith)
  no_entries names (file n es) e z = absurd (ground arith)
  no_entries names (other n es) e z = absurd (ground arith)
  no_entries names (failing n m es) e z = absurd (ground arith)
  no_entries names (subdirectory n d es) e z = absurd (ground arith)

  weaker :
      (names : List String) (es es' : Entries)
      → ((n : String) (c : Directory) → HasChild n c es → HasChild n c es')
      → (l : List (String × RootScan)) → OfChildren (IsLeafIn names es) l
      → OfChildren (IsLeafIn names es') l
  weaker names es es' f l h =
      All-map (λ c. All (IsLeafIn names es) c.1.findings)
        (λ c. All (IsLeafIn names es') c.1.findings) l
        (λ c g.
          All-map (IsLeafIn names es) (IsLeafIn names es') c.1.findings
            (λ x (n, d, at, leaf). (n, d, f n d at, leaf)) g)
        h

  own_finding-All :
      (P : EmptyDirectoryFinding → Type 0) (names : List String) (empty : Bool) (k : ℕ)
      → (empty ≡ true → is_empty names ≡ false → P (build_finding root_slug root_path stat names k))
      → All P (own_finding root_slug root_path stat names empty k)
  own_finding-All P [] empty k h = tt
  own_finding-All P (n ∷ names) true k h = (h refl refl, tt)
  own_finding-All P (n ∷ names) false k h = tt

  leaf_itself :
      (names : List String) (es : Entries) (k : ℕ)
      → is_zero k ≡ true
      → es ≡ nil
      → is_empty names ≡ false
      → IsLeafOf names (listing none es) (build_finding root_slug root_path stat names k)
  leaf_itself names es k z e named = (
    [],
    ap₂ (build_finding root_slug root_path stat) (sym (append-nil names)) ((nat_beq_iff k 0).0 z),
    ap is_empty (append-nil names) ∙ named,
    subst (λ e. Holds (listing none e) [] empty_leaf) (sym e) (itself empty_leaf),
  )

  own_leaf :
      (names : List String) (es : Entries) (below : Bool)
      → let k = length (scan_children root_slug root_path stat names es) in
        All (IsLeafOf names (listing none es)) (
          if is_zero k
          then own_finding root_slug root_path stat names (not (has_blocking es) && below) k
          else [])
  own_leaf names es below =
      let k = length (scan_children root_slug root_path stat names es) in
      elim (Bool-cases (is_zero k)) [
        | inl z ↦ rw z (
            own_finding-All (IsLeafOf names (listing none es)) names
              (not (has_blocking es) && below) k
              (λ e named.
                leaf_itself names es k z
                  (no_entries names es (unblocked (has_blocking es) below e) z) named))
        | inr z ↦ rw z tt
      ]

  mutual
    unfolding scan_directory

    directory-leaves :
        (names : List String) (d : Directory)
        → All (IsLeafOf names d) (scan_directory root_slug root_path stat names d).findings
    directory-leaves names (listing (some m) es) = tt
    directory-leaves names (listing none es) =
        let children = scan_children root_slug root_path stat names es in
        let P = IsLeafOf names (listing none es) in
        All-append P (scan_all (sort_children children)).findings _
          (All-map (IsLeafIn names es) P _ (leaf_within names es) (
            OfChildren-scan_all (IsLeafIn names es) (sort_children children)
              (OfChildren-sort (IsLeafIn names es) children (children-leaves names es))))
          (own_leaf names es (scan_all (sort_children children)).is_empty)

    children-leaves :
        (names : List String) (es : Entries)
        → OfChildren (IsLeafIn names es) (scan_children root_slug root_path stat names es)
    children-leaves names nil = tt
    children-leaves names (symlink m es) =
        weaker names es (symlink m es) (λ n c at. past_symlink at) _ (children-leaves names es)
    children-leaves names (file m es) =
        weaker names es (file m es) (λ n c at. past_file at) _ (children-leaves names es)
    children-leaves names (other m es) =
        weaker names es (other m es) (λ n c at. past_other at) _ (children-leaves names es)
    children-leaves names (failing m t es) =
        weaker names es (failing m t es) (λ n c at. past_failing at) _ (children-leaves names es)
    children-leaves names (subdirectory n d es) = (
      All-map (IsLeafOf (names ++ (n ∷ [])) d) (IsLeafIn names (subdirectory n d es)) _
          (λ f leaf. (n, d, first, leaf)) (directory-leaves (names ++ (n ∷ [])) d),
      weaker names es (subdirectory n d es) (λ n c at. past_directory at) _
          (children-leaves names es),
    )

  -- Every finding of a scan is a directory that is listed without error and without a single entry,
  -- at one or more names below the scanned directory that the finding carries.
  pub scan-leaves :
      (d : Directory) → All (IsLeafOf [] d) (scan_directory root_slug root_path stat [] d).findings
  scan-leaves d = directory-leaves [] d
