-- ===== src/EmptyFolders/Scan/Empty.antt =====
-- Which directories are empty, and which are found (immich_doctor/storage/empty_folders/scanner.py).
use immich_doctor.Base.{
  ℕ, String, Bool, true, false, not, ◌&&◌, ◌≡◌, refl, ap, ◌∙◌, Option, none, some, List, [], ◌∷◌,
  ◌++◌, all, nat_eq, arith,
}
use immich_doctor.Storage.PosixPath.{PurePosixPath}
use immich_doctor.EmptyFolders.Scan.{
  Directory, listing, Entries, nil, symlink, file, other, failing, subdirectory, RootScan,
  insert_child, sort_children, scan_all, has_blocking, scan_directory, scan_children,
}

abbrev mutual
  -- Everything below the directory is a directory, and can be listed.
  pub only_directories : Directory → Bool
  only_directories (listing (some m) es) = false
  only_directories (listing none es) = all_directories es

  pub all_directories : Entries → Bool
  all_directories nil = true
  all_directories (symlink n es) = false
  all_directories (file n es) = false
  all_directories (other n es) = false
  all_directories (failing n m es) = false
  all_directories (subdirectory n d es) = only_directories d && all_directories es

-- The entries hold the directory under the name.
pub data HasChild (n : String) (d : Directory) : Entries → Type 0 where
  first : {es : Entries} → HasChild n d (subdirectory n d es)
  past_symlink : {m : String} {es : Entries} → HasChild n d es → HasChild n d (symlink m es)
  past_file : {m : String} {es : Entries} → HasChild n d es → HasChild n d (file m es)
  past_other : {m : String} {es : Entries} → HasChild n d es → HasChild n d (other m es)
  past_failing : {m t : String} {es : Entries} → HasChild n d es → HasChild n d (failing m t es)
  past_directory :
      {m : String} {c : Directory} {es : Entries}
      → HasChild n d es
      → HasChild n d (subdirectory m c es)

-- The directory stands at the names below the other.
pub data Holds : Directory → List String → Directory → Type 0 where
  itself : (d : Directory) → Holds d [] d
  inside :
      {e : Option String} {es : Entries} {n : String} {c : Directory} {ns : List String}
      {d : Directory}
      → HasChild n c es
      → Holds c ns d
      → Holds (listing e es) (n ∷ ns) d

abbrev pub empty_leaf : Directory
empty_leaf = listing none nil

abbrev all_empty : List (String × RootScan) → Bool
all_empty = all (λ c. c.1.is_empty)

insert-all_empty :
    (c : String × RootScan) (l : List (String × RootScan))
    → all_empty (insert_child c l) ≡ (c.1.is_empty && all_empty l)
insert-all_empty c [] = refl
insert-all_empty c (d ∷ l) = ground (arith, insert-all_empty c l)

sort-all_empty : (l : List (String × RootScan)) → all_empty (sort_children l) ≡ all_empty l
sort-all_empty [] = refl
sort-all_empty (c ∷ l) =
    insert-all_empty c (sort_children l) ∙ ap (λ b. c.1.is_empty && b) (sort-all_empty l)

scan_all-is_empty : (l : List (String × RootScan)) → (scan_all l).is_empty ≡ all_empty l
scan_all-is_empty [] = refl
scan_all-is_empty (c ∷ l) = ap (λ b. c.1.is_empty && b) (scan_all-is_empty l)

children-is_empty :
    (l : List (String × RootScan)) → (scan_all (sort_children l)).is_empty ≡ all_empty l
children-is_empty l = scan_all-is_empty (sort_children l) ∙ sort-all_empty l

module _ (root_slug : String) (root_path : PurePosixPath)
    (stat : PurePosixPath → Option (ℕ × String)) where
  mutual
    unfolding scan_directory

    directory-is_empty :
        (names : List String) (d : Directory)
        → (scan_directory root_slug root_path stat names d).is_empty ≡ only_directories d
    directory-is_empty names (listing (some m) es) = refl
    directory-is_empty names (listing none es) =
        ap (λ b. not (has_blocking es) && b)
          (children-is_empty (scan_children root_slug root_path stat names es))
        ∙ entries-is_empty names es

    entries-is_empty :
        (names : List String) (es : Entries)
        → (not (has_blocking es) && all_empty (scan_children root_slug root_path stat names es))
          ≡ all_directories es
    entries-is_empty names nil = refl
    entries-is_empty names (symlink n es) = refl
    entries-is_empty names (file n es) = refl
    entries-is_empty names (other n es) = refl
    entries-is_empty names (failing n m es) = refl
    entries-is_empty names (subdirectory n d es) =
        ground (arith, directory-is_empty (names ++ (n ∷ [])) d, entries-is_empty names es)
