-- ===== src/Tests/EmptyFolders.antt =====
-- A scan of a small tree.
use immich_doctor.Base.{◌≡◌, refl, false, none, [], ◌∷◌, map, All}
use immich_doctor.Core.Value.{end}
use immich_doctor.Core.Models.{pass}
use immich_doctor.EmptyFolders.Scan.{
  Directory, listing, nil, file, subdirectory, build_finding, scan_directory,
}
use immich_doctor.EmptyFolders.Report.{StorageAnswers, effective_roots, scan_roots, scan_storage}
use immich_doctor.EmptyFolders.Report.Leaves.{IsLeafBelow, scan_storage-leaves}
use immich_doctor.Tests.Storage.{storage_code, uploads_only}

folders_code : Unit {0}
unfolding storage_code build_finding scan_directory effective_roots scan_roots scan_storage
folders_code = tt

-- `a` is empty, `b` holds the empty `c`, and `d` a file.
abbrev small_tree : Directory
small_tree = listing none (
    subdirectory "d" (listing none (file "x.jpg" nil)) (
      subdirectory "b" (listing none (subdirectory "c" (listing none nil) nil))
        (subdirectory "a" (listing none nil) nil)))

abbrev small_storage : StorageAnswers
small_storage = record {
  is_child_path = λ p q. false;
  readable_check = λ name path. record { name = name; status = pass; message = ""; details = end };
  tree = λ path. small_tree;
  stat = λ path. none;
}

finds_leaves :
    map (λ f. f.relative_path) (scan_storage small_storage uploads_only none).findings
    ≡ "b/c" ∷ "a" ∷ []
unfolding folders_code
finds_leaves = refl

finds_orphan_parents :
    map (λ f. f.relative_path) (scan_storage small_storage uploads_only none).orphan_parents
    ≡ "b" ∷ []
unfolding folders_code
finds_orphan_parents = refl

scan_storage-leaves_example :
    All
      (IsLeafBelow small_storage (effective_roots small_storage uploads_only none))
      (scan_storage small_storage uploads_only none).findings
scan_storage-leaves_example = scan_storage-leaves small_storage uploads_only none
