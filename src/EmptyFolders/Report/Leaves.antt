-- ===== src/EmptyFolders/Report/Leaves.antt =====
-- What the report of a scan finds (immich_doctor/storage/empty_folders/scanner.py).
use immich_doctor.Base.{
  String, inl, inr, false, ◌≡◌, Option, List, [], ◌∷◌, ◌<>◌, All, In, Bool-cases, is_empty, ◌==◌,
}
use immich_doctor.Core.Models.{fail, check_status_eq}
use immich_doctor.Storage.PosixPath.{PurePosixPath}
use immich_doctor.Storage.PathMapping.{StorageSettings}
use immich_doctor.EmptyFolders.Scan.{EmptyDirectoryFinding}
use immich_doctor.EmptyFolders.Scan.Found.{All-append, All-map, IsLeafOf, scan-leaves}
use immich_doctor.EmptyFolders.Report.{
  comes_first, insert_finding, sort_findings, StorageAnswers, effective_roots, scanned_root,
  ScannedRoots, scan_root, scan_roots, started, scan_storage,
}

module _ (P : EmptyDirectoryFinding → Type 0) where
  All-insert :
      (f : EmptyDirectoryFinding) (l : List EmptyDirectoryFinding)
      → P f
      → All P l
      → All P (insert_finding f l)
  All-insert f [] h g = (h, tt)
  All-insert f (d ∷ l) h g = elim (Bool-cases (comes_first f d)) [
    | inl e ↦ rw e (h, g)
    | inr e ↦ rw e (g.0, All-insert f l h g.1)
  ]

  All-sort : (l : List EmptyDirectoryFinding) → All P l → All P (sort_findings l)
  All-sort [] h = tt
  All-sort (f ∷ l) h = All-insert f (sort_findings l) h.0 (All-sort l h.1)

module _ (answers : StorageAnswers) where
  -- The check of the root does not fail.
  abbrev pub IsReadable : String × PurePosixPath → Type 0
  IsReadable (slug, path) =
      ((answers.readable_check ("empty_folder_root_" <> slug) path).status == fail) ≡ false

  -- The finding is an empty directory below one of the roots that can be read.
  abbrev pub IsLeafBelow : List (String × PurePosixPath) → EmptyDirectoryFinding → Type 0
  IsLeafBelow roots f =
      (slug : String) × (path : PurePosixPath) × In (slug, path) roots
      × IsReadable (slug, path)
      × IsLeafOf slug path answers.stat [] (answers.tree path) f

  root-leaves :
      (P : EmptyDirectoryFinding → Type 0) (root : String × PurePosixPath)
      (st : ScannedRoots answers)
      → (IsReadable root → All P (scanned_root answers root.0 root.1).findings)
      → All P st.findings
      → All P (scan_root answers root st).findings
  root-leaves P (slug, path) st new old =
      elim (Bool-cases
        ((answers.readable_check ("empty_folder_root_" <> slug) path).status == fail)) [
          | inl e ↦ rw e old
          | inr e ↦
              rw e (All-append P st.findings (scanned_root answers slug path).findings old (new e))
        ]

  roots-leaves :
      (P : EmptyDirectoryFinding → Type 0) (roots : List (String × PurePosixPath))
      (st : ScannedRoots answers)
      → ((root : String × PurePosixPath)
          → In root roots
          → IsReadable root
          → All P (scanned_root answers root.0 root.1).findings)
      → All P st.findings
      → All P (scan_roots answers roots st).findings
  unfolding scan_roots
  roots-leaves P [] st new old = old
  roots-leaves P (root ∷ roots) st new old =
      roots-leaves P roots (scan_root answers root st) (λ r at. new r (In.there at))
        (root-leaves P root st (new root In.here) old)

  -- Every finding of a report is a directory, at one or more names below one of the roots that are
  -- scanned and whose check does not fail, that is listed without error and without a single
  -- entry.
  pub scan_storage-leaves :
      (settings : StorageSettings) (root_slug : Option String)
      → All
          (IsLeafBelow (effective_roots answers settings root_slug))
          (scan_storage answers settings root_slug).findings
  unfolding scan_storage
  scan_storage-leaves settings root_slug =
      let roots = effective_roots answers settings root_slug in
      let P = IsLeafBelow roots in
      elim (Bool-cases (is_empty roots)) [
        | inl e ↦ rw e tt
        | inr e ↦ rw e (
            All-sort P (scan_roots answers roots (started answers roots)).findings (
              roots-leaves P roots (started answers roots)
                (λ root at readable.
                  All-map (IsLeafOf root.0 root.1 answers.stat [] (answers.tree root.1)) P _
                    (λ f leaf. (root.0, root.1, at, readable, leaf))
                    (scan-leaves root.0 root.1 answers.stat (answers.tree root.1)))
                tt))
      ]
