-- ===== src/Integrity/Analyzer/Coverage.antt =====
-- Which files an inspection looks at.
use immich_doctor.Base.{
  ◌≡◌, refl, ◌∙◌, ap, Bool, true, false, List, [], ◌∷◌, ◌++◌, map, arith, ◌==◌, string_eq, String,
  filter_by,
}
use immich_doctor.Effects.World.{World}
use immich_doctor.Effects.Result.{Result, ok, raised, PyError, file_not_found, permission_error}
use immich_doctor.Filesystem.{stat_node}
use immich_doctor.Integrity.Models.{source, file_role_eq, FileIntegrityFinding}
use immich_doctor.Integrity.Analyzer.{
  Subject, probe_media, probed, read_failed, stat_failed, read_checked, stat_checked,
  source_subject, file_subject, file_role_of, files_of, inspect_file, inspect_records,
}
use immich_doctor.Integrity.Probes.{Inspection, AssetRow, AssetFileRow, ProbeResult}

abbrev pub is_source : FileIntegrityFinding → Bool
is_source f = f.file_role == source

abbrev pub sources_of : List FileIntegrityFinding → List FileIntegrityFinding
sources_of = filter_by is_source

module _ (i : Inspection) where
  -- The finding is about the subject.
  abbrev Concerns : Subject → FileIntegrityFinding → Type 0
  Concerns s f = (f.asset_id ≡ s.asset_id) × (f.file_role ≡ s.file_role) × (f.path ≡ s.path)

  probed-Concerns : (s : Subject) (n : _) (probe : ProbeResult) → Concerns s (probed i s n probe)
  unfolding probed
  probed-Concerns s n probe = ground arith

  read_failed-Concerns : (s : Subject) (n : _) (e : PyError) → Concerns s (read_failed i s n e)
  unfolding read_failed
  read_failed-Concerns s n permission_error = (refl, refl, refl)
  read_failed-Concerns s n e = ground arith

  stat_failed-Concerns : (s : Subject) (e : PyError) → Concerns s (stat_failed i s e)
  unfolding stat_failed
  stat_failed-Concerns s file_not_found = (refl, refl, refl)
  stat_failed-Concerns s permission_error = (refl, refl, refl)
  stat_failed-Concerns s e = ground arith

  read_checked-Concerns :
      (w : World) (s : Subject) (n : _) (r : Result (Unit {0}))
      → Concerns s (read_checked i w s n r)
  unfolding read_checked
  read_checked-Concerns w s n (ok u) = probed-Concerns s n (probe_media i w s.path s.media_kind)
  read_checked-Concerns w s n (raised e) = read_failed-Concerns s n e

  stat_checked-Concerns :
      (w : World) (s : Subject) (r : Result _) → Concerns s (stat_checked i w s r)
  unfolding stat_checked
  stat_checked-Concerns w s (ok n) =
      ground (arith, read_checked-Concerns w s (i.st_size w s.path) (i.read_probe w s.path))
  stat_checked-Concerns w s (raised e) = stat_failed-Concerns s e

  inspect_file-Concerns : (w : World) (s : Subject) → Concerns s (inspect_file i w s)
  unfolding inspect_file
  inspect_file-Concerns w s = stat_checked-Concerns w s (stat_node (w.files s.path))

  file_role_of-source : (t : String) → (file_role_of i t == source) ≡ false
  unfolding file_role_of
  file_role_of-source t = ground arith

  derivative_finding :
      (w : World) (row : AssetRow) (f : AssetFileRow)
      → is_source (inspect_file i w (file_subject i row f)) ≡ false
  unfolding file_subject
  derivative_finding w row f =
      let (a, r, p) = inspect_file-Concerns w (file_subject i row f) in
      ap (λ x. x == source) r ∙ file_role_of-source f.type

  source_finding :
      (w : World) (row : AssetRow) → is_source (inspect_file i w (source_subject i row)) ≡ true
  unfolding source_subject
  source_finding w row =
      let (a, r, p) = inspect_file-Concerns w (source_subject i row) in ap (λ x. x == source) r

  sources_of-derivatives :
      (w : World) (row : AssetRow) (fs : List AssetFileRow) (l : List FileIntegrityFinding)
      → sources_of (map (λ f. inspect_file i w (file_subject i row f)) fs ++ l) ≡ sources_of l
  sources_of-derivatives w row [] l = refl
  sources_of-derivatives w row (f ∷ fs) l =
      rw (derivative_finding w row f) (sources_of-derivatives w row fs l)

  -- With or without the derivatives, an inspection has one finding on the source of each asset of
  -- the batch, in the order of the batch.
  pub inspect_records-sources :
      (w : World) (rows : List AssetRow) (files : List AssetFileRow) (include_derivatives : Bool)
      → sources_of (inspect_records i w rows files include_derivatives)
        ≡ map (λ row. inspect_file i w (source_subject i row)) rows
  unfolding inspect_records
  inspect_records-sources w [] files b = refl
  inspect_records-sources w (row ∷ rows) files true = rw (source_finding w row) (
      ap (λ l. inspect_file i w (source_subject i row) ∷ l)
        (sources_of-derivatives w row (files_of i row.id files) _
          ∙ inspect_records-sources w rows files true))
  inspect_records-sources w (row ∷ rows) files false = rw (source_finding w row) (
      ap (λ l. inspect_file i w (source_subject i row) ∷ l)
        (inspect_records-sources w rows files false))
