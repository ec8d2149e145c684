-- ===== src/Integrity/Analyzer/Verdict.antt =====
-- What an inspected file is found to be, and which files are inspected.
use immich_doctor.Base.{
  ℕ, ◌≡◌, refl, Bool, false, not, ◌&&◌, String, arith, ◌==◌, nat_eq, string_eq, Option, none, some,
}
use immich_doctor.Effects.Result.{
  PyError, Result, ok, raised, file_not_found, permission_error, os_error,
}
use immich_doctor.Effects.World.{World}
use immich_doctor.Filesystem.{stat_node}
use immich_doctor.Integrity.Models.{file_ok, file_integrity_status_eq}
use immich_doctor.Integrity.Analyzer.{
  Subject, probe_media, mismatches, stat_failed, read_failed, probed, read_checked, stat_checked,
  inspect_file,
}
use immich_doctor.Integrity.Probes.{Inspection, ProbeResult, map_probe_status}

map_probe_status-fails : (c : Option String) → (map_probe_status c == file_ok) ≡ false
unfolding map_probe_status
map_probe_status-fails none = refl
map_probe_status-fails (some c) = ground arith

module _ (i : Inspection) where
  -- The checks that a healthy file passes, in the order in which they are made.
  abbrev pub probe_passes : Subject → ProbeResult → Bool
  probe_passes s probe = probe.ok && not (mismatches i s probe)

  abbrev pub read_passes : World → Subject → Result (Unit {0}) → Bool
  read_passes w s (ok _) = probe_passes s (probe_media i w s.path s.media_kind)
  read_passes w s (raised _) = false

  abbrev pub stat_passes : World → Subject → Result ℕ → Bool
  stat_passes w s (ok _) = not (i.st_size w s.path == 0) && read_passes w s (i.read_probe w s.path)
  stat_passes w s (raised _) = false

  abbrev pub is_healthy : World → Subject → Bool
  is_healthy w s = stat_passes w s (stat_node (w.files s.path))

  probed-status :
      (s : Subject) (n : ℕ) (probe : ProbeResult)
      → ((probed i s n probe).status == file_ok) ≡ probe_passes s probe
  unfolding probed
  probed-status s n probe = ground (arith, map_probe_status-fails probe.error_category)

  read_failed-status :
      (s : Subject) (n : ℕ) (e : PyError) → ((read_failed i s n e).status == file_ok) ≡ false
  unfolding read_failed
  read_failed-status s n file_not_found = ground arith
  read_failed-status s n permission_error = ground arith
  read_failed-status s n (os_error k) = ground arith
  read_failed-status s n e = ground arith

  stat_failed-status : (s : Subject) (e : PyError) → ((stat_failed i s e).status == file_ok) ≡ false
  unfolding stat_failed
  stat_failed-status s file_not_found = refl
  stat_failed-status s permission_error = refl
  stat_failed-status s (os_error k) = refl
  stat_failed-status s e = ground arith

  read_checked-status :
      (w : World) (s : Subject) (n : ℕ) (r : Result (Unit {0}))
      → ((read_checked i w s n r).status == file_ok) ≡ read_passes w s r
  unfolding read_checked
  read_checked-status w s n (ok u) = probed-status s n (probe_media i w s.path s.media_kind)
  read_checked-status w s n (raised e) = read_failed-status s n e

  stat_checked-status :
      (w : World) (s : Subject) (r : Result ℕ)
      → ((stat_checked i w s r).status == file_ok) ≡ stat_passes w s r
  unfolding stat_checked
  stat_checked-status w s (ok n) =
      ground (arith, read_checked-status w s (i.st_size w s.path) (i.read_probe w s.path))
  stat_checked-status w s (raised e) = stat_failed-status s e

  pub inspect_file-healthy :
      (w : World) (s : Subject) → ((inspect_file i w s).status == file_ok) ≡ is_healthy w s
  unfolding inspect_file
  inspect_file-healthy w s = stat_checked-status w s (stat_node (w.files s.path))
