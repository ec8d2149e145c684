-- ===== src/Filesystem.antt =====
-- The file modes of immich_doctor/adapters/filesystem.py.
use Prim.Native.Nat.{bit_or}
use immich_doctor.Base.{ℕ, ◌+◌, ◌*◌, ◌/◌, ◌%◌, String, true, false, ◌==◌, string_eq, if◌then◌else◌}
use immich_doctor.Effects.Result.{Result, ok, raised, file_not_found, permission_error, os_error}
use immich_doctor.Effects.World.{World, Node, absent, inaccessible, faulty, present, M, ◌>>=◌}

-- `stat.S_IMODE`
abbrev pub s_imode : ℕ → ℕ
s_imode st_mode = st_mode % 4096

-- `stat.S_IRUSR` and `stat.S_IRGRP`
abbrev pub s_irusr : ℕ
s_irusr = 0o400

abbrev pub s_irgrp : ℕ
s_irgrp = 0o040

abbrev pub stat_node : Node → Result ℕ
stat_node absent = raised file_not_found
stat_node inaccessible = raised permission_error
stat_node (faulty errno) = raised (os_error errno)
stat_node (present st_mode owned) = ok st_mode

-- `path.stat().st_mode`
unfoldable pub stat_path : String → M ℕ
stat_path p w = (stat_node (w.files p), w)

abbrev pub set_file : String → Node → World → World
set_file p n w = record w { files = λ q. if q == p then n else w.files q }

-- `chmod` keeps the bits of the file's type.
unfoldable pub chmod_node : String → ℕ → Node → M (Unit {0})
chmod_node p mode absent w = (raised file_not_found, w)
chmod_node p mode inaccessible w = (raised permission_error, w)
chmod_node p mode (faulty errno) w = (raised (os_error errno), w)
chmod_node p mode (present st_mode false) w = (raised permission_error, w)
chmod_node p mode (present st_mode true) w =
    (ok tt, set_file p (present (st_mode / 4096 * 4096 + s_imode mode) true) w)

-- `path.chmod(mode)`
unfoldable pub set_permissions : String → ℕ → M (Unit {0})
unfolding chmod_node
set_permissions p mode w = chmod_node p mode (w.files p) w

unfoldable pub add_read_permissions : String → M (Unit {0})
unfolding set_permissions stat_path
add_read_permissions p = do
  current_mode ← stat_path p
  set_permissions p (bit_or (bit_or current_mode s_irusr) s_irgrp)
