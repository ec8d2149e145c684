-- ===== src/Integrity/Installation.antt =====
-- What an inspection takes from its surroundings.
use immich_doctor.Base.{ℕ, String, Bool, Option, none, some, List, nat_eq, ◌==◌, if◌then◌else◌}
use immich_doctor.Core.Value.{Fields}
use immich_doctor.Core.Models.{CheckResult}
use immich_doctor.Effects.World.{World}
use immich_doctor.Integrity.Probes.{AssetRow, AssetFileRow}

-- What the settings, the paths and the database answer; an empty DSN counts as none.
-- `library_holds` is whether the resolved path lies below the resolved library root, `missing` what
-- the profile detection misses, and `assets`, `candidates` and `asset_files` are queries.
pub record Installation : Type 0 where
  pub environment : String
  pub manifests_path : String
  pub postgres_dsn : Option String
  pub has_library_root : Bool
  pub is_absolute : String → Bool
  pub library_holds : World → String → Bool
  pub validate_connection : World → CheckResult
  pub missing : World → Option Fields
  pub ffprobe_available : World → Bool
  pub assets : World → ℕ → ℕ → List AssetRow
  pub candidates : World → ℕ → ℕ → List AssetRow
  pub asset_files : World → List String → List AssetFileRow

-- `DEFAULT_BATCH_LIMIT`
abbrev pub default_batch_limit : ℕ
default_batch_limit = 100

-- `limit or self.batch_limit`
unfoldable pub batch_size_of : Option ℕ → ℕ
batch_size_of none = default_batch_limit
batch_size_of (some n) = if n == 0 then default_batch_limit else n
