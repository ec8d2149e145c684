-- ===== src/Tests/Storage.antt =====
-- Path mapping at concrete settings.
use immich_doctor.Base.{String, ◌≡◌, ◌↔◌, refl, none, some, List, [], ◌∷◌, In}
use mathlib.Core.Option
use immich_doctor.Storage.Text.{
  strip, lstrip, rstrip, with_slashes, split_slash, join_slash, has_no_slash,
}
use immich_doctor.Storage.PosixPath.{
  absolute, PurePosixPath, split_root, parse_path, as_posix, after_prefix, names_relative_to,
  join_path, join_all, path_of_parts,
}
use immich_doctor.Storage.PathMapping.{
  RootMapping, ResolvedStoragePath, MappingMode, runtime, legacy, StorageSettings, root_mapping,
  build_roots, normalize_text, relative_text, relative_to, join_root, resolved_by, relative_in,
  resolve, looks_like_legacy_immich_path,
}
use immich_doctor.Storage.Located.{IsBelow, MappedBy}
use immich_doctor.Storage.Resolve.{resolve-MappedBy, resolve-some_iff, resolve-runtime_path}

unfoldable pub storage_code : Unit {0}
unfolding lstrip rstrip strip with_slashes split_slash join_slash has_no_slash split_root parse_path
    as_posix after_prefix names_relative_to join_path join_all path_of_parts root_mapping
    build_roots normalize_text relative_text relative_to join_root resolved_by relative_in resolve
    looks_like_legacy_immich_path Option.bind
storage_code = tt

abbrev pub absolute_of : List String → PurePosixPath
absolute_of names = record { root = absolute; names = names }

abbrev pub uploads_only : StorageSettings
uploads_only = record {
  immich_library_root = none;
  immich_uploads_path = some (absolute_of ("data" ∷ "up" ∷ []));
  immich_thumbs_path = none;
  immich_profile_path = none;
  immich_video_path = none;
}

abbrev pub photo_mapped : MappingMode → ResolvedStoragePath
photo_mapped mode = record {
  root_slug = "uploads";
  relative_path = "x/y.jpg";
  absolute_path = absolute_of ("data" ∷ "up" ∷ "x" ∷ "y.jpg" ∷ []);
  mapping_mode = mode;
}

maps_untidy_text :
    resolve (build_roots uploads_only) " /data\\up/./x//y.jpg " ≡ some (photo_mapped runtime)
unfolding storage_code
maps_untidy_text = refl

maps_legacy_text :
    resolve (build_roots uploads_only) "/usr/src/app/upload/upload/x/y.jpg"
    ≡ some (photo_mapped legacy)
unfolding storage_code
maps_legacy_text = refl

resolve-MappedBy_example :
    (path : PurePosixPath) × (normalize_text "/data/up/x/y.jpg" ≡ some path)
    × (mode : MappingMode) × MappedBy mode (build_roots uploads_only) path (photo_mapped runtime)
unfolding storage_code
resolve-MappedBy_example =
    resolve-MappedBy (build_roots uploads_only) "/data/up/x/y.jpg" (photo_mapped runtime) refl

resolve-runtime_path_example :
    normalize_text "/data/up/x/y.jpg" ≡ some (absolute_of ("data" ∷ "up" ∷ "x" ∷ "y.jpg" ∷ []))
unfolding storage_code
resolve-runtime_path_example =
    resolve-runtime_path uploads_only "/data/up/x/y.jpg" (photo_mapped runtime)
      (tt, ((((refl, refl), ((refl, refl), tt)), refl), (tt, (tt, (tt, tt))))) refl refl

resolve-some_iff_example :
    ((r : ResolvedStoragePath) × (resolve (build_roots uploads_only) "/etc/passwd" ≡ some r)) ↔ (
      (path : PurePosixPath) × (normalize_text "/etc/passwd" ≡ some path)
      × (mode : MappingMode) × (root : RootMapping) × In root (build_roots uploads_only)
      × IsBelow mode root path)
resolve-some_iff_example = resolve-some_iff (build_roots uploads_only) "/etc/passwd"
