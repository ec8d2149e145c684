-- ===== src/Storage/PathMapping.antt =====
-- `ImmichStoragePathResolver` (immich_doctor/storage/path_mapping.py).
use immich_doctor.Base.{
  String, Bool, true, false, Option, none, some, List, [], ◌∷◌, Dict, lookup, filter_by, is_empty,
  ◌==◌, string_eq, if◌then◌else◌,
}
use mathlib.Core.Option
use immich_doctor.Storage.Text.{strip, with_slashes}
use immich_doctor.Storage.PosixPath.{
  absolute, PurePosixPath, is_name, parse_path, as_posix, names_relative_to, join_path, join_all,
  path_of_parts,
}

-- `_LEGACY_ROOT_PREFIX`
abbrev pub legacy_root_prefix : PurePosixPath
legacy_root_prefix = record { root = absolute; names = "usr" ∷ "src" ∷ "app" ∷ "upload" ∷ [] }

-- `_LEGACY_SEGMENTS_BY_ROOT`
abbrev pub legacy_segments_by_root : Dict String
legacy_segments_by_root =
    ("library", "library")
    ∷ ("uploads", "upload")
    ∷ ("thumbs", "thumbs")
    ∷ ("profile", "profile")
    ∷ ("video", "encoded-video")
    ∷ []

pub data MappingMode : Type 0 where
  runtime legacy : MappingMode

pub record ResolvedStoragePath : Type 0 where
  pub root_slug : String
  pub relative_path : String
  pub absolute_path : PurePosixPath
  pub mapping_mode : MappingMode

pub record RootMapping : Type 0 where
  pub slug : String
  pub root_path : PurePosixPath
  pub runtime_prefix : PurePosixPath
  pub legacy_prefix : Option PurePosixPath

-- The storage paths of the settings.
pub record StorageSettings : Type 0 where
  pub immich_library_root : Option PurePosixPath
  pub immich_uploads_path : Option PurePosixPath
  pub immich_thumbs_path : Option PurePosixPath
  pub immich_profile_path : Option PurePosixPath
  pub immich_video_path : Option PurePosixPath

abbrev pub configured_paths : StorageSettings → List (String × Option PurePosixPath)
configured_paths s =
    ("library", s.immich_library_root)
    ∷ ("uploads", s.immich_uploads_path)
    ∷ ("thumbs", s.immich_thumbs_path)
    ∷ ("profile", s.immich_profile_path)
    ∷ ("video", s.immich_video_path)
    ∷ []

unfoldable pub root_mapping : String → PurePosixPath → RootMapping
unfolding with_slashes parse_path as_posix join_path
root_mapping slug path = record {
  slug = slug;
  root_path = path;
  runtime_prefix = parse_path (with_slashes (as_posix path));
  legacy_prefix = elim (lookup slug legacy_segments_by_root) [
    | none ↦ none
    | some segment ↦ some (join_path legacy_root_prefix segment)
  ];
}

abbrev pub build_roots_of : List (String × Option PurePosixPath) → List RootMapping
build_roots_of [] = []
build_roots_of ((slug, none) ∷ l) = build_roots_of l
build_roots_of ((slug, some path) ∷ l) = root_mapping slug path ∷ build_roots_of l

-- `_build_roots`
unfoldable pub build_roots : StorageSettings → List RootMapping
build_roots s = build_roots_of (configured_paths s)

-- `_normalize`
unfoldable pub normalize_text : String → Option PurePosixPath
unfolding strip with_slashes parse_path
normalize_text path_text =
    let value = strip path_text in
    if value == "" then none else some (parse_path (with_slashes value))

-- The text of the parts of a relative path.
unfoldable pub relative_text : List String → String
unfolding path_of_parts as_posix
relative_text names =
    let parts = filter_by is_name names in
    if is_empty parts then "" else as_posix (path_of_parts parts)

-- `_relative_to`
unfoldable pub relative_to : PurePosixPath → PurePosixPath → Option String
unfolding names_relative_to relative_text
relative_to path prefix = Option.map relative_text (names_relative_to path prefix)

-- `_join_root`: the names of a relative path are its `parts`.
unfoldable pub join_root : PurePosixPath → String → PurePosixPath
unfolding parse_path join_all
join_root root_path relative_path =
    if relative_path == "" then root_path else join_all root_path ((parse_path relative_path).names)

unfoldable pub resolved_by : MappingMode → RootMapping → String → ResolvedStoragePath
unfolding join_root
resolved_by mode root relative = record {
  root_slug = root.slug;
  relative_path = relative;
  absolute_path = join_root root.root_path relative;
  mapping_mode = mode;
}

-- The first root whose prefix of the mode the path has.
abbrev pub prefix_of : MappingMode → RootMapping → Option PurePosixPath
prefix_of runtime root = some root.runtime_prefix
prefix_of legacy root = root.legacy_prefix

unfoldable pub relative_in : MappingMode → PurePosixPath → RootMapping → Option String
unfolding relative_to Option.bind
relative_in mode path root = Option.bind (prefix_of mode root) (relative_to path)

-- `if relative is not None: return ...`, and else the rest of the loop.
abbrev pub found_or :
    MappingMode
    → RootMapping
    → Option String
    → Option ResolvedStoragePath
    → Option ResolvedStoragePath
found_or mode root none rest = rest
found_or mode root (some relative) rest = some (resolved_by mode root relative)

-- One of the two loops of `resolve`.
abbrev pub first_match : MappingMode → PurePosixPath → List RootMapping → Option ResolvedStoragePath
first_match mode path [] = none
first_match mode path (root ∷ roots) =
    found_or mode root (relative_in mode path root) (first_match mode path roots)

abbrev pub else_match {ℓ} : {A : Type ℓ} → Option A → Option A → Option A
else_match none b = b
else_match (some a) b = some a

-- The two loops of `resolve`.
abbrev pub match_path : List RootMapping → PurePosixPath → Option ResolvedStoragePath
match_path roots path = else_match (first_match runtime path roots) (first_match legacy path roots)

unfoldable pub resolve : List RootMapping → String → Option ResolvedStoragePath
unfolding normalize_text Option.bind
resolve roots path_text = Option.bind (normalize_text path_text) (match_path roots)

-- `looks_like_legacy_immich_path`
unfoldable pub looks_like_legacy_immich_path : String → Bool
unfolding normalize_text relative_to
looks_like_legacy_immich_path path_text = elim (normalize_text path_text) [
  | none ↦ false
  | some path ↦ elim (relative_to path legacy_root_prefix) [ none ↦ false | some _ ↦ true ]
]
