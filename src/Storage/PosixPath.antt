-- ===== src/Storage/PosixPath.antt =====
-- `PurePosixPath` of Python's pathlib, as immich_doctor/storage/path_mapping.py uses it.
use immich_doctor.Base.{
  String, Bool, not, ◌&&◌, Option, none, some, List, [], ◌∷◌, ◌++◌, ◌<>◌, filter_by, is_empty,
  contains, Eq, eq_of, ◌==◌, string_eq, if◌then◌else◌,
}
use immich_doctor.Storage.Text.{is_slash, split_slash, join_slash}

-- The `root` of a path: empty, one slash, or exactly two.
pub data PathRoot : Type 0 where
  relative absolute double_slash : PathRoot

abbrev pub path_root_discrete : Discrete PathRoot
path_root_discrete = hlevel

instance abbrev pub path_root_eq : Eq PathRoot
path_root_eq = eq_of path_root_discrete

-- `names` are the parts without the root.
pub record PurePosixPath : Type 0 where
  pub root : PathRoot
  pub names : List String

-- What follows the first slash.
abbrev pub rooted : String → PathRoot × String
rooted String.[] = (absolute, "")
rooted (String.◌∷◌ c String.[]) =
    if is_slash c then (double_slash, "") else (absolute, String.◌∷◌ c "")
rooted (String.◌∷◌ c (String.◌∷◌ d s)) =
    if is_slash c && not (is_slash d)
    then (double_slash, String.◌∷◌ d s)
    else (absolute, String.◌∷◌ c (String.◌∷◌ d s))

-- `posixpath.splitroot`
unfoldable pub split_root : String → PathRoot × String
split_root String.[] = (relative, "")
split_root (String.◌∷◌ c s) = if is_slash c then rooted s else (relative, String.◌∷◌ c s)

-- `part not in {"", "."}`
abbrev pub is_name : String → Bool
is_name w = not (contains ("" ∷ "." ∷ []) w)

-- `PurePosixPath(text)`
unfoldable pub parse_path : String → PurePosixPath
unfolding split_root split_slash
parse_path s =
    let (r, rel) = split_root s in record { root = r; names = filter_by is_name (split_slash rel) }

abbrev pub root_text : PathRoot → String
root_text relative = ""
root_text absolute = "/"
root_text double_slash = "//"

-- `path.as_posix()`, which is `str(path)`
unfoldable pub as_posix : PurePosixPath → String
unfolding join_slash
as_posix p =
    if p.root == relative && is_empty p.names then "." else root_text p.root <> join_slash p.names

-- The names after a prefix.
unfoldable pub after_prefix : List String → List String → Option (List String)
after_prefix [] ws = some ws
after_prefix (v ∷ vs) [] = none
after_prefix (v ∷ vs) (w ∷ ws) = let rest = after_prefix vs ws in if v == w then rest else none

-- `path.relative_to(prefix)`, with `none` for its `ValueError`; the result has no root.
unfoldable pub names_relative_to : PurePosixPath → PurePosixPath → Option (List String)
unfolding after_prefix
names_relative_to path prefix =
    if path.root == prefix.root then after_prefix prefix.names path.names else none

-- `path / other`
abbrev pub join_parsed : PurePosixPath → PurePosixPath → PurePosixPath
join_parsed p q =
    if q.root == relative then record { root = p.root; names = p.names ++ q.names } else q

-- `path / text`
unfoldable pub join_path : PurePosixPath → String → PurePosixPath
unfolding parse_path
join_path p s = join_parsed p (parse_path s)

-- `path.joinpath(*texts)`
unfoldable pub join_all : PurePosixPath → List String → PurePosixPath
unfolding join_path
join_all p [] = p
join_all p (s ∷ ss) = join_all (join_path p s) ss

-- `PurePosixPath(*texts)`
unfoldable pub path_of_parts : List String → PurePosixPath
unfolding join_all
path_of_parts ss = join_all (record { root = relative; names = [] }) ss
