-- ===== src/Storage/Printed.antt =====
-- Printing and parsing of paths, and what joins of names give.
use immich_doctor.Base.{
  String, true, false, ◌≡◌, ◌↔◌, refl, ap, ◌∙◌, sym, inl, inr, some, List, [], ◌∷◌, ◌++◌, ◌<>◌, All,
  ◌==◌, string_eq, Bool-cases, arith, eq_iff,
}
use Prim.Native.Char.{Char}
use Prim.Native.String.append
use mathlib.Core.Path.{ap₂}
use mathlib.Core.List.{append-nil, append_assoc}
use immich_doctor.Storage.Text.{is_slash, split_slash, join_slash}
use immich_doctor.Storage.PosixPath.{
  PathRoot, relative, absolute, double_slash, path_root_eq, PurePosixPath, rooted, split_root,
  parse_path, root_text, as_posix, after_prefix, names_relative_to, join_parsed, join_path,
  join_all, path_of_parts,
}
use immich_doctor.Storage.Names.{
  IsName, slash_append, split_names-IsName, split_names-join, join-begins,
}

-- A path whose names are names.
abbrev pub IsPath : PurePosixPath → Type 0
IsPath p = All IsName p.names

pub parse_path-IsPath : (s : String) → IsPath (parse_path s)
unfolding parse_path
parse_path-IsPath s = split_names-IsName (split_root s).1

rooted-absolute :
    (c : Char) (t : String)
    → is_slash c ≡ false
    → rooted (String.◌∷◌ c t) ≡ (absolute, String.◌∷◌ c t)
rooted-absolute c String.[] f = rw f refl
rooted-absolute c (String.◌∷◌ d t) f = rw f refl

rooted-double :
    (c : Char) (t : String)
    → is_slash c ≡ false
    → rooted (String.◌∷◌ "/" (String.◌∷◌ c t)) ≡ (double_slash, String.◌∷◌ c t)
rooted-double c t f = rw f refl

double_append : (t : String) → "//" <> t ≡ String.◌∷◌ "/" (String.◌∷◌ "/" t)
double_append t = append.cons "/" "/" t ∙ ap (String.◌∷◌ "/") (slash_append t)

split_root-printed :
    (r : PathRoot) (w : String) (ws : List String)
    → All IsName (w ∷ ws)
    → split_root (root_text r <> join_slash (w ∷ ws)) ≡ (r, join_slash (w ∷ ws))
unfolding split_root
split_root-printed relative w ws h =
    let (c, t, e, f) = join-begins w ws h in rw (append.nil (join_slash (w ∷ ws)), e, f) refl
split_root-printed absolute w ws h =
    let (c, t, e, f) = join-begins w ws h in
    rw (slash_append (join_slash (w ∷ ws)), e) (rooted-absolute c t f)
split_root-printed double_slash w ws h =
    let (c, t, e, f) = join-begins w ws h in
    rw (double_append (join_slash (w ∷ ws)), e) (rooted-double c t f)

pub printed-names :
    (r : PathRoot) (w : String) (ws : List String)
    → as_posix (record { root = r; names = w ∷ ws }) ≡ root_text r <> join_slash (w ∷ ws)
unfolding as_posix
printed-names relative w ws = refl
printed-names absolute w ws = refl
printed-names double_slash w ws = refl

pub printed-parsed :
    (r : PathRoot) (ws : List String)
    → All IsName ws
    → parse_path (as_posix (record { root = r; names = ws })) ≡ record { root = r; names = ws }
unfolding parse_path
printed-parsed relative [] h = unfold as_posix split_root split_slash in refl
printed-parsed absolute [] h = unfold as_posix split_root split_slash in refl
printed-parsed double_slash [] h = unfold as_posix split_root split_slash in refl
printed-parsed r (w ∷ ws) h =
    rw (printed-names r w ws, split_root-printed r w ws h, split_names-join w ws h) refl

-- Parsing the text of a path gives the path back.
pub parse_path-as_posix : (p : PurePosixPath) → IsPath p → parse_path (as_posix p) ≡ p
parse_path-as_posix p h = printed-parsed p.root p.names h

-- The path of further names below a path.
abbrev pub under : PurePosixPath → List String → PurePosixPath
under p ws = record { root = p.root; names = p.names ++ ws }

parse_path-name :
    (w : String) → IsName w → parse_path w ≡ record { root = relative; names = w ∷ [] }
unfolding join_slash
parse_path-name w h =
    ap parse_path (sym (printed-names relative w [] ∙ append.nil w))
    ∙ printed-parsed relative (w ∷ []) (h, tt)

join_path-name : (p : PurePosixPath) (w : String) → IsName w → join_path p w ≡ under p (w ∷ [])
unfolding join_path
join_path-name p w h = ap (join_parsed p) (parse_path-name w h)

pub join_all-names :
    (p : PurePosixPath) (ws : List String) → All IsName ws → join_all p ws ≡ under p ws
unfolding join_all
join_all-names p [] h = ap (λ l. record { root = p.root; names = l }) (sym (append-nil p.names))
join_all-names p (w ∷ ws) h =
    ap (λ q. join_all q ws) (join_path-name p w h.0)
    ∙ join_all-names (under p (w ∷ [])) ws h.1
    ∙ ap (λ l. record { root = p.root; names = l }) (append_assoc p.names (w ∷ []) ws)

pub path_of_parts-names :
    (ws : List String) → All IsName ws → path_of_parts ws ≡ record { root = relative; names = ws }
unfolding path_of_parts
path_of_parts-names ws h = join_all-names (record { root = relative; names = [] }) ws h

pub after_prefix-some : (vs ws us : List String) → after_prefix vs ws ≡ some us → ws ≡ vs ++ us
unfolding after_prefix
after_prefix-some [] ws us h = ground arith
after_prefix-some (v ∷ vs) [] us h = absurd (ground arith)
after_prefix-some (v ∷ vs) (w ∷ ws) us h = ground (arith, eq_iff v w, after_prefix-some vs ws us)

pub after_prefix-append : (vs us : List String) → after_prefix vs (vs ++ us) ≡ some us
unfolding after_prefix
after_prefix-append [] us = refl
after_prefix-append (v ∷ vs) us = ground (arith, eq_iff v v, after_prefix-append vs us)

same_root : (r : PathRoot) → (r == r) ≡ true
same_root relative = refl
same_root absolute = refl
same_root double_slash = refl

names_relative-under :
    (path prefix : PurePosixPath) (ws : List String)
    → names_relative_to path prefix ≡ some ws
    → path ≡ under prefix ws
unfolding names_relative_to
names_relative-under path prefix ws h = elim (Bool-cases (path.root == prefix.root)) [
  | inl e ↦
      let same = (path_root_eq.same_iff path.root prefix.root).0 e in
      let below = after_prefix-some prefix.names path.names ws (ground arith) in
      ap₂ (λ r l. record { root = r; names = l }) same below
  | inr e ↦ absurd (ground arith)
]

under-names_relative :
    (path prefix : PurePosixPath) (ws : List String)
    → path ≡ under prefix ws
    → names_relative_to path prefix ≡ some ws
unfolding names_relative_to
under-names_relative path prefix ws h =
    rw (ap (λ p. p.root) h, ap (λ p. p.names) h, same_root prefix.root)
      (after_prefix-append prefix.names ws)

-- What is relative to a prefix stands below it.
pub names_relative_to-under :
    (path prefix : PurePosixPath) (ws : List String)
    → (names_relative_to path prefix ≡ some ws) ↔ (path ≡ under prefix ws)
names_relative_to-under path prefix ws =
    (names_relative-under path prefix ws, under-names_relative path prefix ws)
