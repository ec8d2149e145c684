-- ===== src/Storage/Text.antt =====
-- The text methods of Python that the storage paths use.
use immich_doctor.Base.{
  String, Bool, true, not, ◌&&◌, ◌||◌, List, [], ◌∷◌, ◌<>◌, contains, leb, ◌==◌, nat_eq, string_eq,
  if◌then◌else◌,
}
use text.Mathlib.Text.{starts_with}
use Prim.Native.Char.{Char, code}

abbrev pub is_slash : Char → Bool
is_slash c = code c == 47

-- The white space of `str.strip`.
abbrev pub is_space : Char → Bool
is_space c =
    let n = code c in
    (leb 9 n && leb n 13)
    || (leb 28 n && leb n 32)
    || (leb 8192 n && leb n 8202)
    || contains (133 ∷ 160 ∷ 5760 ∷ 8232 ∷ 8233 ∷ 8239 ∷ 8287 ∷ 12288 ∷ []) n

unfoldable pub lstrip : String → String
lstrip String.[] = ""
lstrip (String.◌∷◌ c s) = let rest = lstrip s in if is_space c then rest else String.◌∷◌ c s

-- A character before a text that is stripped on the right.
abbrev pub before_stripped : Char → String → String
before_stripped c String.[] = if is_space c then "" else String.◌∷◌ c ""
before_stripped c s = String.◌∷◌ c s

unfoldable pub rstrip : String → String
rstrip String.[] = ""
rstrip (String.◌∷◌ c s) = before_stripped c (rstrip s)

-- `text.strip()`
unfoldable pub strip : String → String
unfolding lstrip rstrip
strip s = rstrip (lstrip s)

-- `text.replace("\\", "/")`
unfoldable pub with_slashes : String → String
with_slashes String.[] = ""
with_slashes (String.◌∷◌ c s) =
    let rest = with_slashes s in if code c == 92 then "/" <> rest else String.◌∷◌ c rest

abbrev pub prepend : Char → List String → List String
prepend c [] = String.◌∷◌ c "" ∷ []
prepend c (w ∷ ws) = String.◌∷◌ c w ∷ ws

-- `text.split("/")`
unfoldable pub split_slash : String → List String
split_slash String.[] = "" ∷ []
split_slash (String.◌∷◌ c s) =
    let rest = split_slash s in if is_slash c then "" ∷ rest else prepend c rest

-- `"/".join(words)`
unfoldable pub join_slash : List String → String
join_slash [] = ""
join_slash (w ∷ []) = w
join_slash (w ∷ v ∷ ws) = w <> ("/" <> join_slash (v ∷ ws))

unfoldable pub has_no_slash : String → Bool
has_no_slash String.[] = true
has_no_slash (String.◌∷◌ c s) = not (is_slash c) && has_no_slash s

-- `text.endswith(suffix)`
unfoldable pub text_ends_with : String → String → Bool
text_ends_with String.[] suffix = suffix == ""
text_ends_with (String.◌∷◌ c s) suffix = String.◌∷◌ c s == suffix || text_ends_with s suffix

-- `part in text`
unfoldable pub has_infix : String → String → Bool
has_infix String.[] part = part == ""
has_infix (String.◌∷◌ c s) part = starts_with (String.◌∷◌ c s) part || has_infix s part
