-- ===== src/Storage/Names.antt =====
-- The names of a path: text without slashes that `pathlib` keeps.
use immich_doctor.Base.{
  String, true, false, ◌≡◌, refl, ap, ◌∙◌, inl, inr, List, [], ◌∷◌, ◌<>◌, filter_by, All,
  Bool-cases, string_eq, arith,
}
use Prim.Native.Char.{Char}
use Prim.Native.String.append
use immich_doctor.Storage.Text.{is_slash, prepend, split_slash, join_slash, has_no_slash}
use immich_doctor.Storage.PosixPath.{is_name}

abbrev pub IsName : String → Type 0
IsName w = (is_name w ≡ true) × (has_no_slash w ≡ true)

abbrev HasNoSlash : String → Type 0
HasNoSlash w = has_no_slash w ≡ true

prepend-HasNoSlash :
    (c : Char) (ws : List String)
    → is_slash c ≡ false
    → All HasNoSlash ws
    → All HasNoSlash (prepend c ws)
unfolding has_no_slash
prepend-HasNoSlash c [] e h = ground arith
prepend-HasNoSlash c (w ∷ ws) e h = (ground arith, h.1)

split_slash-HasNoSlash : (s : String) → All HasNoSlash (split_slash s)
unfolding split_slash has_no_slash
split_slash-HasNoSlash String.[] = (refl, tt)
split_slash-HasNoSlash (String.◌∷◌ c s) = elim (Bool-cases (is_slash c)) [
  | inl e ↦ rw e (refl, split_slash-HasNoSlash s)
  | inr e ↦ rw e (prepend-HasNoSlash c (split_slash s) e (split_slash-HasNoSlash s))
]

-- The first character of a text without slashes is none, and so are the others.
first_no_slash :
    (c : Char) (s : String) → HasNoSlash (String.◌∷◌ c s) → (is_slash c ≡ false) × HasNoSlash s
unfolding has_no_slash
first_no_slash c s h = (ground arith, ground arith)

pub slash_append : (t : String) → "/" <> t ≡ String.◌∷◌ "/" t
slash_append t = append.cons "/" "" t ∙ ap (String.◌∷◌ "/") (append.nil t)

pub split_one : (w : String) → HasNoSlash w → split_slash w ≡ w ∷ []
unfolding split_slash
split_one String.[] h = refl
split_one (String.◌∷◌ c s) h = let h' = first_no_slash c s h in rw (h'.0, split_one s h'.1) refl

split-slash_between :
    (w t : String) → HasNoSlash w → split_slash (w <> ("/" <> t)) ≡ w ∷ split_slash t
unfolding split_slash
split-slash_between String.[] t h = rw (append.nil ("/" <> t), slash_append t) refl
split-slash_between (String.◌∷◌ c s) t h =
    let h' = first_no_slash c s h in
    rw (append.cons c s ("/" <> t), h'.0, split-slash_between s t h'.1) refl

split-join :
    (w : String) (ws : List String)
    → All HasNoSlash (w ∷ ws)
    → split_slash (join_slash (w ∷ ws)) ≡ w ∷ ws
unfolding join_slash
split-join w [] h = split_one w h.0
split-join w (v ∷ ws) h =
    split-slash_between w (join_slash (v ∷ ws)) h.0 ∙ ap (λ l. w ∷ l) (split-join v ws h.1)

pub filter_by-IsName : (ws : List String) → All IsName ws → filter_by is_name ws ≡ ws
filter_by-IsName [] h = refl
filter_by-IsName (w ∷ ws) h = rw (h.0.0, filter_by-IsName ws h.1) refl

names-IsName : (ws : List String) → All HasNoSlash ws → All IsName (filter_by is_name ws)
names-IsName [] h = tt
names-IsName (w ∷ ws) h = elim (Bool-cases (is_name w)) [
  | inl e ↦ rw e ((e, h.0), names-IsName ws h.1)
  | inr e ↦ rw e (names-IsName ws h.1)
]

-- The names of a parsed text are names.
pub split_names-IsName : (s : String) → All IsName (filter_by is_name (split_slash s))
split_names-IsName s = names-IsName _ (split_slash-HasNoSlash s)

IsName-HasNoSlash : (ws : List String) → All IsName ws → All HasNoSlash ws
IsName-HasNoSlash [] h = tt
IsName-HasNoSlash (w ∷ ws) h = (h.0.1, IsName-HasNoSlash ws h.1)

-- Joining names and splitting the text gives the names back.
pub split_names-join :
    (w : String) (ws : List String)
    → All IsName (w ∷ ws)
    → filter_by is_name (split_slash (join_slash (w ∷ ws))) ≡ w ∷ ws
split_names-join w ws h =
    ap (filter_by is_name) (split-join w ws (IsName-HasNoSlash (w ∷ ws) h))
    ∙ filter_by-IsName (w ∷ ws) h

-- A joined text of names begins with a character that is no slash.
pub join-begins :
    (w : String) (ws : List String)
    → All IsName (w ∷ ws)
    → (c : Char) × (t : String) × (join_slash (w ∷ ws) ≡ String.◌∷◌ c t) × (is_slash c ≡ false)
unfolding join_slash
join-begins String.[] ws h = absurd (ground (arith, h.0.0))
join-begins (String.◌∷◌ c s) [] h = (c, s, refl, (first_no_slash c s h.0.1).0)
join-begins (String.◌∷◌ c s) (v ∷ ws) h =
    (c, s <> ("/" <> join_slash (v ∷ ws)), append.cons c s _, (first_no_slash c s h.0.1).0)
