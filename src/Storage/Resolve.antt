-- ===== src/Storage/Resolve.antt =====
-- What `resolve` promises (immich_doctor/storage/path_mapping.py).
use immich_doctor.Base.{
  String, ◌≡◌, ◌↔◌, refl, ap, ◌∙◌, sym, ◌⊎◌, inl, inr, Option, none, some, List, [], ◌∷◌, All, In,
  In-All, Option-cases, Bool-cases, ◌==◌, string_eq, if◌then◌else◌, arith,
}
use mathlib.Core.Path.{subst, ap₂}
use mathlib.Core.Option
use immich_doctor.Storage.Text.{strip, with_slashes}
use immich_doctor.Storage.PosixPath.{PurePosixPath, parse_path, as_posix}
use immich_doctor.Storage.PathMapping.{
  RootMapping, ResolvedStoragePath, MappingMode, runtime, legacy, StorageSettings, root_mapping,
  configured_paths, build_roots_of, build_roots, normalize_text, first_match, else_match,
  match_path, resolve,
}
use immich_doctor.Storage.Printed.{IsPath, under, parse_path-IsPath, parse_path-as_posix}
use immich_doctor.Storage.Located.{IsBelow, MappedBy, first_match-MappedBy, first_match-finds}

normalize_text-IsPath :
    (s : String) (path : PurePosixPath) → normalize_text s ≡ some path → IsPath path
unfolding normalize_text
normalize_text-IsPath s path e = elim (Bool-cases (strip s == "")) [
  | inl f ↦ absurd (ground arith)
  | inr f ↦
      subst IsPath
        (Option.some-injective _ _
          (sym (ap (λ b. if b then none else some (parse_path (with_slashes (strip s)))) f) ∙ e))
        (parse_path-IsPath (with_slashes (strip s)))
]

resolve-normal :
    (roots : List RootMapping) (s : String) (r : ResolvedStoragePath)
    → (resolve roots s ≡ some r)
      ↔ ((path : PurePosixPath) × (normalize_text s ≡ some path) × (match_path roots path ≡ some r))
unfolding resolve
resolve-normal roots s r = Option.bind-eq-some_iff (normalize_text s) (match_path roots)

else_match-cases {ℓ} :
    {A : Type ℓ} (o p : Option A) (a : A)
    → else_match o p ≡ some a
    → (o ≡ some a) ⊎ ((o ≡ none) × (p ≡ some a))
else_match-cases none p a e = inr (refl, e)
else_match-cases (some b) p a e = inl e

module _ (roots : List RootMapping) (s : String) where
  -- If `resolve` maps a text, then the path of the text stands at some names below the prefix, in
  -- the mode of the result, of one of the roots, and the result has the slug of this root, the
  -- text of these names, and for its absolute path these names below the path of the root.
  pub resolve-MappedBy :
      (r : ResolvedStoragePath)
      → resolve roots s ≡ some r
      → (path : PurePosixPath) × (normalize_text s ≡ some path)
        × (mode : MappingMode) × MappedBy mode roots path r
  resolve-MappedBy r e =
      let (path, n, m) = (resolve-normal roots s r).0 e in
      let is_path = normalize_text-IsPath s path n in
      elim (else_match-cases (first_match runtime path roots) _ r m) [
        | inl f ↦ (path, n, runtime, first_match-MappedBy runtime path roots r is_path f)
        | inr (_, f) ↦ (path, n, legacy, first_match-MappedBy legacy path roots r is_path f)
      ]

  match-finds :
      (path : PurePosixPath) (mode : MappingMode) (root : RootMapping)
      → In root roots
      → IsBelow mode root path
      → (r : ResolvedStoragePath) × (match_path roots path ≡ some r)
  match-finds path runtime root at b =
      let (r, f) = first_match-finds runtime path roots root at b in
      (r, ap (λ o. else_match o (first_match legacy path roots)) f)
  match-finds path legacy root at b = elim (Option-cases (first_match runtime path roots)) [
    | inl f ↦ let (r, g) = first_match-finds legacy path roots root at b in (r, ap₂ else_match f g)
    | inr (r, f) ↦ (r, ap (λ o. else_match o (first_match legacy path roots)) f)
  ]

  -- `resolve` maps a text exactly if the text is not blank and its path stands below the runtime
  -- prefix or the legacy prefix of one of the roots.
  pub resolve-some_iff : ((r : ResolvedStoragePath) × (resolve roots s ≡ some r)) ↔ (
      (path : PurePosixPath) × (normalize_text s ≡ some path)
      × (mode : MappingMode) × (root : RootMapping) × In root roots
      × IsBelow mode root path)
  resolve-some_iff = (
    λ (r, e).
        let (path, n, mode, m) = resolve-MappedBy r e in (path, n, mode, m.root, m.listed, m.below),
    λ (path, n, mode, root, at, b).
        let (r, m) = match-finds path mode root at b in
        (r, (resolve-normal roots s r).1 (path, n, m)),
  )

  -- A runtime prefix wins over every legacy prefix: if the path of the text stands below the
  -- runtime prefix of one of the roots, then the text is mapped in the runtime mode.
  pub resolve-runtime_first :
      (path : PurePosixPath) (root : RootMapping) (r : ResolvedStoragePath)
      → normalize_text s ≡ some path
      → In root roots
      → IsBelow runtime root path
      → resolve roots s ≡ some r
      → r.mapping_mode ≡ runtime
  resolve-runtime_first path root r n at b e =
      let (r', f) = first_match-finds runtime path roots root at b in
      let m =
        (resolve-normal roots s r').1
          (path, n, ap (λ o. else_match o (first_match legacy path roots)) f) in
      let same = Option.some-injective r r' (sym e ∙ m) in
      let found = first_match-MappedBy runtime path roots r' (normalize_text-IsPath s path n) f in
      ap (λ r. r.mapping_mode) (same ∙ found.mapped)

-- A configured path is one that `pathlib` built from a text without backslashes.
abbrev pub IsPlain : Option PurePosixPath → Type 0
IsPlain none = Unit {0}
IsPlain (some p) = IsPath p × (with_slashes (as_posix p) ≡ as_posix p)

build_roots_of-prefix :
    (l : List (String × Option PurePosixPath))
    → All (λ c. IsPlain c.1) l
    → All (λ root. root.runtime_prefix ≡ root.root_path) (build_roots_of l)
unfolding root_mapping
build_roots_of-prefix [] h = tt
build_roots_of-prefix ((slug, none) ∷ l) h = build_roots_of-prefix l h.1
build_roots_of-prefix ((slug, some p) ∷ l) h =
    (ap parse_path h.0.1 ∙ parse_path-as_posix p h.0.0, build_roots_of-prefix l h.1)

mapped-runtime :
    (mode : MappingMode) (root : RootMapping) (path : PurePosixPath) (b : IsBelow mode root path)
    → root.runtime_prefix ≡ root.root_path
    → mode ≡ runtime
    → path ≡ under root.root_path b.names
mapped-runtime runtime root path b h e =
    b.stands ∙ ap (λ p. under p b.names) (sym (Option.some-injective _ _ b.has_prefix) ∙ h)
mapped-runtime legacy root path b h e = absurd (ground arith)

-- Where the configured paths hold no backslashes, a text that is mapped in the runtime mode names
-- the very path to which it is mapped.
pub resolve-runtime_path :
    (settings : StorageSettings) (s : String) (r : ResolvedStoragePath)
    → All (λ c. IsPlain c.1) (configured_paths settings)
    → resolve (build_roots settings) s ≡ some r
    → r.mapping_mode ≡ runtime
    → normalize_text s ≡ some r.absolute_path
unfolding build_roots
resolve-runtime_path settings s r plain e mode_is =
    let (path, n, mode, m) = resolve-MappedBy (build_roots settings) s r e in
    let prefix_is = In-All _ (build_roots_of-prefix (configured_paths settings) plain) m.listed in
    let same = ap (λ r. r.mapping_mode) (sym m.mapped) ∙ mode_is in
    n
    ∙ ap some (
        mapped-runtime mode m.root path m.below prefix_is same
        ∙ ap (λ r. r.absolute_path) (sym m.mapped))
