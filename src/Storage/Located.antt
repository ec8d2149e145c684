-- ===== src/Storage/Located.antt =====
-- Where the resolver finds a database path (immich_doctor/storage/path_mapping.py).
use immich_doctor.Base.{
  String, ◌≡◌, refl, ap, ◌∙◌, sym, inl, inr, Option, none, some, List, [], ◌∷◌, ◌++◌, All, In,
  Option-cases, string_eq, arith,
}
use Prim.Native.Char.{Char}
use Prim.Native.String.append
use Prim.Native.String.compare
use mathlib.Core.Path.{subst}
use mathlib.Core.Option
use mathlib.Core.List.{append-nil}
use immich_doctor.Storage.Text.{join_slash}
use immich_doctor.Storage.PosixPath.{relative, PurePosixPath, parse_path, as_posix, join_all}
use immich_doctor.Storage.PathMapping.{
  RootMapping, ResolvedStoragePath, MappingMode, relative_text, relative_to, join_root, resolved_by,
  prefix_of, relative_in, found_or, first_match,
}
use immich_doctor.Storage.Names.{IsName, filter_by-IsName, join-begins}
use immich_doctor.Storage.Printed.{
  IsPath, printed-names, printed-parsed, under, join_all-names, path_of_parts-names,
  names_relative_to-under,
}

-- The text of names below a root.
relative_text-names :
    (w : String) (ws : List String)
    → All IsName (w ∷ ws)
    → relative_text (w ∷ ws) ≡ as_posix (record { root = relative; names = w ∷ ws })
unfolding relative_text
relative_text-names w ws h = rw (filter_by-IsName (w ∷ ws) h, path_of_parts-names (w ∷ ws) h) refl

-- A text that is not empty is joined by its names.
join_root-parsed :
    (root : PurePosixPath) (s : String) (c : Char) (t : String)
    → s ≡ String.◌∷◌ c t
    → join_root root s ≡ join_all root ((parse_path s).names)
unfolding join_root
join_root-parsed root s c t e = rw (e, compare.cons-nil c t) refl

join_root-named :
    (root : PurePosixPath) (w : String) (ws : List String)
    → All IsName (w ∷ ws)
    → join_root root (relative_text (w ∷ ws)) ≡ under root (w ∷ ws)
join_root-named root w ws h =
    let (c, t, e, f) = join-begins w ws h in
    let shown = relative_text-names w ws h in
    join_root-parsed root (relative_text (w ∷ ws)) c t
      (shown ∙ printed-names relative w ws ∙ append.nil (join_slash (w ∷ ws)) ∙ e)
    ∙ ap (λ s. join_all root ((parse_path s).names)) shown
    ∙ ap (λ p. join_all root p.names) (printed-parsed relative (w ∷ ws) h)
    ∙ join_all-names root (w ∷ ws) h

-- The join of a root with the relative text of names stands at these names below the root.
join_root-relative :
    (root : PurePosixPath) (ws : List String)
    → All IsName ws
    → join_root root (relative_text ws) ≡ under root ws
join_root-relative root [] h =
    unfold join_root relative_text in
    ap (λ l. record { root = root.root; names = l }) (sym (append-nil root.names))
join_root-relative root (w ∷ ws) h = join_root-named root w ws h

-- What a mapping of names below a root is.
abbrev pub located : MappingMode → RootMapping → List String → ResolvedStoragePath
located mode root names = record {
  root_slug = root.slug;
  relative_path = relative_text names;
  absolute_path = under root.root_path names;
  mapping_mode = mode;
}

resolved_by-located :
    (mode : MappingMode) (root : RootMapping) (names : List String)
    → All IsName names
    → resolved_by mode root (relative_text names) ≡ located mode root names
unfolding resolved_by
resolved_by-located mode root names h =
    ap (λ p. record (located mode root names) { absolute_path = p })
      (join_root-relative root.root_path names h)

-- The path stands at the names below the prefix that the root has in the mode.
pub record IsBelow (mode : MappingMode) (root : RootMapping) (path : PurePosixPath) : Type 0 where
  pub prefix : PurePosixPath
  pub names : List String
  pub has_prefix : prefix_of mode root ≡ some prefix
  pub stands : path ≡ under prefix names

relative_in-IsBelow :
    (mode : MappingMode) (path : PurePosixPath) (root : RootMapping) (relative : String)
    → relative_in mode path root ≡ some relative
    → (b : IsBelow mode root path) × (relative ≡ relative_text b.names)
unfolding relative_in relative_to
relative_in-IsBelow mode path root rel h =
    let (prefix, e, g) = (Option.bind-eq-some_iff _ _).0 h in
    let (names, f, t) = (Option.map-eq-some_iff _ _).0 g in
    (
      record {
        prefix = prefix;
        names = names;
        has_prefix = e;
        stands = (names_relative_to-under path prefix names).0 f;
      },
      sym t,
    )

IsBelow-relative_in :
    (mode : MappingMode) (path : PurePosixPath) (root : RootMapping) (b : IsBelow mode root path)
    → relative_in mode path root ≡ some (relative_text b.names)
unfolding relative_in relative_to
IsBelow-relative_in mode path root b =
    rw (b.has_prefix, (names_relative_to-under path b.prefix b.names).1 b.stands) refl

All-suffix : (P : String → Type 0) (us vs : List String) → All P (us ++ vs) → All P vs
All-suffix P [] vs h = h
All-suffix P (u ∷ us) vs h = All-suffix P us vs h.1

below-IsName :
    (mode : MappingMode) (root : RootMapping) (path : PurePosixPath)
    → IsPath path
    → (b : IsBelow mode root path) → All IsName b.names
below-IsName mode root path h b =
    All-suffix IsName b.prefix.names b.names (subst (λ p. All IsName p.names) b.stands h)

-- A root of the list below which the path stands, and the mapping by it.
pub record MappedBy (mode : MappingMode) (roots : List RootMapping) (path : PurePosixPath)
    (r : ResolvedStoragePath) : Type 0 where
  pub root : RootMapping
  pub listed : In root roots
  pub below : IsBelow mode root path
  pub mapped : r ≡ located mode root below.names

later :
    (mode : MappingMode) (first : RootMapping) (roots : List RootMapping) (path : PurePosixPath)
    (r : ResolvedStoragePath)
    → MappedBy mode roots path r
    → MappedBy mode (first ∷ roots) path r
later mode first roots path r m = record {
  root = m.root;
  listed = In.there m.listed;
  below = m.below;
  mapped = m.mapped;
}

-- What the loop returns at its first root, when the answer for this root is known.
first_match-at :
    (mode : MappingMode) (path : PurePosixPath) (root : RootMapping) (roots : List RootMapping)
    (o : Option String)
    → relative_in mode path root ≡ o
    → first_match mode path (root ∷ roots) ≡ found_or mode root o (first_match mode path roots)
first_match-at mode path root roots o f =
    ap (λ o. found_or mode root o (first_match mode path roots)) f

pub first_match-MappedBy :
    (mode : MappingMode) (path : PurePosixPath) (roots : List RootMapping) (r : ResolvedStoragePath)
    → IsPath path
    → first_match mode path roots ≡ some r
    → MappedBy mode roots path r
first_match-MappedBy mode path [] r h e = absurd (ground arith)
first_match-MappedBy mode path (root ∷ roots) r h e =
    elim (Option-cases (relative_in mode path root)) [
      | inl f ↦ later mode root roots path r (
          first_match-MappedBy mode path roots r h
            (sym (first_match-at mode path root roots none f) ∙ e))
      | inr (rel, f) ↦
          let (b, t) = relative_in-IsBelow mode path root rel f in
          let found = sym (first_match-at mode path root roots (some rel) f) ∙ e in
          record {
            root = root;
            listed = In.here;
            below = b;
            mapped =
                sym (Option.some-injective _ _ found)
                ∙ ap (resolved_by mode root) t
                ∙ resolved_by-located mode root b.names (below-IsName mode root path h b);
          }
    ]

pub first_match-finds :
    (mode : MappingMode) (path : PurePosixPath) (roots : List RootMapping) (root : RootMapping)
    → In root roots
    → IsBelow mode root path
    → (r : ResolvedStoragePath) × (first_match mode path roots ≡ some r)
first_match-finds mode path [] root at b = elim at [ ]
first_match-finds mode path (first ∷ roots) _ In.here b =
    (_, first_match-at mode path first roots _ (IsBelow-relative_in mode path first b))
first_match-finds mode path (first ∷ roots) root (In.there at) b =
    elim (Option-cases (relative_in mode path first)) [
      | inl f ↦
          let (r, e) = first_match-finds mode path roots root at b in
          (r, first_match-at mode path first roots none f ∙ e)
      | inr (rel, f) ↦ (_, first_match-at mode path first roots (some rel) f)
    ]
