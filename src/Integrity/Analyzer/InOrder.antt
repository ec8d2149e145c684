-- ===== src/Integrity/Analyzer/InOrder.antt =====
-- What it takes for a file to be in order, in the words of its probes
-- (immich_doctor/runtime/integrity/service.py).
use mathlib.Core.Path.{subst}
use mathlib.Core.Option.{get_or}
use immich_doctor.Base.{
  ℕ, ◌≡◌, ◌↔◌, ◌⊎◌, inl, inr, refl, ap, ◌∙◌, sym, Bool, true, false, not, ◌&&◌, String, arith, ◌==◌,
  nat_eq, string_eq, eq_iff, Option, none, some, List, [], ◌∷◌, contains, In, Bool-cases, In-cases,
}
use immich_doctor.Effects.Result.{Result, ok, raised}
use immich_doctor.Effects.World.{World}
use immich_doctor.Filesystem.{stat_node}
use immich_doctor.Integrity.Models.{
  file_ok, file_integrity_status_eq, MediaKind, image, video, audio, unknown,
}
use immich_doctor.Integrity.Analyzer.{
  Subject, is_type_mismatch, probe_media, extension_of, mismatches, inspect_file,
}
use immich_doctor.Integrity.Analyzer.Verdict.{
  probe_passes, read_passes, stat_passes, inspect_file-healthy,
}
use immich_doctor.Integrity.Probes.{Inspection, ProbeResult, expected_formats, is_disjoint}

-- Two lists have a text in common.
abbrev pub HaveCommon : List String → List String → Type 0
HaveCommon l m = (f : String) × In f l × In f m

contains-In : (m : List String) (f : String) → (contains m f ≡ true) ↔ In f m
contains-In [] f = (λ h. absurd (ground arith), λ at. elim at [ ])
contains-In (g ∷ m) f = (
  λ h. elim (Bool-cases (g == f)) [
    | inl e ↦ subst (λ x. In x (g ∷ m)) ((eq_iff g f).0 e) In.here
    | inr e ↦ In.there ((contains-In m f).0 (ground arith))
  ],
  λ at. elim (In-cases at) [
    | inl e ↦ let t = (eq_iff g f).1 (sym e) in ground arith
    | inr at ↦ let t = (contains-In m f).1 at in ground arith
  ],
)

is_disjoint_iff : (l m : List String) → (is_disjoint l m ≡ false) ↔ HaveCommon l m
is_disjoint_iff [] m = (λ h. absurd (ground arith), λ (f, at, _). elim at [ ])
is_disjoint_iff (g ∷ l) m = (
  λ h. elim (Bool-cases (contains m g)) [
    | inl e ↦ (g, In.here, (contains-In m g).0 e)
    | inr e ↦ let (f, at, k) = (is_disjoint_iff l m).0 (ground arith) in (f, In.there at, k)
  ],
  λ (f, at, k). elim (In-cases at) [
    | inl e ↦ let t = (contains-In m g).1 (subst (λ x. In x m) e k) in ground arith
    | inr at ↦ let t = (is_disjoint_iff l m).1 (f, at, k) in ground arith
  ],
)

abbrev pub returns {ℓ} : {A : Type ℓ} → Result A → Bool
returns (ok a) = true
returns (raised e) = false

abbrev pub text_or_empty : Option String → String
text_or_empty none = ""
text_or_empty (some d) = d

module _ (i : Inspection) where
  -- What the media probe of a kind answers.
  abbrev pub probe_of : World → String → MediaKind → ProbeResult
  probe_of w path image = i.probe_image w path
  probe_of w path video = i.probe_av w path
  probe_of w path audio = i.probe_av w path
  probe_of w path unknown = i.probe_unknown w path

  probe_media-probe_of :
      (w : World) (path : String) (k : MediaKind) → probe_media i w path k ≡ probe_of w path k
  unfolding probe_media
  probe_media-probe_of w path image = refl
  probe_media-probe_of w path video = refl
  probe_media-probe_of w path audio = refl
  probe_media-probe_of w path unknown = refl

  -- A detected format fits the formats that are listed for a suffix.
  abbrev pub FitsListed : String → Option (List String) → Type 0
  FitsListed d x =
      (d ≡ "") ⊎ ((x ≡ none) ⊎ ((l : List String) × (x ≡ some l) × HaveCommon (i.formats d) l))

  -- The detected format is no reason for a mismatch: the path has no suffix, no format is detected,
  -- nothing is listed for the suffix, or a listed format is detected.
  abbrev pub FormatFits : Subject → Option String → Type 0
  FormatFits s o =
      (i.suffix_lower s.path ≡ "")
      ⊎ FitsListed (text_or_empty o) (expected_formats s.media_kind (i.suffix_lower s.path))

  abbrev mismatch_of : String → Option (List String) → Bool
  mismatch_of d x = not (d == "") && elim x [ none ↦ false | some l ↦ is_disjoint (i.formats d) l ]

  listed_iff : (d : String) (x : Option (List String)) → (mismatch_of d x ≡ false) ↔ FitsListed d x
  listed_iff d none = (λ h. inr (inl refl), λ h. ground arith)
  listed_iff d (some l) = (
    λ h. elim (Bool-cases (d == "")) [
      | inl e ↦ inl ((eq_iff d "").0 e)
      | inr e ↦ inr (inr (l, refl, (is_disjoint_iff (i.formats d) l).0 (ground arith)))
    ],
    λ h. elim h [
      | inl e ↦ let t = (eq_iff d "").1 e in ground arith
      | inr (inl e) ↦ absurd (ground arith)
      | inr (inr (m, e, c)) ↦
          let t =
            (is_disjoint_iff (i.formats d) l).1
              (subst (HaveCommon (i.formats d)) (sym (ap (λ o. get_or o l) e)) c) in
          ground arith
    ],
  )

  abbrev mismatch_at : Subject → Option String → Option String → Bool
  mismatch_at s x o = elim x [
    | none ↦ false
    | some e ↦ elim o [
      | none ↦ false
      | some d ↦ not (d == "") && is_type_mismatch i e d s.media_kind
    ]
  ]

  mismatch_at-some :
      (s : Subject) (e : String) (o : Option String)
      → mismatch_at s (some e) o ≡ mismatch_of (text_or_empty o) (expected_formats s.media_kind e)
  unfolding is_type_mismatch
  mismatch_at-some s e none = refl
  mismatch_at-some s e (some d) = refl

  extension-none : (path : String) → i.suffix_lower path ≡ "" → extension_of i path ≡ none
  unfolding extension_of
  extension-none path e = rw ((eq_iff (i.suffix_lower path) "").1 e) refl

  extension-some :
      (path : String)
      → (i.suffix_lower path == "") ≡ false
      → extension_of i path ≡ some (i.suffix_lower path)
  unfolding extension_of
  extension-some path e = rw e refl

  mismatches-none :
      (s : Subject) (probe : ProbeResult)
      → i.suffix_lower s.path ≡ ""
      → mismatches i s probe ≡ false
  mismatches-none s probe e =
      ap (λ x. mismatch_at s x probe.detected_format) (extension-none s.path e)

  mismatches-some :
      (s : Subject) (probe : ProbeResult)
      → (i.suffix_lower s.path == "") ≡ false
      → mismatches i s probe
        ≡ mismatch_of
            (text_or_empty probe.detected_format)
            (expected_formats s.media_kind (i.suffix_lower s.path))
  mismatches-some s probe e =
      ap (λ x. mismatch_at s x probe.detected_format) (extension-some s.path e)
      ∙ mismatch_at-some s (i.suffix_lower s.path) probe.detected_format

  mismatches_iff :
      (s : Subject) (probe : ProbeResult)
      → (mismatches i s probe ≡ false) ↔ FormatFits s probe.detected_format
  mismatches_iff s probe = elim (Bool-cases (i.suffix_lower s.path == "")) [
    | inl e ↦
        let t = (eq_iff (i.suffix_lower s.path) "").0 e in
        (λ h. inl t, λ h. mismatches-none s probe t)
    | inr e ↦
        let fits =
          listed_iff (text_or_empty probe.detected_format)
            (expected_formats s.media_kind (i.suffix_lower s.path)) in
        (
          λ h. inr (fits.0 (sym (mismatches-some s probe e) ∙ h)),
          λ h. elim h [
            | inl t ↦ mismatches-none s probe t
            | inr g ↦ mismatches-some s probe e ∙ fits.1 g
          ],
        )
  ]

  probe_passes_iff :
      (s : Subject) (probe : ProbeResult)
      → (probe_passes i s probe ≡ true) ↔ ((probe.ok ≡ true) × FormatFits s probe.detected_format)
  probe_passes_iff s probe = (
    λ h. (ground arith, (mismatches_iff s probe).0 (ground arith)),
    λ (decodes, fits). let t = (mismatches_iff s probe).1 fits in ground arith,
  )

  -- The probe of the kind of the file decodes it to a format that fits.
  abbrev pub IsDecoded : Subject → ProbeResult → Type 0
  IsDecoded s probe = (probe.ok ≡ true) × FormatFits s probe.detected_format

  abbrev pub IsInOrder : World → Subject → Type 0
  IsInOrder w s =
      (returns (stat_node (w.files s.path)) ≡ true)
      × ((i.st_size w s.path == 0) ≡ false)
      × (returns (i.read_probe w s.path) ≡ true)
      × IsDecoded s (probe_of w s.path s.media_kind)

  probe_media_iff :
      (w : World) (s : Subject)
      → (probe_passes i s (probe_media i w s.path s.media_kind) ≡ true)
        ↔ IsDecoded s (probe_of w s.path s.media_kind)
  probe_media_iff w s =
      subst (λ p. (probe_passes i s p ≡ true) ↔ IsDecoded s (probe_of w s.path s.media_kind))
        (sym (probe_media-probe_of w s.path s.media_kind))
        (probe_passes_iff s (probe_of w s.path s.media_kind))

  read_passes_iff :
      (w : World) (s : Subject) (r : Result (Unit {0}))
      → (read_passes i w s r ≡ true)
        ↔ ((returns r ≡ true) × IsDecoded s (probe_of w s.path s.media_kind))
  read_passes_iff w s (ok u) =
      (λ h. (refl, (probe_media_iff w s).0 h), λ h. (probe_media_iff w s).1 h.1)
  read_passes_iff w s (raised e) = (λ h. absurd (ground arith), λ h. absurd (ground arith))

  stat_passes_iff :
      (w : World) (s : Subject) (r : Result ℕ)
      → (stat_passes i w s r ≡ true) ↔ (
          (returns r ≡ true)
          × ((i.st_size w s.path == 0) ≡ false)
          × (returns (i.read_probe w s.path) ≡ true)
          × IsDecoded s (probe_of w s.path s.media_kind))
  stat_passes_iff w s (ok n) =
      let reads = read_passes_iff w s (i.read_probe w s.path) in
      (
        λ h. (refl, ground arith, (reads.0 (ground arith)).0, (reads.0 (ground arith)).1),
        λ (_, some_byte, read, decoded). let t = reads.1 (read, decoded) in ground arith,
      )
  stat_passes_iff w s (raised e) = (λ h. absurd (ground arith), λ h. absurd (ground arith))

  -- A file is found to be in order exactly if `stat` and the read probe succeed, it has a byte, the
  -- media probe of its kind decodes it, and the format fits: the path has no suffix, no format is
  -- detected, no format is listed for the suffix and the kind, or a listed format is detected.
  pub inspect_file-IsInOrder :
      (w : World) (s : Subject) → ((inspect_file i w s).status ≡ file_ok) ↔ IsInOrder w s
  inspect_file-IsInOrder w s =
      let passes = stat_passes_iff w s (stat_node (w.files s.path)) in
      let ok_iff = file_integrity_status_eq.same_iff (inspect_file i w s).status file_ok in
      (
        λ h. passes.0 (sym (inspect_file-healthy i w s) ∙ ok_iff.1 h),
        λ h. ok_iff.0 (inspect_file-healthy i w s ∙ passes.1 h),
      )
