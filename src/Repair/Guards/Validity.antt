-- ===== src/Repair/Guards/Validity.antt =====
-- When a plan token is accepted.
use immich_doctor.Base.{
  ℕ, ◌+◌, ◌≤◌, String, ◌≡◌, ◌↔◌, refl, sym, ap, ◌∙◌, Bool, true, false, ◌&&◌, Option, some, arith,
  eq_iff, string_eq, ltb,
}
use mathlib.Core.Path.{ap₂}
use immich_doctor.Core.Value.{
  Value, null, bool, int, str, enum_value, file_path, instant, object, array, Fields, end, field,
  Items, nil, cons,
}
use immich_doctor.Effects.Result.{ok}
use immich_doctor.Effects.World.{World, Platform}
use immich_doctor.Repair.Models.{PlanToken}
use immich_doctor.Repair.Guards.{
  normalize, normalize_fields, normalize_items, fingerprint_payload, ApplyGuardResult,
  create_plan_token, judge, validate_bindings, validate_plan_token,
}

-- What the standard library documents of `isoformat` and `fromisoformat`.
pub record ParsesIso (platform : Platform) : Type 0 where
  pub round_trip : (t : ℕ) → platform.fromisoformat (platform.isoformat t) ≡ some t

module _ (platform : Platform) (token : PlanToken) (scope : Fields)
    (db_fingerprint file_fingerprint : String) where
  abbrev pub Bound : Type 0
  Bound =
      (fingerprint_payload platform (object scope)
        ≡ fingerprint_payload platform (object token.scope))
      × (token.db_fingerprint ≡ db_fingerprint)
      × (token.file_fingerprint ≡ file_fingerprint)

  pub validate_bindings_iff :
      ((validate_bindings platform token scope db_fingerprint file_fingerprint).valid ≡ true)
      ↔ Bound
  unfolding validate_bindings
  validate_bindings_iff = ground (
    arith,
    eq_iff (fingerprint_payload platform (object scope))
        (fingerprint_payload platform (object token.scope)),
    eq_iff token.db_fingerprint db_fingerprint,
    eq_iff token.file_fingerprint file_fingerprint,
  )

module _ (platform : Platform) where
  judge_iff :
      (expired : Bool) (token : PlanToken) (scope : Fields) (db file : String)
      → ((judge platform expired token scope db file).valid ≡ true)
        ↔ ((expired ≡ false) × Bound platform token scope db file)
  unfolding judge
  judge_iff true token scope db file = ground arith
  judge_iff false token scope db file =
      ground (arith, validate_bindings_iff platform token scope db file)

-- What is expected of SHA-256: no two texts have the same digest.
pub record HasNoCollision (platform : Platform) : Type 0 where
  pub injective : (s t : String) → platform.sha256_hex s ≡ platform.sha256_hex t → s ≡ t

-- What the standard library documents of `json.dumps`: some reading of its texts (`json.loads`)
-- gives the dictionary back.
pub record ReadsBack (platform : Platform) (loads : String → Option Value) (d : Fields)
    : Type 0 where
  pub round_trip : loads (platform.dumps (object d)) ≡ some (object d)

-- The values that JSON has, without dictionaries: those of the scopes of repairs.
unfoldable mutual
  pub is_plain : Value → Bool
  is_plain null = true
  is_plain (bool b) = true
  is_plain (int n) = true
  is_plain (str s) = true
  is_plain (array l) = are_plain l
  is_plain (enum_value v) = false
  is_plain (file_path p) = false
  is_plain (instant t) = false
  is_plain (object d) = false

  pub are_plain : Items → Bool
  are_plain nil = true
  are_plain (cons v l) = is_plain v && are_plain l

abbrev pub has_plain_values : Fields → Bool
has_plain_values end = true
has_plain_values (field k v d) = is_plain v && has_plain_values d

abbrev fields_of_result : Option Value → Fields
fields_of_result (some (object d)) = d
fields_of_result _ = end

module _ (platform : Platform) where
  mutual
    unfolding normalize is_plain

    normalize-plain : (v : Value) → is_plain v ≡ true → normalize platform v ≡ v
    normalize-plain null h = refl
    normalize-plain (bool b) h = refl
    normalize-plain (int n) h = refl
    normalize-plain (str s) h = refl
    normalize-plain (array l) h = ap array (normalize_items-plain l h)
    normalize-plain (enum_value v) h = absurd (ground arith)
    normalize-plain (file_path p) h = absurd (ground arith)
    normalize-plain (instant t) h = absurd (ground arith)
    normalize-plain (object d) h = absurd (ground arith)

    normalize_items-plain : (l : Items) → are_plain l ≡ true → normalize_items platform l ≡ l
    normalize_items-plain nil h = refl
    normalize_items-plain (cons v l) h =
        ap₂ cons (normalize-plain v (ground arith)) (normalize_items-plain l (ground arith))

  normalize_fields-plain :
      (d : Fields) → has_plain_values d ≡ true → normalize_fields platform d ≡ d
  unfolding normalize
  normalize_fields-plain end h = refl
  normalize_fields-plain (field k v d) h =
      ap₂ (field k) (normalize-plain v (ground arith)) (normalize_fields-plain d (ground arith))

  normalize-scope :
      (d : Fields)
      → has_plain_values d ≡ true
      → normalize platform (object d) ≡ object (platform.sort_items d)
  unfolding normalize
  normalize-scope d h = ap (λ e. object (platform.sort_items e)) (normalize_fields-plain d h)

  -- Two scopes have the same items, whatever their order.
  abbrev pub HaveSameItems : Fields → Fields → Type 0
  HaveSameItems d e = platform.sort_items d ≡ platform.sort_items e

  module _ (hash : HasNoCollision platform) (loads : String → Option Value) (d e : Fields)
      (plain_d : has_plain_values d ≡ true) (plain_e : has_plain_values e ≡ true)
      (read_d : ReadsBack platform loads (platform.sort_items d))
      (read_e : ReadsBack platform loads (platform.sort_items e)) where
    fingerprint_iff :
        (fingerprint_payload platform (object d) ≡ fingerprint_payload platform (object e))
        ↔ HaveSameItems d e
    unfolding fingerprint_payload
    fingerprint_iff = (
      λ h.
          let same_text = hash.injective _ _ h in
          let same_sorted =
            sym (ap (λ v. platform.dumps v) (normalize-scope d plain_d))
            ∙ same_text
            ∙ ap (λ v. platform.dumps v) (normalize-scope e plain_e) in
          ap fields_of_result (sym read_d.round_trip ∙ ap loads same_sorted ∙ read_e.round_trip),
      λ h.
          ap (λ v. platform.sha256_hex (platform.dumps v))
            (normalize-scope d plain_d ∙ ap object h ∙ sym (normalize-scope e plain_e)),
    )

module _ (platform : Platform) (iso : ParsesIso platform) (hash : HasNoCollision platform)
    (loads : String → Option Value) where
  -- The check of a token that was created at `created` to live for `ttl` raises nothing. For scopes
  -- of plain values it passes at `current` exactly if the token's time is not over, the scope has
  -- the items of the token's scope, and both fingerprints of the live state are those of the plan.
  pub validate-create :
      (scope live_scope : Fields) (db file live_db live_file : String) (ttl created current : ℕ)
      (w : World) {token : PlanToken}
      → has_plain_values scope ≡ true
      → has_plain_values live_scope ≡ true
      → ReadsBack platform loads (platform.sort_items scope)
      → ReadsBack platform loads (platform.sort_items live_scope)
      → (create_plan_token platform scope db file (some ttl) (some created) w).0 ≡ ok token
      → (g : ApplyGuardResult) × ((validate_plan_token platform token live_scope live_db live_file
            (some current)
            w).0
          ≡ ok g)
        × ((g.valid ≡ true) ↔ (
            (current ≤ created + ttl)
            × HaveSameItems platform live_scope scope
            × (db ≡ live_db)
            × (file ≡ live_file)))
  unfolding create_plan_token validate_plan_token
  validate-create scope live_scope db file live_db live_file ttl created current w {token} plain
        live_plain read live_read h =
      (
        judge platform (ltb (created + ttl) current) token live_scope live_db live_file,
        ground (arith, iso.round_trip (created + ttl)),
        ground (
          arith,
          judge_iff platform (ltb (created + ttl) current) token live_scope live_db live_file,
          fingerprint_iff platform hash loads live_scope scope live_plain plain live_read read,
        ),
      )
