-- ===== src/Repair/Guards.antt =====
-- Tokens that bind a repair to the state for which it was worked out
-- (immich_doctor/repair/guards.py).
pub mod Validity
use immich_doctor.Base.{
  ℕ, ◌+◌, ◌*◌, String, Bool, true, false, ◌||◌, Option, none, some, ◌!=◌, string_eq, ltb,
  if◌then◌else◌,
}
use immich_doctor.Core.Value.{
  Value, null, bool, int, str, enum_value, file_path, instant, object, array, Fields, end, field,
  Items, nil, cons,
}
use immich_doctor.Effects.Result.{Result, ok, raised, value_error}
use immich_doctor.Effects.World.{
  World, Platform, M, pure, lift, raise, ◌>>=◌, continue, current_instant, fresh_id,
}
use immich_doctor.Repair.Models.{PlanToken}

-- `_normalize`. The items of a dictionary have distinct keys, so their order by `str` is that of
-- the keys alone, and the sort may follow the values' own normalisation.
module _ (platform : Platform) where
  unfoldable mutual
    pub normalize : Value → Value
    normalize (enum_value v) = v
    normalize (file_path p) = str p
    normalize (instant t) = str (platform.isoformat t)
    normalize (object d) = object (platform.sort_items (normalize_fields d))
    normalize (array l) = array (normalize_items l)
    normalize null = null
    normalize (bool b) = bool b
    normalize (int n) = int n
    normalize (str s) = str s

    pub normalize_fields : Fields → Fields
    normalize_fields end = end
    normalize_fields (field k v d) = field k (normalize v) (normalize_fields d)

    pub normalize_items : Items → Items
    normalize_items nil = nil
    normalize_items (cons v l) = cons (normalize v) (normalize_items l)

  unfoldable pub fingerprint_payload : Value → String
  fingerprint_payload payload = platform.sha256_hex (platform.dumps (normalize payload))

  unfoldable pub build_live_state_fingerprint : String → String → String
  build_live_state_fingerprint db_fingerprint file_fingerprint = fingerprint_payload (
      object (
        field "db_fingerprint" (str db_fingerprint)
          (field "file_fingerprint" (str file_fingerprint) end)))

-- An instant and a duration are counted in microseconds.
abbrev pub default_ttl : ℕ
default_ttl = 30 * 60 * 1_000_000

pub record ApplyGuardResult : Type 0 where
  pub valid : Bool
  pub reason : String
  pub token_id : String
  pub expected_db_fingerprint : String
  pub expected_file_fingerprint : String
  pub actual_db_fingerprint : String
  pub actual_file_fingerprint : String

abbrev guard_result : Bool → String → PlanToken → String → String → ApplyGuardResult
guard_result valid reason token db_fingerprint file_fingerprint = record {
  valid = valid;
  reason = reason;
  token_id = token.token_id;
  expected_db_fingerprint = token.db_fingerprint;
  expected_file_fingerprint = token.file_fingerprint;
  actual_db_fingerprint = db_fingerprint;
  actual_file_fingerprint = file_fingerprint;
}

module _ (platform : Platform) where
  -- `now or datetime.now(UTC)`
  unfoldable pub instant_or_now : Option ℕ → M ℕ
  unfolding current_instant pure
  instant_or_now none = current_instant platform
  instant_or_now (some t) = pure t

  unfoldable pub create_plan_token : Fields → String → String → Option ℕ → Option ℕ → M PlanToken
  unfolding instant_or_now fresh_id pure
  create_plan_token scope db_fingerprint file_fingerprint ttl now = do
    created ← instant_or_now now
    let expires_at : Option String = elim ttl [
      | none ↦ none
      | some d ↦ some (platform.isoformat (created + d))
    ]
    token_id ← fresh_id platform
    pure (record {
      token_id = token_id;
      created_at = platform.isoformat created;
      scope = scope;
      db_fingerprint = db_fingerprint;
      file_fingerprint = file_fingerprint;
      expires_at = expires_at;
    })

  -- What is checked of a token that has not expired.
  unfoldable pub validate_bindings : PlanToken → Fields → String → String → ApplyGuardResult
  validate_bindings token scope db_fingerprint file_fingerprint =
      if fingerprint_payload platform (object scope)
        != fingerprint_payload platform (object token.scope)
      then guard_result false "Repair scope changed between inspect and apply." token db_fingerprint
          file_fingerprint
      else if token.db_fingerprint != db_fingerprint || token.file_fingerprint != file_fingerprint
      then guard_result false "Live state drift detected between inspect and apply." token
          db_fingerprint file_fingerprint
      else guard_result true "Plan token matches the current live state." token db_fingerprint
          file_fingerprint

  unfoldable pub judge : Bool → PlanToken → Fields → String → String → ApplyGuardResult
  judge expired token scope db_fingerprint file_fingerprint =
      if expired
      then guard_result false "Plan token expired before apply." token db_fingerprint
          file_fingerprint
      else validate_bindings token scope db_fingerprint file_fingerprint

  -- `False` if the token has no expiry, and a `ValueError` if it is no instant.
  unfoldable pub token_expired : PlanToken → ℕ → Result Bool
  token_expired token current = elim token.expires_at [
    | none ↦ ok false
    | some t ↦ elim (platform.fromisoformat t) [
      | none ↦ raised value_error
      | some expires ↦ ok (ltb expires current)
    ]
  ]

  unfoldable pub validate_plan_token :
      PlanToken → Fields → String → String → Option ℕ → M ApplyGuardResult
  unfolding instant_or_now judge token_expired pure lift
  validate_plan_token token scope db_fingerprint file_fingerprint now = do
    current ← instant_or_now now
    expired ← lift (token_expired token current)
    pure (judge expired token scope db_fingerprint file_fingerprint)
