-- ===== src/Effects/Result.antt =====
-- A computation that returns a value or raises.
use immich_doctor.Base.{
  ℕ, String, ◌≡◌, ◌++◌, ◌⊎◌, inl, inr, refl, arith, Option, none, some, List, [], ◌∷◌,
}
use immich_doctor.Core.Value.{Value, Fields, null, int, str, object, get_field}

-- `os_error` carries the errno of an `OSError` that is of none of the classes before it.
pub data PyError : Type 0 where
  file_not_found permission_error : PyError
  os_error : ℕ → PyError
  key_error : String → PyError
  value_error type_error : PyError

pub data Result {ℓ} (A : Type ℓ) : Type ℓ where
  ok : A → Result A
  raised : PyError → Result A

infixl 5 ◌>>=◌
abbrev pub ◌>>=◌ {ℓ κ} : {A : Type ℓ} {B : Type κ} → Result A → (A → Result B) → Result B
ok a >>= f = f a
raised e >>= f = raised e

-- d["k"]
unfoldable pub require : String → Fields → Result Value
unfolding get_field
require k d = elim (get_field k d) [ none ↦ raised (key_error k) | some v ↦ ok v ]

-- The fields of the dataclasses have the types of their annotations here, so reading a payload
-- whose value is of another type is a `type_error`.
unfoldable pub as_text : Value → Result String
as_text (str s) = ok s
as_text _ = raised type_error

unfoldable pub as_optional_text : Value → Result (Option String)
as_optional_text null = ok none
as_optional_text (str s) = ok (some s)
as_optional_text _ = raised type_error

unfoldable pub as_optional_int : Value → Result (Option ℕ)
as_optional_int null = ok none
as_optional_int (int n) = ok (some n)
as_optional_int _ = raised type_error

unfoldable pub as_dict : Value → Result Fields
as_dict (object d) = ok d
as_dict _ = raised type_error

unfoldable pub as_optional_dict : Value → Result (Option Fields)
as_optional_dict null = ok none
as_optional_dict (object d) = ok (some d)
as_optional_dict _ = raised type_error

module _ {ℓ κ} {A : Type ℓ} {B : Type κ} (f : A → Result B) where
  -- A list comprehension whose items may raise.
  unfoldable pub traverse : List A → Result (List B)
  traverse [] = ok []
  traverse (x ∷ xs) = do y ← f x; ys ← traverse xs; ok (y ∷ ys)

-- One more item in the list is one more item in the result.
abbrev pub appended {ℓ} : {B : Type ℓ} → Result (List B) → Result B → Result (List B)
appended (ok ys) (ok y) = ok (ys ++ y ∷ [])
appended (ok ys) (raised e) = raised e
appended (raised e) r = raised e

module _ {ℓ κ} {A : Type ℓ} {B : Type κ} (f : A → Result B) where
  pub traverse-append_one :
      (l : List A) (x : A) → traverse f (l ++ x ∷ []) ≡ appended (traverse f l) (f x)
  unfolding traverse
  traverse-append_one [] x = ground arith
  traverse-append_one (a ∷ l) x = ground (arith, traverse-append_one l x)

pub Result-cases {ℓ} :
    {A : Type ℓ} (r : Result A) → ((a : A) × (r ≡ ok a)) ⊎ ((e : PyError) × (r ≡ raised e))
Result-cases (ok a) = inl (a, refl)
Result-cases (raised e) = inr (e, refl)
