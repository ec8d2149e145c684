-- ===== src/Tests/Platform.antt =====
-- A platform for the tests: digits, least significant first, stand for an instant, and the digest
-- of a value is its printed form.
use Prim.Native.Char.{Char, code}
use immich_doctor.Base.{
  ℕ, zero, suc, ◌+◌, ◌-◌, ◌*◌, ◌/◌, ◌%◌, ◌<◌, String, ◌<>◌, ◌≡◌, refl, true, false, none, some,
  arith, decimal, ltb, nat_eq, string_eq, if◌then◌else◌, ap, inl, inr, Bool-cases,
}
use immich_doctor.Core.Value.{
  Value, null, bool, int, str, enum_value, file_path, instant, object, array, Fields, end, field,
  Items, nil, cons,
}
use immich_doctor.Effects.World.{Platform}
use immich_doctor.Repair.Guards.Validity.{ParsesIso, HasNoCollision}

digit_char : ℕ → Char
digit_char zero = "0"
digit_char (suc zero) = "1"
digit_char (suc (suc zero)) = "2"
digit_char (suc (suc (suc zero))) = "3"
digit_char (suc (suc (suc (suc zero)))) = "4"
digit_char (suc (suc (suc (suc (suc zero))))) = "5"
digit_char (suc (suc (suc (suc (suc (suc zero)))))) = "6"
digit_char (suc (suc (suc (suc (suc (suc (suc zero))))))) = "7"
digit_char (suc (suc (suc (suc (suc (suc (suc (suc zero)))))))) = "8"
digit_char _ = "9"

code-digit_char : (n : ℕ) → n < 10 → code (digit_char n) ≡ n + 48
unfolding digit_char
code-digit_char zero h = refl
code-digit_char (suc zero) h = refl
code-digit_char (suc (suc zero)) h = refl
code-digit_char (suc (suc (suc zero))) h = refl
code-digit_char (suc (suc (suc (suc zero)))) h = refl
code-digit_char (suc (suc (suc (suc (suc zero))))) h = refl
code-digit_char (suc (suc (suc (suc (suc (suc zero)))))) h = refl
code-digit_char (suc (suc (suc (suc (suc (suc (suc zero))))))) h = refl
code-digit_char (suc (suc (suc (suc (suc (suc (suc (suc zero)))))))) h = refl
code-digit_char (suc (suc (suc (suc (suc (suc (suc (suc (suc zero))))))))) h = refl
code-digit_char (suc (suc (suc (suc (suc (suc (suc (suc (suc (suc n)))))))))) h =
    absurd (omega arith)

digits_of : ℕ → ℕ → String
digits_of zero n = ""
digits_of (suc f) n =
    let rest = digits_of f (n / 10) in
    String.◌∷◌ (digit_char (n % 10)) (if ltb n 10 then "" else rest)

value_of : String → ℕ
value_of String.[] = 0
value_of (String.◌∷◌ c s) = (code c - 48) + 10 * value_of s

value_of-digits_of : (f n : ℕ) → n < f → value_of (digits_of f n) ≡ n
unfolding value_of digits_of
value_of-digits_of zero n h = absurd (omega arith)
value_of-digits_of (suc f) n h = elim (Bool-cases (ltb n 10)) [
  | inl small ↦ rw small (ground (arith, code-digit_char (n % 10)))
  | inr large ↦ rw large (ground (arith, code-digit_char (n % 10), value_of-digits_of f (n / 10)))
]

mutual
  print : Value → String
  print null = "null"
  print (bool true) = "true"
  print (bool false) = "false"
  print (int n) = decimal n
  print (str s) = "'" <> s <> "'"
  print (enum_value v) = print v
  print (file_path p) = p
  print (instant t) = decimal t
  print (object d) = "{" <> print_fields d <> "}"
  print (array l) = "[" <> print_items l <> "]"

  print_fields : Fields → String
  print_fields end = ""
  print_fields (field k v d) = k <> ":" <> print v <> "," <> print_fields d

  print_items : Items → String
  print_items nil = ""
  print_items (cons v l) = print v <> "," <> print_items l

unfoldable pub plain : Platform
unfolding digits_of digit_char value_of print decimal
plain = record {
  now = λ k. 1_700_000_000_000_000 + k;
  uuid4_hex = λ k. "id-" <> decimal k;
  isoformat = λ t. digits_of (t + 1) t;
  fromisoformat = λ s. some (value_of s);
  sort_items = λ d. d;
  dumps = print;
  sha256_hex = λ s. s;
  int_of_text = λ s. none;
  str_of = print;
  str_of_path = λ s. s;
}

pub plain-ParsesIso : ParsesIso plain
unfolding plain
plain-ParsesIso = record { round_trip = λ t. ap some (value_of-digits_of (t + 1) t (omega arith)) }

pub plain-HasNoCollision : HasNoCollision plain
unfolding plain
plain-HasNoCollision = record { injective = λ s t e. e }
