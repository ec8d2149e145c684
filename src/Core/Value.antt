-- ===== src/Core/Value.antt =====
-- The Python values that payload dictionaries hold (`dict[str, Any]` in the models).
use immich_doctor.Base.{
  ℕ, String, ◌==◌, string_eq, nat_eq, Bool, true, false, not, Option, none, some, List, [], ◌∷◌,
  if◌then◌else◌,
}

mutual
  -- `enum_value` is a member of an enumeration with its value; `instant` an instant in UTC.
  pub data Value : Type 0 where
    null : Value
    bool : Bool → Value
    int : ℕ → Value
    str : String → Value
    enum_value : Value → Value
    file_path : String → Value
    instant : ℕ → Value
    object : Fields → Value
    array : Items → Value

  pub data Fields : Type 0 where
    end : Fields
    field : String → Value → Fields → Fields

  pub data Items : Type 0 where
    nil : Items
    cons : Value → Items → Items

-- d.get(k), with `none` for a missing key
unfoldable pub get_field : String → Fields → Option Value
get_field k end = none
get_field k (field j v d) = if j == k then some v else get_field k d

-- d.get(k), with the value `None` for a missing key
unfoldable pub get_or_null : String → Fields → Value
unfolding get_field
get_or_null k d = elim (get_field k d) [ none ↦ null | some v ↦ v ]

-- bool(v)
unfoldable pub truthy : Value → Bool
truthy null = false
truthy (bool b) = b
truthy (int n) = not (n == 0)
truthy (str s) = not (s == "")
truthy (object end) = false
truthy (array nil) = false
truthy _ = true

abbrev pub optional_text : Option String → Value
optional_text none = null
optional_text (some s) = str s

abbrev pub optional_int : Option ℕ → Value
optional_int none = null
optional_int (some n) = int n

abbrev pub optional_dict : Option Fields → Value
optional_dict none = null
optional_dict (some d) = object d

abbrev pub items : List Value → Items
items [] = nil
items (v ∷ vs) = cons v (items vs)

abbrev pub texts : List String → Items
texts [] = nil
texts (s ∷ l) = cons (str s) (texts l)
