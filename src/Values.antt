-- ===== src/Values.antt =====
-- `serde_json::Value`, as the code uses it: an interface, since the crate is not this repository's.
use pishoo.Base.{
  ℕ, Bool, true, false, Option, none, some, List, [], ◌∷◌, Text, text_eq, any, all, leb, not,
}

-- i64, read as an integer.
pub data ℤ : Type 0 where
  pos : ℕ → ℤ
  negsuc : ℕ → ℤ

-- `a <= b`
abbrev pub at_most : ℤ → ℤ → Bool
at_most (pos m) (pos n) = leb m n
at_most (pos m) (negsuc n) = false
at_most (negsuc m) (pos n) = true
at_most (negsuc m) (negsuc n) = leb n m

-- `a < b`
abbrev pub below : ℤ → ℤ → Bool
below a b = not (at_most b a)

pub record Values (Value : Type 0) : Type 0 where
  pub null : Value
  pub as_object : Value → Option (List (Text × Value))
  pub as_array : Value → Option (List Value)
  pub as_str : Value → Option Text
  pub as_i64 : Value → Option ℤ
  pub as_u64 : Value → Option ℕ
  pub as_bool : Value → Option Bool
  -- `==`
  pub same : Value → Value → Bool
  pub text : Text → Value
  pub number : ℤ → Value
  pub boolean : Bool → Value
  pub array : List Value → Value
  pub object : List (Text × Value) → Value

abbrev pub is_key : {V : Type 0} → Text → Text × V → Bool
is_key key row = text_eq row.0 key

unfoldable pub lookup : {V : Type 0} → Text → List (Text × V) → Option V
lookup key [] = none
lookup key ((k, v) ∷ fields) =
    let rest = lookup key fields in elim (text_eq k key) [ true ↦ some v | false ↦ rest ]

-- `object.keys().any(|key| !matches!(key, ...))` is the negation.
unfoldable pub has_only : {V : Type 0} → List Text → List (Text × V) → Bool
has_only keys fields = all (λ row. any (text_eq row.0) keys) fields

module _ {Value : Type 0} (V : Values Value) where
  -- `value.get(key)`
  unfoldable pub get : Text → Value → Option Value
  unfolding lookup
  get key value = elim (V.as_object value) [ none ↦ none | some fields ↦ lookup key fields ]

  abbrev pub or_null : Option Value → Value
  or_null none = V.null
  or_null (some v) = v

  -- `value[key]`, which is null where there is nothing
  unfoldable pub at : Text → Value → Value
  unfolding get
  at key value = or_null (get key value)

  -- `value == "text"`
  unfoldable pub is_text : Text → Value → Bool
  is_text t value = elim (V.as_str value) [ none ↦ false | some s ↦ text_eq s t ]

  -- `value == true`
  unfoldable pub is_true : Value → Bool
  is_true value = elim (V.as_bool value) [ none ↦ false | some b ↦ b ]
