-- ===== src/Proxy/Headers.antt =====
-- src/routes/proxy.rs, `clean_hop_headers` and `header_token`. The header map of the crate `http`
-- is an interface: its laws are what its documentation says of `get_all`, `remove` and `insert`.
use pishoo.Base.{
  Bool, Option, none, some, List, [], ◌∷◌, ◌++◌, Text, chars, any, map, split, trim,
  eq_ignore_ascii_case, ◌≡◌, ◌≢◌,
}

-- Names are the lowercase names that `HeaderName` keeps. A value that is not text is none.
pub record HeaderMap : Type 1 where
  pub Fields : Type 0
  pub get_all : Text → Fields → List (Option Text)
  pub remove : Text → Fields → Fields
  pub insert : Text → Text → Fields → Fields
  pub get_all-remove : (name : Text) (fields : Fields) → get_all name (remove name fields) ≡ []
  pub get_all-remove_other :
      (name other : Text) (fields : Fields)
      → other ≢ name
      → get_all other (remove name fields) ≡ get_all other fields
  pub get_all-insert :
      (name value : Text) (fields : Fields)
      → get_all name (insert name value fields) ≡ some value ∷ []
  pub get_all-insert_other :
      (name other value : Text) (fields : Fields)
      → other ≢ name
      → get_all other (insert name value fields) ≡ get_all other fields

-- `filter_map(|v| v.to_str().ok())` and `flat_map(|v| v.split(','))`
unfoldable pub elements : List (Option Text) → List Text
elements [] = []
elements (none ∷ values) = elements values
elements (some v ∷ values) = split b',' v ++ elements values

unfoldable pub hop_names : List Text
hop_names = map chars (
    "connection" ∷ "keep-alive" ∷ "proxy-connection" ∷ "proxy-authenticate" ∷ "proxy-authorization"
    ∷ "te" ∷ "transfer-encoding" ∷ "upgrade" ∷ [])

-- `filter_map(|s| s.trim().parse::<HeaderName>().ok())`
unfoldable pub parsed_names : (Text → Option Text) → List Text → List Text
parsed_names parse_name [] = []
parsed_names parse_name (s ∷ rest) =
    let names = parsed_names parse_name rest in
    elim (parse_name (trim s)) [ none ↦ names | some n ↦ n ∷ names ]

module _ (H : HeaderMap) where
  unfoldable pub remove_all : List Text → H.Fields → H.Fields
  remove_all [] fields = fields
  remove_all (name ∷ names) fields = remove_all names (H.remove name fields)

  unfoldable pub named_fields : (Text → Option Text) → H.Fields → List Text
  unfolding parsed_names elements
  named_fields parse_name fields =
      parsed_names parse_name (elements (H.get_all (chars "connection") fields))

  unfoldable pub clean_hop_headers : (Text → Option Text) → H.Fields → H.Fields
  unfolding remove_all named_fields hop_names
  clean_hop_headers parse_name fields =
      remove_all hop_names (remove_all (named_fields parse_name fields) fields)

  unfoldable pub header_token : Text → Text → H.Fields → Bool
  unfolding elements
  header_token name token fields =
      any (λ v. eq_ignore_ascii_case (trim v) token) (elements (H.get_all name fields))

  -- `headers.get(name)`, which is the first value
  abbrev pub first_value : List (Option Text) → Option (Option Text)
  first_value [] = none
  first_value (v ∷ values) = some v

  abbrev pub get : Text → H.Fields → Option (Option Text)
  get name fields = first_value (H.get_all name fields)
