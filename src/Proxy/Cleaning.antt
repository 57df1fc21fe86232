-- ===== src/Proxy/Cleaning.antt =====
-- src/routes/proxy.rs, `clean_hop_headers`: what is left of the headers.
use pishoo.Base.{
  Option, none, some, List, [], ◌∷◌, Text, chars, trim, split, In-append, In-append_right,
  In-append_cases, Option-cases, ap, text_eq, eq_of_text_eq, Bool-cases, text_eq_refl, In, here,
  there, ◌≡◌, ◌⊎◌, inl, inr, refl, sym, ◌∙◌, arith, subst,
}
use pishoo.Proxy.Headers.{
  HeaderMap, elements, parsed_names, hop_names, remove_all, named_fields, clean_hop_headers,
}

-- The fields that concern one connection only.
abbrev pub IsHopByHop : Text → Type 0
IsHopByHop name = In name (
    chars "connection"
    ∷ chars "keep-alive"
    ∷ chars "proxy-connection"
    ∷ chars "proxy-authenticate"
    ∷ chars "proxy-authorization"
    ∷ chars "te"
    ∷ chars "transfer-encoding"
    ∷ chars "upgrade"
    ∷ [])

-- Some value has the part, between its commas.
abbrev pub IsElement : Text → List (Option Text) → Type 0
IsElement part values = (value : Text) × In (some value) values × In part (split b',' value)

pub elements-IsElement :
    (part : Text) (values : List (Option Text)) → In part (elements values) → IsElement part values
unfolding elements
elements-IsElement part [] m = elim m [ ]
elements-IsElement part (none ∷ values) m =
    let (value, there_is, n) = elements-IsElement part values m in (value, there there_is, n)
elements-IsElement part (some v ∷ values) m =
    elim (In-append_cases (split b',' v) (elements values) m) [
      | inl n ↦ (v, here refl, n)
      | inr later ↦
          let (value, there_is, n) = elements-IsElement part values later in
          (value, there there_is, n)
    ]

IsElement-elements :
    (part value : Text) (values : List (Option Text))
    → In (some value) values
    → In part (split b',' value)
    → In part (elements values)
unfolding elements
IsElement-elements part value [] m n = elim m [ ]
IsElement-elements part value (none ∷ values) (here e) n = cc
IsElement-elements part value (none ∷ values) (there m) n = IsElement-elements part value values m n
IsElement-elements part value (some v ∷ values) (here e) n =
    let same : value ≡ v = ground arith in
    In-append (split b',' v) (elements values) (subst (λ t. In part (split b',' t)) same n)
IsElement-elements part value (some v ∷ values) (there m) n =
    In-append_right (split b',' v) (elements values) (IsElement-elements part value values m n)

parsed_names-In :
    (parse_name : Text → Option Text) (part name : Text) (parts : List Text)
    → In part parts
    → parse_name (trim part) ≡ some name
    → In name (parsed_names parse_name parts)
unfolding parsed_names
parsed_names-In parse_name part name [] m e = elim m [ ]
parsed_names-In parse_name part name (s ∷ rest) m e = elim (Option-cases (parse_name (trim s))) [
  | inl bad ↦ elim m [
    | here same ↦ ground (arith, subst (λ t. parse_name (trim t) ≡ none) same bad)
    | there n ↦ subst (In name) (ground arith) (parsed_names-In parse_name part name rest n e)
  ]
  | inr (found, e2) ↦
      let listed : In name (found ∷ parsed_names parse_name rest) = elim m [
        | here same ↦
            let at_part = subst (λ t. parse_name (trim t) ≡ some found) same e2 in
            here (ground arith)
        | there n ↦ there (parsed_names-In parse_name part name rest n e)
      ] in
      subst (In name) (ground arith) listed
]

In-parsed_names :
    (parse_name : Text → Option Text) (name : Text) (parts : List Text)
    → In name (parsed_names parse_name parts)
    → (part : Text) × In part parts × (parse_name (trim part) ≡ some name)
unfolding parsed_names
In-parsed_names parse_name name [] m = elim m [ ]
In-parsed_names parse_name name (s ∷ rest) m = elim (Option-cases (parse_name (trim s))) [
  | inl bad ↦
      let (part, n, e) = In-parsed_names parse_name name rest (subst (In name) (ground arith) m) in
      (part, there n, e)
  | inr (found, e2) ↦
      let listed : In name (found ∷ parsed_names parse_name rest) =
        subst (In name) (ground arith) m in
      elim listed [
        | here same ↦ (s, here refl, e2 ∙ ap some same)
        | there n ↦ let (part, k, e) = In-parsed_names parse_name name rest n in (part, there k, e)
      ]
]

module _ (H : HeaderMap) where
  -- A value of the Connection header names the field.
  abbrev pub IsNamed : (Text → Option Text) → H.Fields → Text → Type 0
  IsNamed parse_name fields name =
      (part : Text) × IsElement part (H.get_all (chars "connection") fields)
      × (parse_name (trim part) ≡ some name)

  IsNamed-named_fields :
      (parse_name : Text → Option Text) (fields : H.Fields) (name : Text)
      → IsNamed parse_name fields name
      → In name (named_fields H parse_name fields)
  unfolding named_fields
  IsNamed-named_fields parse_name fields name (part, (value, m, n), e) =
      parsed_names-In parse_name part name (elements (H.get_all (chars "connection") fields))
        (IsElement-elements part value (H.get_all (chars "connection") fields) m n) e

  named_fields-IsNamed :
      (parse_name : Text → Option Text) (fields : H.Fields) (name : Text)
      → In name (named_fields H parse_name fields)
      → IsNamed parse_name fields name
  unfolding named_fields
  named_fields-IsNamed parse_name fields name m =
      let (part, n, e) =
        In-parsed_names parse_name name (elements (H.get_all (chars "connection") fields)) m in
      (part, elements-IsElement part (H.get_all (chars "connection") fields) n, e)

  remove-stays :
      (name gone : Text) (fields : H.Fields)
      → H.get_all gone fields ≡ []
      → H.get_all gone (H.remove name fields) ≡ []
  remove-stays name gone fields h = elim (Bool-cases (text_eq gone name)) [
    | inl same ↦
        let e : gone ≡ name = eq_of_text_eq gone name same in
        subst (λ n. H.get_all n (H.remove name fields) ≡ []) (sym e) (H.get_all-remove name fields)
    | inr other ↦
        H.get_all-remove_other name gone fields (λ e. ground (arith, other, text_eq_refl gone, e))
        ∙ h
  ]

  remove_all-stays :
      (names : List Text) (gone : Text) (fields : H.Fields)
      → H.get_all gone fields ≡ []
      → H.get_all gone (remove_all H names fields) ≡ []
  unfolding remove_all
  remove_all-stays [] gone fields h = h
  remove_all-stays (name ∷ names) gone fields h =
      remove_all-stays names gone (H.remove name fields) (remove-stays name gone fields h)

  remove_all-In :
      (names : List Text) (gone : Text) (fields : H.Fields)
      → In gone names
      → H.get_all gone (remove_all H names fields) ≡ []
  unfolding remove_all
  remove_all-In [] gone fields m = elim m [ ]
  remove_all-In (name ∷ names) gone fields (here e) =
      remove_all-stays names gone (H.remove name fields)
        (subst (λ n. H.get_all n (H.remove name fields) ≡ []) e (H.get_all-remove name fields))
  remove_all-In (name ∷ names) gone fields (there m) =
      remove_all-In names gone (H.remove name fields) m

  remove_all-other :
      (names : List Text) (kept : Text) (fields : H.Fields)
      → (In kept names → ⊥)
      → H.get_all kept (remove_all H names fields) ≡ H.get_all kept fields
  unfolding remove_all
  remove_all-other [] kept fields apart = refl
  remove_all-other (name ∷ names) kept fields apart =
      remove_all-other names kept (H.remove name fields) (λ m. apart (there m))
      ∙ H.get_all-remove_other name kept fields (λ e. apart (here (sym e)))

  -- After cleaning, none of the eight hop-by-hop fields is left, and none whose name is a part of
  -- a value of the Connection header; every other field is as before.
  pub clean_hop_headers_lem :
      (parse_name : Text → Option Text) (fields : H.Fields)
      → ((name : Text)
          → IsHopByHop name ⊎ IsNamed parse_name fields name
          → H.get_all name (clean_hop_headers H parse_name fields) ≡ [])
        × ((name : Text)
            → (IsHopByHop name → ⊥)
            → (IsNamed parse_name fields name → ⊥)
            → H.get_all name (clean_hop_headers H parse_name fields) ≡ H.get_all name fields)
  unfolding clean_hop_headers hop_names
  clean_hop_headers_lem parse_name fields = (gone, kept)
    where
      named : List Text
      named = named_fields H parse_name fields

      gone :
          (name : Text)
          → IsHopByHop name ⊎ IsNamed parse_name fields name
          → H.get_all name (remove_all H hop_names (remove_all H named fields)) ≡ []
      gone name (inl m) = remove_all-In hop_names name (remove_all H named fields) m
      gone name (inr m) =
          remove_all-stays hop_names name (remove_all H named fields)
            (remove_all-In named name fields (IsNamed-named_fields parse_name fields name m))

      kept :
          (name : Text)
          → (IsHopByHop name → ⊥)
          → (IsNamed parse_name fields name → ⊥)
          → H.get_all name (remove_all H hop_names (remove_all H named fields))
            ≡ H.get_all name fields
      kept name a b =
          remove_all-other hop_names name (remove_all H named fields) a
          ∙ remove_all-other named name fields
              (λ m. b (named_fields-IsNamed parse_name fields name m))
