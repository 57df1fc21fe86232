-- ===== src/Contact/Protocol/Laws.antt =====
-- src/contact.rs: what holds of a name, a page and an expiry that are accepted.
use pishoo.Base.{
  ℕ, ◌+◌, ◌≤◌, ◌<◌, Bool, true, false, not, ◌||◌, Option, none, List, [], ◌∷◌, ◌++◌, Text, chars,
  ◌≢◌, ap, text_eq, eq_of_text_eq, is_nil, starts_with, is_ascii_lowercase, is_ascii_digit,
  text_eq_refl, ends_with, trim, trim_end, to_ascii_lowercase, split, len, all, All, ltb, leb, ◌≡◌,
  inl, inr, refl, subst, Bool-cases, Option-cases, Result-cases, arith, or-false, if◌then◌else◌, ok,
  ◌⊎◌,
}
use pishoo.Setup.Requests.{Json}
use pishoo.Contact.Protocol.{
  ℤ, pos, negsuc, i64_max, ends_in, tilde, dot, expand, good_label, only_suffixes, name, integer,
  label_char, page_bounds, page, at_key, positive, asked_expiry, request_expiry,
}

suffix : Text
suffix = chars ".dhttp.net"

ends_in-append : (t c : Text) → ends_in t (c ++ t) ≡ true
unfolding ends_in
ends_in-append [] [] = refl
ends_in-append (x ∷ t) [] = ground (arith, text_eq_refl (x ∷ t))
ends_in-append t (x ∷ c) = ground (arith, ends_in-append t c)

expand-suffix : (raw : Text) → ends_in (chars ".dhttp.net") (expand raw) ≡ true
unfolding expand
expand-suffix raw = go (ends_with b'~' raw) (ends_in (chars ".dhttp.net") raw) refl
  where
    go :
        (short : Bool) (full : Bool)
        → ends_in (chars ".dhttp.net") raw ≡ full
        → ends_in (chars ".dhttp.net") (
            if short
            then trim_end dot (trim_end tilde raw) ++ chars ".dhttp.net"
            else if full
            then raw
            else raw ++ chars ".dhttp.net")
          ≡ true
    go true full e = ends_in-append (chars ".dhttp.net") (trim_end dot (trim_end tilde raw))
    go false true e = e
    go false false e = ends_in-append (chars ".dhttp.net") raw

-- A lowercase letter, a digit or a hyphen.
abbrev pub IsLabelChar : ℕ → Type 0
IsLabelChar c = ((b'a' ≤ c) × (c ≤ b'z')) ⊎ ((b'0' ≤ c) × (c ≤ b'9')) ⊎ (c ≡ b'-')

pub record IsLabel (s : Text) : Type 0 where
  pub filled : s ≢ []
  pub short : len s ≤ 63
  pub letters : All IsLabelChar s
  pub begins : (rest : Text) → s ≢ b'-' ∷ rest
  pub ends : (before : Text) → s ≢ before ++ b'-' ∷ []

-- A name of at most 253 bytes in the domain, all of whose labels are valid.
abbrev pub IsName : Text → Type 0
IsName n =
    (len n ≤ 253)
    × All IsLabel (split b'.' n)
    × ((front : Text) × (n ≡ front ++ chars ".dhttp.net"))

label_char-IsLabelChar : (c : ℕ) → label_char c ≡ true → IsLabelChar c
label_char-IsLabelChar c h = elim (Bool-cases (is_ascii_lowercase c)) [
  | inl letter ↦ inl (ground arith, ground arith)
  | inr other ↦ elim (Bool-cases (is_ascii_digit c)) [
    | inl digit ↦ inr (inl (ground arith, ground arith))
    | inr neither ↦ inr (inr (ground arith))
  ]
]

label_chars : (s : Text) → all label_char s ≡ true → All IsLabelChar s
label_chars [] h = tt
label_chars (c ∷ s) h = (label_char-IsLabelChar c (ground arith), label_chars s (ground arith))

ends_with-last : (c : ℕ) (before : Text) → ends_with c (before ++ c ∷ []) ≡ true
unfolding ends_with
ends_with-last c [] = ground arith
ends_with-last c (x ∷ []) = ground arith
ends_with-last c (x ∷ y ∷ before) = ground (arith, ends_with-last c (y ∷ before))

good_label-parts :
    (s : Text)
    → good_label s ≡ true
    → (is_nil s ≡ false)
      × (leb (len s) 63 ≡ true)
      × (starts_with (chars "-") s ≡ false)
      × (ends_with b'-' s ≡ false)
      × (all label_char s ≡ true)
unfolding good_label
good_label-parts s h = (ground arith, ground arith, ground arith, ground arith, ground arith)

good_label-IsLabel : (s : Text) → good_label s ≡ true → IsLabel s
unfolding starts_with
good_label-IsLabel s h =
    let (filled, short, begins, ends, letters) = good_label-parts s h in
    record {
      filled = λ e. ground (arith, subst (λ t. is_nil t ≡ false) e filled);
      short = ground arith;
      letters = label_chars s letters;
      begins = λ rest e. ground (arith, subst (λ t. starts_with (chars "-") t ≡ false) e begins);
      ends = λ before e.
          ground (arith, ends_with-last b'-' before, subst (λ t. ends_with b'-' t ≡ false) e ends);
    }

All-labels : (parts : List Text) → all good_label parts ≡ true → All IsLabel parts
All-labels [] h = tt
All-labels (s ∷ parts) h = (good_label-IsLabel s (ground arith), All-labels parts (ground arith))

ends_in-front : (t n : Text) → ends_in t n ≡ true → (front : Text) × (n ≡ front ++ t)
unfolding ends_in
ends_in-front [] [] h = ([], refl)
ends_in-front (x ∷ t) [] h = ground arith
ends_in-front t (c ∷ n) h = elim (Bool-cases (text_eq (c ∷ n) t)) [
  | inl same ↦ ([], eq_of_text_eq (c ∷ n) t same)
  | inr longer ↦ let (front, e) = ends_in-front t n (ground arith) in (c ∷ front, ap (λ s. c ∷ s) e)
]

-- A name that is accepted has at most 253 bytes, ends in the domain, and each of its labels has 1 to
-- 63 lowercase letters, digits and hyphens, of which the first and the last are no hyphens.
pub name-IsName : (raw : Text) {n : Text} → name raw ≡ ok n → IsName n
unfolding name
name-IsName raw {n} h =
    let expanded = expand (to_ascii_lowercase (trim raw)) in
    elim (Bool-cases (
      ltb 253 (len expanded)
      || only_suffixes (len expanded) expanded
      || not (all good_label (split b'.' expanded)))) [
        | inl bad ↦ ground arith
        | inr fine ↦
            let outer =
              or-false (ltb 253 (len expanded) || only_suffixes (len expanded) expanded)
                (not (all good_label (split b'.' expanded))) fine in
            let inner =
              or-false (ltb 253 (len expanded)) (only_suffixes (len expanded) expanded) outer.0 in
            let same : expanded ≡ n = ground arith in
            subst IsName same (
              ground (arith, inner.0),
              All-labels (split b'.' expanded) (ground (arith, outer.1)),
              ends_in-front (chars ".dhttp.net") expanded
                  (expand-suffix (to_ascii_lowercase (trim raw))),
            )
      ]

module _ (parse_query : Text → List (Text × Text)) (parse_i64 : Text → Option ℤ) where
  page_bounds_lem :
      (p size : ℤ) {a b : ℕ}
      → page_bounds parse_query parse_i64 p size ≡ ok (a, b)
      → (1 ≤ a) × (1 ≤ b) × (b ≤ 100)
  page_bounds_lem (pos p) (pos size) h = ground arith
  page_bounds_lem (negsuc p) size h = ground arith
  page_bounds_lem (pos p) (negsuc size) h = ground arith

  -- A page that is accepted has a number from 1 and a size from 1 to 100.
  pub page_lem :
      (query : Text) {p size : ℕ}
      → page parse_query parse_i64 query ≡ ok (p, size)
      → (1 ≤ p) × (1 ≤ size) × (size ≤ 100)
  unfolding page
  page_lem query {p} {size} h =
      elim (Result-cases (integer parse_query parse_i64 query (chars "page") (pos 1))) [
        | inr (e, fails) ↦ ground arith
        | inl (a, e) ↦
            elim (Result-cases (integer parse_query parse_i64 query (chars "page_size") (pos 20))) [
              | inr (e2, fails) ↦ ground arith
              | inl (b, e2) ↦ page_bounds_lem a b {a = p} {b = size} (ground arith)
            ]
      ]

module _ {Value : Type 0} (json : Json Value) (as_i64 : Value → Option ℤ) where
  asked_expiry-fits :
      (now : ℕ) (body : Value) {t : ℕ}
      → asked_expiry json as_i64 now body ≡ ok (pos t)
      → (at_key json as_i64 (chars "expires_after") body ≡ none) ⊎ (t ≤ i64_max)
  unfolding asked_expiry
  asked_expiry-fits now body {t} h =
      elim (Option-cases (at_key json as_i64 (chars "expires_after") body)) [
        | inl absent ↦ inl absent
        | inr (seconds, e) ↦ elim (Option-cases (at_key json as_i64 (chars "valid_before") body)) [
          | inr (time, e2) ↦ ground arith
          | inl alone ↦ elim (Option-cases (positive json as_i64 (as_i64 seconds))) [
            | inl bad ↦ ground arith
            | inr (n, e3) ↦ elim (Bool-cases (ltb i64_max (now + n))) [
              | inl over ↦ ground arith
              | inr fits ↦ inr (ground arith)
            ]
          ]
        ]
      ]

  -- An expiry that is accepted lies in the future, and one that is asked for by its distance does
  -- not overflow the signed 64-bit range.
  pub request_expiry-future :
      (now : ℕ) (body : Value) {t : ℕ}
      → request_expiry json as_i64 now body ≡ ok t
      → (now < t) × ((at_key json as_i64 (chars "expires_after") body ≡ none) ⊎ (t ≤ i64_max))
  unfolding request_expiry
  request_expiry-future now body {t} h = elim (Result-cases (asked_expiry json as_i64 now body)) [
    | inr (e, fails) ↦ ground arith
    | inl (negsuc s, e) ↦ ground arith
    | inl (pos s, e) ↦ elim (Bool-cases (leb s now)) [
      | inl past ↦ ground arith
      | inr ahead ↦
          let same : s ≡ t = ground arith in
          subst
            (λ u.
              (now < u)
              × ((at_key json as_i64 (chars "expires_after") body ≡ none) ⊎ (u ≤ i64_max)))
            same (ground arith, asked_expiry-fits now body e)
    ]
  ]
