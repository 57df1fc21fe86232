-- ===== src/Contact/Protocol.antt =====
-- src/contact.rs and src/contact/delivery.rs: the texts and answers of the contact protocol. The
-- parsers of queries and of integers are parameters; `now` is the time in seconds.
mod Laws
mod Tests
use pishoo.Base.{
  ℕ, zero, suc, ◌+◌, ◌*◌, ◌^◌, Bool, true, false, not, ◌&&◌, ◌||◌, Option, none, some, List, [],
  ◌∷◌, ◌++◌, Text, chars, text_eq, ends_with, trim, trim_end, to_ascii_lowercase, split, len,
  is_nil, all, any, ltb, leb, ◌==◌, is_ascii_lowercase, is_ascii_digit, strip_prefix, starts_with,
  if◌then◌else◌, Result, ok, err, ◌>>=◌, ◌>>◌, refuse_if, ok_or,
}
use pishoo.Setup.Requests.{Json, value_at}
use pishoo.Contact.Queue.{Failure}

-- i64, read as an integer.
pub data ℤ : Type 0 where
  pos : ℕ → ℤ
  negsuc : ℕ → ℤ

abbrev pub i64_max : ℕ
i64_max = 9223372036854775807

-- `raw.ends_with(".dhttp.net")`
unfoldable pub ends_in : Text → Text → Bool
ends_in t [] = is_nil t
ends_in t (c ∷ s) = let rest = ends_in t s in text_eq (c ∷ s) t || rest

abbrev pub tilde : ℕ → Bool
tilde c = c == b'~'

abbrev pub dot : ℕ → Bool
dot c = c == b'.'

unfoldable pub expand : Text → Text
unfolding ends_in
expand raw =
    if ends_with b'~' raw
    then trim_end dot (trim_end tilde raw) ++ chars ".dhttp.net"
    else if ends_in (chars ".dhttp.net") raw
    then raw
    else raw ++ chars ".dhttp.net"

abbrev pub label_char : ℕ → Bool
label_char c = is_ascii_lowercase c || is_ascii_digit c || c == b'-'

unfoldable pub good_label : Text → Bool
good_label s =
    not (is_nil s)
    && leb (len s) 63
    && not (starts_with (chars "-") s)
    && not (ends_with b'-' s)
    && all label_char s

-- `expanded.trim_end_matches(".dhttp.net")` is empty just if the text is the suffix repeated.
unfoldable pub only_suffixes : ℕ → Text → Bool
only_suffixes n [] = true
only_suffixes zero (c ∷ s) = false
only_suffixes (suc n) (c ∷ s) = elim (strip_prefix (chars ".dhttp.net") (c ∷ s)) [
  | none ↦ false
  | some rest ↦ only_suffixes n rest
]

unfoldable pub name : Text → Result Failure Text
unfolding expand good_label only_suffixes
name raw =
    let expanded = expand (to_ascii_lowercase (trim raw)) in
    if ltb 253 (len expanded)
      || only_suffixes (len expanded) expanded
      || not (all good_label (split b'.' expanded))
    then err (400, chars "invalid identity name")
    else ok expanded

module _ (parse_query : Text → List (Text × Text)) (parse_i64 : Text → Option ℤ) where
  -- The loop of `parameter`; `result` is what was found so far.
  unfoldable pub find_parameter :
      Text → Option Text → List (Text × Text) → Result Failure (Option Text)
  find_parameter key result [] = ok result
  find_parameter key result ((k, v) ∷ rest) = elim (text_eq k key) [
    | false ↦ find_parameter key result rest
    | true ↦ elim result [
      | some before ↦ err (400, chars "duplicate parameter")
      | none ↦ find_parameter key (some v) rest
    ]
  ]

  -- `query` is what follows the question mark of the target.
  unfoldable pub integer : Text → Text → ℤ → Result Failure ℤ
  unfolding find_parameter
  integer query key default = find_parameter key none (parse_query query) >>= λ found. elim found [
    | none ↦ ok default
    | some v ↦ ok_or (parse_i64 v) (400, chars "invalid number")
  ]

  abbrev pub page_bounds : ℤ → ℤ → Result Failure (ℕ × ℕ)
  page_bounds (pos p) (pos size) =
      if ltb p 1 || (ltb size 1 || ltb 100 size)
      then err (400, chars "invalid pagination")
      else ok (p, size)
  page_bounds _ _ = err (400, chars "invalid pagination")

  unfoldable pub page : Text → Result Failure (ℕ × ℕ)
  unfolding integer
  page query = integer query (chars "page") (pos 1) >>= λ p.
      integer query (chars "page_size") (pos 20) >>= λ size. page_bounds p size

module _ {Value : Type 0} (json : Json Value) (as_i64 : Value → Option ℤ) where
  abbrev pub at_key : Text → Value → Option Value
  at_key key body = elim (json.as_object body) [ none ↦ none | some fields ↦ value_at key fields ]

  abbrev pub text_at : Text → Value → Option Text
  text_at key body = elim (at_key key body) [ none ↦ none | some v ↦ json.as_str v ]

  abbrev pub has_text : Text → Text → Value → Bool
  has_text key t body = elim (text_at key body) [ none ↦ false | some s ↦ text_eq s t ]

  abbrev pub positive : Option ℤ → Option ℕ
  positive (some (pos (suc n))) = some (suc n)
  positive _ = none

  abbrev pub i64_at : Text → Value → Option ℤ
  i64_at key body = elim (at_key key body) [ none ↦ none | some v ↦ as_i64 v ]

  unfoldable pub pending_review : ℕ → Value → Result Failure (Option ℕ)
  pending_review code body =
      if not (
        (code == 202 && has_text (chars "status") (chars "pending_review") body)
        || (code == 400 && has_text (chars "error") (chars "need_review") body))
      then ok none
      else elim (positive (i64_at (chars "review_id") body)) [
        | none ↦ err (400, chars "review protocol upgrade required")
        | some id ↦ ok (some id)
      ]

  unfoldable pub progress_of : Option Text → Result Failure Bool
  progress_of none = err (502, chars "invalid review status")
  progress_of (some s) =
      if text_eq s (chars "pending")
      then ok false
      else if text_eq s (chars "allowed") || text_eq s (chars "consumed")
      then ok true
      else if text_eq s (chars "denied")
      then err (409, chars "review_denied")
      else if text_eq s (chars "expired")
      then err (410, chars "review_expired")
      else err (502, chars "invalid review status")

  unfoldable pub review_progress : ℕ → Value → Result Failure Bool
  unfolding progress_of
  review_progress code body =
      if code == 404
      then err (410, chars "review_expired")
      else if not (code == 200)
      then err (if code == 202 || code == 400 then 409 else code, chars "review status unavailable")
      else progress_of (text_at (chars "status") body)

  -- The time of expiry that a body asks for, before it is compared with the present.
  unfoldable pub asked_expiry : ℕ → Value → Result Failure ℤ
  asked_expiry now body = elim (at_key (chars "expires_after") body) [
    | some seconds ↦ elim (at_key (chars "valid_before") body) [
      | some time ↦ err (400, chars "use expires_after or valid_before")
      | none ↦ elim (positive (as_i64 seconds)) [
        | none ↦ err (400, chars "invalid expires_after")
        | some n ↦
            if ltb i64_max (now + n) then err (400, chars "expiry overflow") else ok (pos (now + n))
      ]
    ]
    | none ↦ elim (at_key (chars "valid_before") body) [
      | some time ↦ ok_or (as_i64 time) (400, chars "invalid valid_before")
      | none ↦ ok (pos (now + 7 * 86400))
    ]
  ]

  abbrev pub in_future : ℕ → ℤ → Result Failure ℕ
  in_future now (pos t) =
      if leb t now then err (400, chars "valid_before must be in the future") else ok t
  in_future now (negsuc t) = err (400, chars "valid_before must be in the future")

  unfoldable pub request_expiry : ℕ → Value → Result Failure ℕ
  unfolding asked_expiry
  request_expiry now body = asked_expiry now body >>= in_future now
