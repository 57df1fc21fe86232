-- ===== src/Package/Contents.antt =====
-- src/package/format.rs: `read_package_at`, `validate_contents`, `package_openapi` and
-- `verify_signature`, what a package is held against before it is used.
pub mod Sections
pub mod Signed
pub mod Digits
pub mod Records
mod Tests
use pishoo.Base.{
  ℕ, zero, suc, ◌+◌, ◌-◌, ◌*◌, ◌/◌, ◌%◌, ◌^◌, Bool, true, false, not, ◌&&◌, ◌||◌, Option, none,
  some, List, [], ◌∷◌, ◌++◌, String, Text, chars, text_eq, any, filter, length, len, leb, ltb, ◌==◌,
  if◌then◌else◌, is_some, is_none, is_nil, Result, ok, err, ◌>>=◌, ◌>>◌, refuse_if, ok_or,
}
use pishoo.Failure.{Error, Fallible, invalid_component, package_policy}
use pishoo.Values.{Values, ℤ, pos, lookup, get, at, is_text, is_true}
use pishoo.Routes.{reserved}
use pishoo.Package.Names.{is_standard_author}
use pishoo.Package.Component.{
  Payload, component_version, opens, closes, other, custom, Event, OpenApi, PathItem, is_openapi,
  is_signature, validate_openapi,
}
use pishoo.Package.Archive.Checks.{Bytes, take}
use pishoo.Package.Archive.{Files}
use pishoo.Package.Metadata.{Metadata, Url, text, filled, package_metadata}
use pishoo.Package.Signing.{
  GeneralName, dns_name, Certificate, Pki, required, decode_text, decode_all, certificates,
  names_publisher, is_version_one,
}
use pishoo.Package.Signing.Chain.{verify_chain_with_root}
use pishoo.Package.Signing.Revocation.{bytes_leb}
use pishoo.Package.Declarations.{is_under, validate_declarations, one_of}

-- What the loop over the payloads of a component has read.
pub record Reading : Type 0 where
  pub document : Option Bytes
  pub depth : ℕ

unfoldable pub read_section : Reading → Payload → Fallible Reading
unfolding is_openapi
read_section r opens = ok (record r { depth = suc r.depth })
read_section r closes = ok (record r { depth = r.depth - 1 })
read_section r (custom name bytes end) =
    if is_openapi name
    then (refuse_if (not (r.depth == 0) || is_some r.document || ltb (1024 * 1024) (length bytes))
          (invalid_component "OpenAPI must be a unique bounded top-level section")
        >> ok (record r { document = some bytes }))
    else ok r
read_section r component_version = ok r
read_section r other = ok r

unfoldable pub read_sections : Reading → List (Option Event) → Fallible Reading
unfolding read_section
read_sections r [] = ok r
read_sections r (none ∷ events) = err (invalid_component "malformed backend")
read_sections r (some e ∷ events) = read_section r e.payload >>= λ next. read_sections next events

-- The other loop: no publisher's signature inside the component.
abbrev pub embeds_signature : Payload → Bool
embeds_signature (custom name bytes end) = is_signature name
embeds_signature p = false

unfoldable pub scan_sections : List (Option Event) → Fallible (Unit {0})
unfolding is_signature
scan_sections [] = ok tt
scan_sections (none ∷ events) = err (invalid_component "malformed backend")
scan_sections (some e ∷ events) =
    refuse_if (embeds_signature e.payload)
      (invalid_component "backend must not embed a second publisher signature")
    >> scan_sections events

abbrev pub magic : Bytes
magic = 0 ∷ 0x61 ∷ 0x73 ∷ 0x6d ∷ 0x0d ∷ 0 ∷ 1 ∷ 0 ∷ []

abbrev pub host_prefixes : List Text
host_prefixes =
    chars "/acl"
    ∷ chars "/contact"
    ∷ chars "/contacts"
    ∷ chars "/sys"
    ∷ chars "/pishoo"
    ∷ chars "/file"
    ∷ chars "/dhttp"
    ∷ []

abbrev pub paths_of : OpenApi → List (Text × PathItem)
paths_of api = elim api.paths [ none ↦ [] | some paths ↦ paths ]

unfoldable pub is_host_path : Text → Bool
unfolding reserved is_under
is_host_path path = reserved path || any (λ prefix. is_under prefix path) host_prefixes

-- The paths of a package whose publisher is the standard one.
unfoldable pub check_standard : Metadata → OpenApi → Fallible (Unit {0})
unfolding is_standard_author is_host_path
check_standard m api =
    refuse_if (is_standard_author m.publisher && any (λ p. is_host_path p.0) (paths_of api))
      (invalid_component "standard Lib conflicts with a reserved API path")
    >> refuse_if
        (is_standard_author m.publisher
          && any (λ p. not (is_under (chars "/" ++ m.name) p.0)) (paths_of api))
        (invalid_component "standard Lib paths must stay under its package name")

-- The little-endian bytes of a number in a width.
unfoldable pub to_le_bytes : ℕ → ℕ → Bytes
to_le_bytes zero n = []
to_le_bytes (suc width) n = n % 256 ∷ to_le_bytes width (n / 256)

-- Hexadecimal digits, as `{:x}` writes them and `from_str_radix` reads them.
abbrev pub hex_digit : ℕ → ℕ
hex_digit n = if ltb n 10 then n + 48 else n + 87

unfoldable pub hex : Bytes → Text
hex [] = []
hex (b ∷ bs) = hex_digit (b / 16) ∷ hex_digit (b % 16) ∷ hex bs

abbrev pub digit_value : ℕ → Option ℕ
digit_value c =
    if leb 48 c && leb c 57
    then some (c - 48)
    else if leb 97 c && leb c 102
    then some (c - 87)
    else if leb 65 c && leb c 70
    then some (c - 55)
    else none

abbrev pub with_byte : Option ℕ → Option ℕ → Option Bytes → Option Bytes
with_byte (some h) (some l) (some bs) = some ((h * 16 + l) ∷ bs)
with_byte _ _ _ = none

unfoldable pub unhex : Text → Option Bytes
unhex [] = some []
unhex (h ∷ []) = none
unhex (h ∷ l ∷ s) = let rest = unhex s in with_byte (digit_value h) (digit_value l) rest

abbrev pub is_signature_file : Text × Bytes → Bool
is_signature_file f = text_eq f.0 (chars "signature.json")

module _ {Value : Type 0} (V : Values Value) (pki : Pki) (utf8 : Text → Bytes) where
  -- What the digest of the payload takes in of one file.
  unfoldable pub file_record : Text × Bytes → Bytes
  unfolding to_le_bytes
  file_record (name, bytes) =
      to_le_bytes 4 (length (utf8 name))
      ++ (utf8 name ++ (to_le_bytes 8 (length bytes) ++ pki.digest bytes))

  unfoldable pub payload_records : Files → Bytes
  unfolding file_record text_eq
  payload_records [] = []
  payload_records (f ∷ files) =
      let rest = payload_records files in
      if is_signature_file f then rest else file_record f ++ rest

  -- The order in which a `BTreeMap` gives its entries: that of the bytes of the names.
  unfoldable pub insert_file : Text × Bytes → Files → Files
  unfolding bytes_leb
  insert_file f [] = f ∷ []
  insert_file f (g ∷ files) =
      let rest = insert_file f files in
      if bytes_leb (utf8 f.0) (utf8 g.0) then f ∷ g ∷ files else g ∷ rest

  unfoldable pub by_name : Files → Files
  unfolding insert_file
  by_name [] = []
  by_name (f ∷ files) = insert_file f (by_name files)

  unfoldable pub waz_payload : Files → Text
  unfolding payload_records by_name hex
  waz_payload files =
      hex
        (pki.digest ((chars "pishoo-waz-payload-v1" ++ 0 ∷ []) ++ payload_records (by_name files)))

  -- `u8::from_str_radix` of each pair of digits
  unfoldable pub signed_input : Files → Option Bytes
  unfolding waz_payload unhex
  signed_input files = elim (unhex (waz_payload files)) [
    | none ↦ none
    | some digest ↦ some ((chars "pishoo-waz-signature-v1" ++ 0 ∷ []) ++ digest)
  ]

  abbrev pub bad : {A : Type 0} → String → Fallible A
  bad message = err (invalid_component message)

  unfoldable pub bad_envelope : Value → Bool
  unfolding at
  bad_envelope envelope =
      elim (V.as_object envelope) [ none ↦ true | some fields ↦ not (length fields == 3) ]
      || not (is_version_one (V.as_u64 (at V (chars "version") envelope)))
      || elim (V.as_array (at V (chars "certificates") envelope)) [
        | none ↦ true
        | some [] ↦ true
        | some (c ∷ cs) ↦ false
      ]

  unfoldable pub certificate_values : Value → List Value
  unfolding at
  certificate_values envelope = elim (V.as_array (at V (chars "certificates") envelope)) [
    | none ↦ []
    | some values ↦ values
  ]

  -- The certificates, of which none is empty.
  unfoldable pub decode_filled : List Value → Fallible (List Bytes)
  decode_filled [] = ok []
  decode_filled (value ∷ values) =
      decode_text V pki (invalid_component "invalid certificate encoding") (V.as_str value)
      >>= λ bytes.
          refuse_if (is_nil bytes) (invalid_component "empty signer certificate")
          >> decode_filled values
          >>= λ chain. ok (bytes ∷ chain)

  -- The publisher's key has signed the input.
  unfoldable pub check_signed : Files → Text → List Bytes → Bytes → Fallible (Unit {0})
  unfolding text_eq signed_input
  check_signed files publisher [] signature = bad "invalid signer certificate"
  check_signed files publisher (first ∷ chain) signature =
      ok_or (pki.parse_certificate first) (invalid_component "invalid signer certificate")
      >>= λ parsed.
          refuse_if (not (is_nil parsed.0)) (invalid_component "trailing signer certificate data")
          >> ok_or (pki.subject_key (first ∷ chain)) (invalid_component "invalid signer owner_hash")
          >>= λ key.
              ok_or parsed.1.alternative_names (invalid_component "invalid signer names")
              >>= λ names.
                  refuse_if (not (names_publisher publisher names))
                    (invalid_component "signer certificate and publisher disagree")
                  >> ok_or (signed_input files) (invalid_component "unreachable")
                  >>= λ input.
                      ok_or (pki.verify_signature parsed.1.public_key input signature)
                        (invalid_component "unsupported publisher signing key")
                      >>= λ good.
                          refuse_if (not good) (package_policy "package_signature_invalid" 422)

  module _ (parse : Bytes → Option Value) where
    abbrev pub bounded_envelope : Files → Option Bytes
    bounded_envelope files = elim (lookup (chars "signature.json") files) [
      | none ↦ none
      | some bytes ↦ if leb (length bytes) (64 * 1024) then some bytes else none
    ]

    unfoldable pub verify_signature : Files → Text → Fallible (Unit {0})
    unfolding lookup bad_envelope text certificate_values decode_filled check_signed
    verify_signature files publisher =
        ok_or (bounded_envelope files)
          (invalid_component "missing or oversized publisher signature")
        >>= λ bytes.
            ok_or (parse bytes) (invalid_component "invalid signature envelope") >>= λ envelope.
            refuse_if (bad_envelope envelope) (invalid_component "unsupported signature envelope")
            >> text V envelope (chars "signature")
            >>= λ encoded.
                ok_or (pki.decode encoded) (invalid_component "invalid signature encoding")
                >>= λ signature.
                    refuse_if (is_nil signature || ltb 8192 (length signature))
                      (invalid_component "invalid signature size")
                    >> decode_filled (certificate_values envelope)
                    >>= λ chain. check_signed files publisher chain signature
