-- ===== src/Package/Component.antt =====
-- src/package/manifest.rs: `validate_lib` and `validate_openapi`. The payloads that wasmparser
-- reads from a component and the parser of OpenAPI documents are parameters, and so is the
-- verification of a signature, for which Signature has `verify_component_signature`.
pub mod Documents
pub mod Paths
pub mod Sealing
pub mod Signature
mod Tests
use pishoo.Base.{
  ℕ, zero, suc, ◌-◌, ◌*◌, String, Bool, true, false, not, ◌&&◌, ◌||◌, Option, none, some, List, [],
  ◌∷◌, Text, chars, text_eq, starts_with, any, is_some, length, ltb, ◌==◌, if◌then◌else◌, Result,
  ok, err, ◌>>=◌, ◌>>◌, refuse_if, ok_or,
}
use pishoo.Failure.{Error, Fallible, invalid_component}
use pishoo.Setup.{valid_path}

abbrev pub Bytes : Type 0
Bytes = List ℕ

-- `wasmparser::Payload`, as far as the code tells payloads apart.
pub data Payload : Type 0 where
  component_version opens closes other : Payload
  -- The name, the data and the end of the range of a custom section.
  custom : Text → Bytes → ℕ → Payload

pub record Event : Type 0 where
  pub payload : Payload
  -- The end of `as_section`.
  pub section : Option ℕ

pub record Sections : Type 0 where
  pub document : Option Bytes
  pub depth : ℕ
  pub component : Bool
  pub section_end : ℕ
  pub signature : Option (ℕ × Bytes)

abbrev pub start_sections : Sections
start_sections = record {
  document = none;
  depth = 0;
  component = false;
  section_end = 8;
  signature = none;
}

unfoldable pub is_openapi : Text → Bool
is_openapi name = text_eq name (chars "pishoo:openapi")

unfoldable pub is_signature : Text → Bool
is_signature name = text_eq name (chars "pishoo:signature")

unfoldable pub take_document : Sections → Bytes → Fallible Sections
take_document s bytes =
    refuse_if (is_some s.document) (invalid_component "duplicate pishoo:openapi section")
    >> refuse_if (ltb (1024 * 1024) (length bytes)) (invalid_component "OpenAPI exceeds 1 MiB")
    >> ok (record s { document = some bytes })

unfoldable pub take_signature : ℕ → Sections → Bytes → ℕ → Fallible Sections
take_signature size s bytes end =
    refuse_if
      (not (s.depth == 0)
        || is_some s.signature
        || not (end == size)
        || ltb (64 * 1024) (length bytes))
      (invalid_component "signature must be a unique bounded final section")
    >> ok (record s { signature = some (s.section_end, bytes) })

-- The arms of the match.
unfoldable pub read_payload : ℕ → Sections → Payload → Fallible Sections
unfolding take_document take_signature is_openapi is_signature
read_payload size s component_version =
    ok (if s.depth == 0 then record s { component = true } else s)
read_payload size s opens = ok (record s { depth = suc s.depth })
read_payload size s closes = ok (record s { depth = s.depth - 1 })
read_payload size s other = ok s
read_payload size s (custom name bytes end) =
    if s.depth == 0 && is_openapi name
    then take_document s bytes
    else if is_signature name
    then take_signature size s bytes end
    else ok s

-- `section_end` moves at the top level only.
abbrev pub move_end : ℕ → Option ℕ → Sections → Sections
move_end zero (some end) s = record s { section_end = end }
move_end _ _ s = s

unfoldable pub read_payloads : ℕ → Sections → List (Option Event) → Fallible Sections
unfolding read_payload
read_payloads size s [] = ok s
read_payloads size s (none ∷ events) = err (invalid_component "invalid component")
read_payloads size s (some e ∷ events) = elim (read_payload size s e.payload) [
  | err failure ↦ err failure
  | ok next ↦ read_payloads size (move_end s.depth e.section next) events
]

pub record PathItem : Type 0 where
  pub has_reference : Bool
  pub operation_ids : List (Option Text)

pub record OpenApi : Type 0 where
  pub openapi : Text
  pub paths : Option (List (Text × PathItem))

abbrev pub brace : ℕ → Bool
brace c = c == b'{' || c == b'}'

unfoldable pub check_ids : List Text → List (Option Text) → Fallible (List Text)
check_ids seen [] = ok seen
check_ids seen (none ∷ ids) = check_ids seen ids
check_ids seen (some id ∷ ids) =
    refuse_if (any (text_eq id) seen) (invalid_component "duplicate operationId")
    >> check_ids (id ∷ seen) ids

unfoldable pub check_paths : List Text → List (Text × PathItem) → Fallible (List Text)
unfolding check_ids
check_paths seen [] = ok seen
check_paths seen ((path, item) ∷ paths) =
    refuse_if (not (valid_path path) || any brace path) (invalid_component "unsupported API path")
    >> refuse_if item.has_reference (invalid_component "path-level references are unsupported")
    >> check_ids seen item.operation_ids
    >>= λ next. check_paths next paths

unfoldable pub validate_openapi : (Bytes → Option OpenApi) → Bytes → Fallible OpenApi
unfolding check_paths
validate_openapi parse_openapi bytes =
    refuse_if (ltb (1024 * 1024) (length bytes)) (invalid_component "OpenAPI exceeds 1 MiB")
    >> ok_or (parse_openapi bytes) (invalid_component "invalid OpenAPI")
    >>= λ openapi.
        refuse_if (not (starts_with (chars "3.1.") openapi.openapi))
          (invalid_component "only OpenAPI 3.1.x is supported")
        >> ok_or openapi.paths (invalid_component "missing OpenAPI paths")
        >>= λ paths. check_paths [] paths >>= λ ids. ok openapi

module _ (parse_openapi : Bytes → Option OpenApi) (payloads : Bytes → List (Option Event))
    (verify : Bytes → ℕ → Bytes → Bytes → Fallible (Unit {0})) where
  abbrev pub check_signature : Bytes → Option (ℕ × Bytes) → Bytes → Fallible (Unit {0})
  check_signature bytes none document = ok tt
  check_signature bytes (some (signed_end, envelope)) document =
      verify bytes signed_end envelope document

  unfoldable pub validate_lib : Bytes → Fallible OpenApi
  unfolding read_payloads validate_openapi
  validate_lib bytes =
      refuse_if (ltb (64 * 1024 * 1024) (length bytes))
        (invalid_component "component exceeds 64 MiB")
      >> read_payloads (length bytes) start_sections (payloads bytes)
      >>= λ s.
          refuse_if (not s.component) (invalid_component "lib.wasm must be a component")
          >> ok_or s.document (invalid_component "missing pishoo:openapi section")
          >>= λ document.
              check_signature bytes s.signature document >> validate_openapi parse_openapi document
