-- ===== src/Package/Reader.antt =====
-- src/package/format.rs: `read_package_at`, `validate_contents` and `package_openapi`. The crates that
-- they call are an interface.
pub mod Sound
use pishoo.Base.{
  ℕ, String, Bool, true, false, not, ◌&&◌, ◌||◌, Option, none, some, List, [], ◌∷◌, ◌++◌, Text,
  chars, text_eq, any, Result, ok, err, ◌>>=◌, ◌>>◌, refuse_if, ok_or,
}
use pishoo.Failure.{Error, Fallible, invalid_component}
use pishoo.Values.{Values, ℤ, lookup, get, at, is_text, is_true}
use pishoo.Package.Names.{is_standard_author}
use pishoo.Package.Component.{Event, OpenApi, validate_openapi}
use pishoo.Package.Archive.Checks.{Archive, Bytes, take}
use pishoo.Package.Archive.{Files, waz_read}
use pishoo.Package.Metadata.{Metadata, Url, package_metadata}
use pishoo.Package.Signing.{Pki, certificates}
use pishoo.Package.Signing.Chain.{verify_chain_with_root}
use pishoo.Package.Declarations.{one_of, validate_declarations}
use pishoo.Package.Contents.{
  Reading, read_sections, scan_sections, magic, check_standard, verify_signature,
}

-- The crates' functions, and the root that chains of certificates end in.
pub record Crates (Value : Type 0) : Type 0 where
  pub values : Values Value
  pub pki : Pki
  -- `serde_json::from_slice`
  pub parse : Bytes → Option Value
  pub parse_url : Text → Option Url
  -- `wasmparser::Parser::new(0).parse_all`
  pub payloads : Bytes → List (Option Event)
  pub parse_openapi : Bytes → Option OpenApi
  pub parse_grantee : Text → Bool
  pub parse_effect : Text → Bool
  pub utf8 : Text → Bytes
  pub from_utf8 : Bytes → Option Text
  pub open_zip : Bytes → Option Archive
  pub root : Bytes

module _ {Value : Type 0} (C : Crates Value) where
  abbrev pub backend_of : Files → Option Bytes
  backend_of files = lookup (chars "backend.wasm") files

  unfoldable pub package_openapi : Files → Fallible Bytes
  unfolding lookup read_sections
  package_openapi files =
      ok_or (backend_of files) (invalid_component "package has no backend") >>= λ backend.
      read_sections (record { document = none; depth = 0 }) (C.payloads backend) >>= λ reading.
      ok_or reading.document (invalid_component "missing embedded OpenAPI")

  unfoldable pub metadata_of : Files → Fallible Metadata
  unfolding package_metadata
  metadata_of files = package_metadata C.values C.pki.normalize_name C.parse C.parse_url files

  unfoldable pub check_backend : Bytes → Fallible (Unit {0})
  unfolding scan_sections text_eq take
  check_backend backend =
      refuse_if (not (text_eq (take 8 backend) magic))
        (invalid_component "backend must be a WASM component")
      >> scan_sections (C.payloads backend)

  abbrev pub app_of : Value → Bool
  app_of group = is_true C.values (at C.values (chars "app") group)

  -- `groups.and_then(Value::as_object).is_some_and(...)`
  abbrev pub has_app_group : Option Value → Bool
  has_app_group none = false
  has_app_group (some groups) = elim (C.values.as_object groups) [
    | none ↦ false
    | some rows ↦ any (λ row. app_of row.1) rows
  ]

  abbrev pub or_else : Option Value → Option Value → Option Value
  or_else (some a) b = some a
  or_else none b = b

  unfoldable pub groups_of : Value → Option Value
  unfolding get at
  groups_of document =
      or_else (get C.values (chars "x-access-groups") document)
        (get C.values (chars "access-groups") (at C.values (chars "x-pishoo") document))

  unfoldable pub check_document : Metadata → Bytes → Fallible (Unit {0})
  unfolding validate_openapi check_standard at is_text validate_declarations groups_of is_true
  check_document m raw = validate_openapi C.parse_openapi raw >>= λ api.
      check_standard m api
      >> ok_or (C.parse raw) (invalid_component "invalid OpenAPI JSON")
      >>= λ document.
          refuse_if
            (not (
              is_text C.values m.version
                (at C.values (chars "version") (at C.values (chars "info") document))))
            (invalid_component "OpenAPI version differs from package version")
          >> validate_declarations C.values C.parse_grantee C.parse_effect document
          >> refuse_if (not m.has_app && has_app_group (groups_of document))
              (invalid_component "app capability requires this package's public resources")

  abbrev pub check_if : Option Bytes → (Bytes → Fallible (Unit {0})) → Fallible (Unit {0})
  check_if none check = ok tt
  check_if (some backend) check = check backend

  unfoldable pub validate_contents : Files → Fallible Metadata
  unfolding metadata_of text_eq is_standard_author lookup check_backend package_openapi
      check_document
  validate_contents files = metadata_of files >>= λ m.
      refuse_if (text_eq m.name (chars "std"))
        (invalid_component "package name conflicts with the native std namespace")
      >> refuse_if
          (text_eq m.name (chars "app") && m.has_lib && not (is_standard_author m.publisher))
          (invalid_component "ordinary Lib name conflicts with the frontend app namespace")
      >> check_if (backend_of files) check_backend
      >> check_if (backend_of files)
          (λ backend. package_openapi files >>= λ raw. check_document m raw)
      >> ok m

  abbrev pub as_invalid : {A : Type 0} → Result String A → Fallible A
  as_invalid (ok a) = ok a
  as_invalid (err message) = err (invalid_component message)

  unfoldable pub read_package_at : Bytes → ℤ → Fallible Files
  unfolding waz_read validate_contents certificates verify_chain_with_root verify_signature
  read_package_at bytes seconds = as_invalid (waz_read C.from_utf8 C.open_zip bytes) >>= λ files.
      validate_contents files >>= λ m. certificates C.values C.pki C.parse files >>= λ chain.
      verify_chain_with_root C.pki chain m.publisher seconds C.root
      >> verify_signature C.values C.pki C.utf8 C.parse files m.publisher
      >> ok files
