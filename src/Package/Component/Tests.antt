-- ===== src/Package/Component/Tests.antt =====
-- A component with one document and a nested module.
use pishoo.Base.{
  ℕ, false, Option, none, some, List, [], ◌∷◌, Text, chars, text_eq, starts_with, strip_prefix,
  split, has_double, All, ok, ◌≡◌, refl,
}
use pishoo.Failure.{Fallible}
use pishoo.Package.Names.{dot_part}
use pishoo.Setup.{valid_path}
use pishoo.Package.Component.{
  Bytes, component_version, opens, closes, custom, Event, PathItem, OpenApi, is_openapi,
  is_signature, take_document, take_signature, read_payload, read_payloads, check_ids, check_paths,
  validate_openapi, validate_lib,
}
use pishoo.Package.Component.Paths.{
  present, all_ids, AreDistinctTexts, IsApiPath, validate_openapi-AreDistinctTexts,
}
use pishoo.Package.Component.Documents.{top_documents, validate_lib-top_documents}

reading : Unit {0}
unfolding text_eq starts_with strip_prefix split has_double dot_part valid_path is_openapi
    is_signature take_document take_signature read_payload read_payloads check_ids check_paths
    validate_openapi validate_lib
reading = tt

abbrev one_path : OpenApi
one_path = record {
  openapi = chars "3.1.0";
  paths = some (
      (chars "/a", record { has_reference = false; operation_ids = some (chars "get_a") ∷ [] })
      ∷ []);
}

abbrev parse_one : Bytes → Option OpenApi
parse_one b = some one_path

abbrev read_four : Bytes → List (Option Event)
read_four b =
    some (record { payload = component_version; section = none })
    ∷ some (record { payload = opens; section = some 20 })
    ∷ some (record { payload = closes; section = none })
    ∷ some (record {
      payload = custom (chars "pishoo:openapi") (b'{' ∷ b'}' ∷ []) 30;
      section = some 30;
    })
    ∷ []

abbrev no_signature : Bytes → ℕ → Bytes → Bytes → Fallible (Unit {0})
no_signature bytes end envelope document = ok tt

component_read : validate_lib parse_one read_four no_signature (0 ∷ []) ≡ ok one_path
unfolding reading
component_read = refl

validate_lib-top_documents_example :
    (document : Bytes) × (top_documents 0 (read_four (0 ∷ [])) ≡ document ∷ [])
    × (validate_openapi parse_one document ≡ ok one_path)
validate_lib-top_documents_example =
    validate_lib-top_documents parse_one read_four no_signature (0 ∷ []) component_read

document_read : validate_openapi parse_one [] ≡ ok one_path
unfolding reading
document_read = refl

validate_openapi-AreDistinctTexts_example :
    (parse_one [] ≡ some one_path)
    × ((paths : List (Text × PathItem)) × (one_path.paths ≡ some paths)
        × All IsApiPath paths
        × AreDistinctTexts (present (all_ids paths)))
validate_openapi-AreDistinctTexts_example =
    validate_openapi-AreDistinctTexts parse_one [] document_read
