-- ===== src/Package/Tests.antt =====
-- The package of the sample is read, verified and installed.
use mathlib.Core.List.{Perm}
use pishoo.Base.{
  ℕ, has_double, Option, len, strip_prefix, none, some, [], ◌∷◌, chars, text_eq, starts_with, split,
  split_once, trim, List, false, true, ok, ◌≡◌, refl, ◌⊎◌, if◌then◌else◌,
}
use pishoo.Failure.{Fallible}
use pishoo.Values.{pos, lookup, has_only, get, at, is_text, is_true}
use pishoo.Package.Sample.{
  Node, same, parse_certificate, pki, values, parse_json, crates, archive, sample_files,
  archive_bytes, response, store_answer, metadata, envelope, obj, field, str, end,
}
use pishoo.Package.Names.{valid_id, valid_name, release_version, waz_path, dot_part, top_level}
use pishoo.Package.Archive.Checks.{
  drop, take, byte_at, u16_at, u32_at, range, usize_add, map_insert, has_span, is_refused,
  entry_limit, bytes_eq, check_header, check_central, local_refused, check_local,
}
use pishoo.Package.Archive.{
  contains_file, parents, parents_from, add_directory, check_parents, check_directories, tile,
  store_entry, place_entry, read_entry, read_entries, read_contents, is_zip, end_refused, waz_read,
}
use pishoo.Package.Metadata.{Metadata, package_metadata}
use pishoo.Package.Metadata.Dependencies.{IsMetadata}
use pishoo.Package.Metadata.Sound.{package_metadata-IsMetadata}
use pishoo.Setup.{valid_path}
use pishoo.Package.Archive.{Files}
use pishoo.Package.Archive.Checks.{Bytes}
use pishoo.Package.Component.Documents.{top_documents}
use pishoo.Package.Component.Sealing.{seals}
use pishoo.Package.Component.{
  Event, component_version, opens, closes, custom, OpenApi, validate_openapi, validate_lib,
}
use pishoo.Package.Component.Signature.{
  verify_component_signature, IsPublishedBy, validate_lib-IsPublishedBy,
}
use pishoo.Package.Reader.{Crates, metadata_of, package_openapi, read_package_at}
use pishoo.Package.Reader.Sound.{IsGenuine, read_package_at-IsGenuine, package_openapi-validate_lib}
use pishoo.Package.Store.{Dependency, Resource, Proof}
use pishoo.Package.Store.Transfer.{store_get, IsTaken, store_get-IsTaken}
use pishoo.Package.Store.Release.{download_release}
use pishoo.Package.Store.Published.{IsRelease, download_release-IsRelease}
use pishoo.Package.Store.Order.{IsTopological}
use pishoo.Package.Store.Rounds.{IsClosed}
use pishoo.Package.Store.Collect.{collect}
use pishoo.Package.Store.Install.{
  download, dependencies_of, rounds, install_store_package, collect-total_of_store,
  install_store_package-IsClosed,
}

reading : Unit {0}
unfolding text_eq starts_with split split_once trim same parse_certificate parse_json store_answer
    lookup has_only get at is_text is_true package_metadata valid_id valid_name release_version
    metadata_of read_package_at store_get download_release install_store_package
reading = tt

abbrev demo : Metadata
demo = record {
  publisher = chars "a.net";
  name = chars "demo";
  version = chars "1.0.0";
  title = chars "T";
  description = chars "D";
  license = chars "X";
  changelog = chars "N";
  dependencies = [];
  has_lib = false;
  has_app = true;
  repository = none;
}

sample_metadata :
    package_metadata values pki.normalize_name parse_json (λ s. none) sample_files ≡ ok demo
unfolding reading
sample_metadata = refl

package_metadata-IsMetadata_example :
    IsMetadata values pki.normalize_name parse_json (λ s. none) sample_files demo
package_metadata-IsMetadata_example =
    package_metadata-IsMetadata values pki.normalize_name parse_json (λ s. none) sample_files
      sample_metadata

archive_reading : Unit {0}
unfolding waz_path dot_part top_level len split strip_prefix drop take byte_at u16_at u32_at range
    usize_add map_insert has_span is_refused entry_limit bytes_eq check_header check_central
    local_refused check_local contains_file parents parents_from add_directory check_parents
    check_directories tile store_entry place_entry read_entry read_entries read_contents is_zip
    end_refused waz_read text_eq starts_with
archive_reading = tt

sample_archive : waz_read (λ b. some b) (λ b. some archive) archive_bytes ≡ ok sample_files
unfolding archive_reading
sample_archive = refl

sample_read : read_package_at crates archive_bytes (pos 500) ≡ ok sample_files
unfolding reading archive_reading
sample_read = refl

read_package_at-IsGenuine_example : IsGenuine crates (pos 500) archive_bytes sample_files
read_package_at-IsGenuine_example =
    read_package_at-IsGenuine crates archive_bytes (pos 500) sample_read

abbrev wanted : Dependency
wanted = record { publisher = chars "a.net"; name = chars "demo"; version = chars "1.0.0" }

sample_get :
    store_get (chars "/x.waz") 400 (some (response (chars "application/zip; v=1") archive_bytes))
    ≡ ok archive_bytes
unfolding reading
sample_get = refl

store_get-IsTaken_example :
    IsTaken 400 (some (response (chars "application/zip; v=1") archive_bytes)) archive_bytes
store_get-IsTaken_example =
    store_get-IsTaken (chars "/x.waz") 400
      (some (response (chars "application/zip; v=1") archive_bytes)) sample_get

sample_download :
    download_release crates (pos 1000) store_answer wanted ≡ ok (archive_bytes, metadata)
unfolding reading archive_reading
sample_download = refl

download_release-IsRelease_example : IsRelease crates (pos 1000) wanted archive_bytes metadata
download_release-IsRelease_example =
    download_release-IsRelease crates (pos 1000) store_answer wanted sample_download

abbrev installed_demo : Resource (Proof Node)
installed_demo = record {
  id = chars "a.net/demo";
  bytes = archive_bytes;
  proof = record { metadata = metadata; previous = none };
}

sample_install :
    install_store_package crates (pos 1000) store_answer [] false wanted ≡ ok (installed_demo ∷ [])
unfolding reading archive_reading
sample_install = refl

install_store_package-IsClosed_example :
    (resources : List (Resource (Proof Node))) × Perm resources (installed_demo ∷ [])
    × IsTopological (dependencies_of crates (pos 1000) store_answer) [] (installed_demo ∷ [])
    × (false ≡ false)
    × IsClosed values
        (download crates (pos 1000) store_answer)
        (dependencies_of crates (pos 1000) store_answer)
        []
        wanted
        resources
install_store_package-IsClosed_example =
    install_store_package-IsClosed crates (pos 1000) store_answer [] false wanted sample_install

collect-total_of_store_example :
    (outcome : Fallible (List (Resource (Proof Node)))) × (collect values
        (download crates (pos 1000) store_answer)
        (dependencies_of crates (pos 1000) store_answer)
        (rounds crates (pos 1000) store_answer)
        []
        (wanted ∷ [])
        []
      ≡ some outcome)
collect-total_of_store_example = collect-total_of_store crates (pos 1000) store_answer [] wanted

abbrev one_path : OpenApi
one_path = record {
  openapi = chars "3.1.0";
  paths = some (
      (chars "/a", record { has_reference = false; operation_ids = some (chars "get_a") ∷ [] })
      ∷ []);
}

abbrev three : Bytes → List (Option Event)
three b =
    some (record { payload = opens; section = some 20 })
    ∷ some (record { payload = closes; section = none })
    ∷ some (record {
      payload = custom (chars "pishoo:openapi") (b'{' ∷ b'}' ∷ []) 30;
      section = some 30;
    })
    ∷ []

abbrev with_backend : Crates Node
with_backend = record crates {
  payloads = λ b. some (record { payload = component_version; section = none }) ∷ three b;
  parse_openapi = λ b. some one_path;
}

abbrev backend_files : Files
backend_files = (chars "backend.wasm", 0 ∷ []) ∷ []

abbrev no_signature : Bytes → ℕ → Bytes → Bytes → Fallible (Unit {0})
no_signature bytes last signed document = ok tt

sample_openapi : package_openapi with_backend backend_files ≡ ok (b'{' ∷ b'}' ∷ [])
unfolding reading package_openapi
sample_openapi = refl

sample_lib :
    validate_lib with_backend.parse_openapi with_backend.payloads no_signature (0 ∷ [])
    ≡ ok one_path
unfolding reading validate_lib strip_prefix has_double dot_part valid_path
sample_lib = refl

there_sample : lookup (chars "backend.wasm") backend_files ≡ some (0 ∷ [])
unfolding reading
there_sample = refl

package_openapi-validate_lib_example :
    validate_openapi with_backend.parse_openapi (b'{' ∷ b'}' ∷ []) ≡ ok one_path
package_openapi-validate_lib_example =
    package_openapi-validate_lib with_backend backend_files (0 ∷ []) no_signature there_sample
      sample_openapi sample_lib

-- A component whose last section is a signature.
abbrev signed_events : Bytes → List (Option Event)
signed_events b =
    some (record { payload = component_version; section = none })
    ∷ some (record { payload = custom (chars "pishoo:openapi") (chars "D") 1; section = some 1 })
    ∷ some (record { payload = custom (chars "pishoo:signature") (chars "S") 2; section = some 2 })
    ∷ []

unfoldable parse_lib : Bytes → Option Node
unfolding text_eq
parse_lib b =
    if text_eq b (chars "S")
    then some envelope
    else some (
        obj (
          field (chars "x-pishoo") (obj (field (chars "publisher") (str (chars "a.net")) end)) end))

sample_signed :
    validate_lib
      (λ b. some one_path)
      signed_events
      (verify_component_signature values pki parse_lib)
      (0 ∷ 0 ∷ [])
    ≡ ok one_path
unfolding reading validate_lib strip_prefix has_double dot_part valid_path parse_lib
    verify_component_signature take
sample_signed = refl

validate_lib-IsPublishedBy_example :
    (document : Bytes) × (top_documents 0 (signed_events (0 ∷ 0 ∷ [])) ≡ document ∷ [])
    × ((seals 0 8 (signed_events (0 ∷ 0 ∷ [])) ≡ [])
        ⊎ ((before : ℕ) × (signature : Bytes) × (seals 0 8 (signed_events (0 ∷ 0 ∷ []))
              ≡ (before, signature, 2) ∷ [])
            × IsPublishedBy values pki parse_lib (take before (0 ∷ 0 ∷ [])) document))
validate_lib-IsPublishedBy_example =
    validate_lib-IsPublishedBy values pki parse_lib (λ b. some one_path) signed_events (0 ∷ 0 ∷ [])
      sample_signed
