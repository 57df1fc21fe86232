-- ===== src/Package/Store/Release.antt =====
-- src/package/store.rs: `download_release`, `publication_time` and `verify_release`. The answers of the
-- store, by path, are a parameter, and so is the time.
use pishoo.Base.{
  ℕ, ◌*◌, String, Bool, true, false, not, ◌&&◌, ◌||◌, Option, none, some, [], ◌∷◌, ◌++◌, map, Text,
  chars, text_eq, trim_start, to_ascii_lowercase, length, leb, ltb, ◌==◌, if◌then◌else◌, ok, ◌>>=◌,
  ◌>>◌, refuse_if, ok_or,
}
use pishoo.Failure.{Error, Fallible, bad_request, invalid_component, package_policy}
use pishoo.Values.{ℤ, pos, at_most, lookup, get, at, is_text}
use pishoo.Package.Names.{valid_id, release_version}
use pishoo.Package.Archive.Checks.{Bytes}
use pishoo.Package.Metadata.{Metadata}
use pishoo.Package.Signing.{decode_signers}
use pishoo.Package.Signing.Chain.{Facts, facts}
use pishoo.Package.Signing.Receipt.{verify_receipt}
use pishoo.Package.Reader.{Crates, metadata_of, read_package_at}
use pishoo.Package.Store.{Dependency, full_id}
use pishoo.Package.Store.Transfer.{Response, store_get}

abbrev pub upgrade_required : Error
upgrade_required = package_policy "package_policy_upgrade_required" 422

abbrev pub is_zero_digit : ℕ → Bool
is_zero_digit c = c == b'0'

-- `trim_start_matches('0').to_ascii_lowercase()`
abbrev pub plain_serial : Text → Text
plain_serial s = to_ascii_lowercase (trim_start is_zero_digit s)

module _ {Value : Type 0} (C : Crates Value) (now : ℤ) where
  abbrev pub field : String → Value → Value
  field key value = at C.values (chars key) value

  abbrev pub has_text : String → Text → Value → Bool
  has_text key t value = is_text C.values t (field key value)

  -- `.filter(|at| *at > 0 && *at <= now)`
  abbrev pub in_past : Option ℤ → Option ℤ
  in_past none = none
  in_past (some seconds) =
      if not (at_most seconds (pos 0)) && at_most seconds now then some seconds else none

  unfoldable pub publication_time : Value → Fallible ℤ
  unfolding at is_text verify_receipt
  publication_time metadata =
      ok_or (in_past (C.values.as_i64 (field "verified_at" (field "signature" metadata))))
        upgrade_required
      >>= λ seconds.
          refuse_if (not (has_text "purpose" (chars "code_signing") (field "signature" metadata)))
            upgrade_required
          >> verify_receipt C.values C.pki C.parse now C.root metadata seconds
          >> ok seconds

  abbrev pub is_number : Option ℕ → ℕ → Bool
  is_number none n = false
  is_number (some m) n = m == n

  abbrev pub same_serial : Option Text → Text → Bool
  same_serial none serial = false
  same_serial (some s) serial = text_eq (plain_serial s) (plain_serial serial)

  -- The published signature is that of the package's certificate.
  unfoldable pub differs_from_facts : Value → Facts → Bool
  unfolding at is_text
  differs_from_facts signature f =
      not (has_text "leaf_fingerprint_sha256" f.leaf_fingerprint_sha256 signature)
      || not (has_text "issuer_id" f.issuer_id signature)
      || not (has_text "ski" f.ski signature)

  abbrev pub dependency_value : Dependency → Value
  dependency_value d = C.values.object (
      (chars "author", C.values.text d.publisher)
      ∷ (chars "name", C.values.text d.name)
      ∷ (chars "version", C.values.text d.version)
      ∷ [])

  abbrev pub differs : String → Text → Value → Bool
  differs key t value = not (C.values.same (field key value) (C.values.text t))

  abbrev pub differs_if_there : Option Value → Option Value → Bool
  differs_if_there none expected = false
  differs_if_there (some v) none = true
  differs_if_there (some v) (some w) = not (C.values.same v w)

  abbrev pub entry_of : Metadata → Option Value
  entry_of m = if m.has_app then some (C.values.text (chars "/")) else none

  -- The store's metadata and the document of the signed package.
  unfoldable pub differs_from_document : Value → Metadata → Dependency → Bool
  unfolding at get is_text text_eq
  differs_from_document metadata m d =
      not (has_text "id" (full_id d.publisher d.name) metadata)
      || not (has_text "name" d.name metadata)
      || not (has_text "version" d.version metadata)
      || not (text_eq m.publisher d.publisher)
      || not (has_text "author" d.publisher metadata)
      || not (text_eq m.name d.name)
      || not (text_eq m.version d.version)
      || not (
          C.values.same (field "dependencies" metadata)
            (C.values.array (map dependency_value m.dependencies)))
      || differs "title" m.title metadata
      || differs "description" m.description metadata
      || differs "changelog" m.changelog metadata
      || differs_if_there (get C.values (chars "entry") metadata) (entry_of m)
      || differs_if_there (get C.values (chars "license") metadata) (some (C.values.text m.license))

  -- The owner of the publisher's name, by the package's own certificates.
  unfoldable pub check_owner_hash : Value → Value → Fallible (Unit {0})
  unfolding at decode_signers is_text
  check_owner_hash metadata envelope =
      refuse_if
        (not (C.values.same (field "certificates" envelope) (field "signer_certificates" metadata)))
        (invalid_component "signer certificates differ from the authenticated store proof")
      >> ok_or (C.values.as_array (field "certificates" envelope))
          (invalid_component "missing signer certificates")
      >>= λ values. decode_signers C.values C.pki values >>= λ chain.
          ok_or (C.pki.subject_key chain) (invalid_component "invalid publisher owner_hash")
          >>= λ key.
              refuse_if (not (has_text "author_owner_hash" key.owner_hash metadata)) (
                invalid_component "publisher owner_hash differs from the authenticated store proof")

  unfoldable pub verify_release : Bytes → Value → Dependency → Fallible (Unit {0})
  unfolding at is_text publication_time read_package_at facts differs_from_facts trim_start
      to_ascii_lowercase text_eq lookup metadata_of differs_from_document check_owner_hash
  verify_release bytes metadata d =
      refuse_if
        (not (has_text "package_sha256" (C.pki.sha256 bytes) metadata)
          || not (is_number (C.values.as_u64 (field "size" metadata)) (length bytes)))
        (invalid_component "store package digest or size mismatch")
      >> publication_time metadata
      >>= λ seconds. read_package_at C bytes seconds >>= λ files.
          facts C.pki C.values C.parse C.root files d.publisher seconds >>= λ f.
          refuse_if (differs_from_facts (field "signature" metadata) f)
            (invalid_component "publication signature differs from package certificate")
          >> refuse_if
              (not (
                same_serial (C.values.as_str (field "serial_number" (field "signature" metadata)))
                  f.serial_number))
              (invalid_component "publication serial differs from package certificate")
          >> metadata_of C files
          >>= λ m.
              ok_or (lookup (chars "signature.json") files)
                (invalid_component "invalid signature envelope")
              >>= λ signed.
                  ok_or (C.parse signed) (invalid_component "invalid signature envelope")
                  >>= λ envelope.
                      refuse_if (differs_from_document metadata m d)
                        (invalid_component "store metadata differs from signed package manifest")
                      >> check_owner_hash metadata envelope

  abbrev pub release_path : Dependency → Text
  release_path d =
      chars "/store/v1/packages/"
      ++ (d.publisher ++ (chars "/" ++ (d.name ++ (chars "/versions/" ++ d.version))))

  abbrev pub package_path : Dependency → Text
  package_path d = release_path d ++ chars "/package.waz"

  unfoldable pub is_other_release : Value → Dependency → Bool
  unfolding at is_text
  is_other_release metadata d =
      not (has_text "id" (full_id d.publisher d.name) metadata)
      || not (has_text "author" d.publisher metadata)
      || not (has_text "name" d.name metadata)
      || not (has_text "version" d.version metadata)
      || not (has_text "status" (chars "published") metadata)
      || not (has_text "download_path" (package_path d) metadata)

  abbrev pub size_limit : Option ℕ → Option ℕ
  size_limit none = none
  size_limit (some n) = if ltb 0 n && leb n (64 * 1024 * 1024) then some n else none

  module _ (answer : Text → Option Response) where
    unfoldable pub download_release : Dependency → Fallible (Bytes × Value)
    unfolding valid_id release_version store_get is_other_release publication_time verify_release
    download_release d =
        valid_id C.pki.normalize_name (full_id d.publisher d.name)
        >> refuse_if (not (release_version d.version))
            (bad_request "version must be MAJOR.MINOR.PATCH")
        >> store_get (release_path d) (8 * 1024 * 1024) (answer (release_path d))
        >>= λ text.
            ok_or (C.parse text) (invalid_component "invalid store metadata") >>= λ metadata.
            refuse_if (is_other_release metadata d)
              (invalid_component "store release identity, status or download path changed")
            >> publication_time metadata
            >>= λ seconds.
                ok_or (size_limit (C.values.as_u64 (field "size" metadata)))
                  (invalid_component "invalid store package size")
                >>= λ size. store_get (package_path d) size (answer (package_path d)) >>= λ bytes.
                    verify_release bytes metadata d >> ok (bytes, metadata)
