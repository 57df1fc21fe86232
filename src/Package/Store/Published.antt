-- ===== src/Package/Store/Published.antt =====
-- src/package/store.rs, `download_release`: what a release that is downloaded is known to be.
use pishoo.Base.{
  ◌*◌, true, false, not, ◌||◌, Option, Text, chars, text_eq, length, ok, ok_or, bind-ok, passed,
  refuse_if-ok, ◌≡◌, subst, arith,
}
use pishoo.Failure.{bad_request, invalid_component}
use pishoo.Values.{ℤ, lookup}
use pishoo.Package.Names.{valid_id, release_version}
use pishoo.Package.Archive.Checks.{Bytes}
use pishoo.Package.Archive.{Files}
use pishoo.Package.Metadata.{Metadata}
use pishoo.Package.Signing.Chain.{facts}
use pishoo.Package.Signing.Receipt.{verify_receipt, IsPublished, verify_receipt-IsPublished}
use pishoo.Package.Reader.{Crates, metadata_of, read_package_at}
use pishoo.Package.Reader.Sound.{IsGenuine, read_package_at-IsGenuine}
use pishoo.Package.Store.{Dependency, full_id}
use pishoo.Package.Store.Transfer.{Response, store_get}
use pishoo.Package.Store.Release.{
  upgrade_required, field, has_text, in_past, publication_time, is_number, same_serial,
  differs_from_facts, differs_from_document, verify_release, release_path, package_path,
  is_other_release, size_limit, download_release,
}

module _ {Value : Type 0} (C : Crates Value) (now : ℤ) where
  -- A release that is taken from the store, under the name, publisher and version that were asked for.
  pub record IsRelease (d : Dependency) (bytes : Bytes) (metadata : Value) : Type 0 where
    pub seconds : ℤ
    pub files : Files
    pub m : Metadata
    pub published : IsPublished C.values C.pki C.parse now C.root metadata seconds
    pub genuine : IsGenuine C seconds bytes files
    pub described : metadata_of C files ≡ ok m
    pub publisher : text_eq m.publisher d.publisher ≡ true
    pub name : text_eq m.name d.name ≡ true
    pub version : text_eq m.version d.version ≡ true
    pub digest : has_text C now "package_sha256" (C.pki.sha256 bytes) metadata ≡ true
    pub proof_version : has_text C now "version" d.version metadata ≡ true

  publication_time-IsPublished :
      (metadata : Value) {seconds : ℤ}
      → publication_time C now metadata ≡ ok seconds
      → IsPublished C.values C.pki C.parse now C.root metadata seconds
  unfolding publication_time
  publication_time-IsPublished metadata {seconds} h =
      elim (bind-ok
        (ok_or
          (in_past C now
            (C.values.as_i64 (field C now "verified_at" (field C now "signature" metadata))))
          upgrade_required)
        _ h) [
          | passed found e1 h1 ↦
              let (purpose, h2) =
                refuse_if-ok
                  (not (
                    has_text C now "purpose" (chars "code_signing")
                      (field C now "signature" metadata)))
                  upgrade_required _ h1 in
              elim (bind-ok (verify_receipt C.values C.pki C.parse now C.root metadata found) _
                h2) [
                  | passed u e3 h3 ↦
                      let same : found ≡ seconds = ground arith in
                      subst (IsPublished C.values C.pki C.parse now C.root metadata) same (
                        verify_receipt-IsPublished C.values C.pki C.parse now C.root metadata found
                          e3)
                ]
        ]

  document-parts :
      (metadata : Value) (m : Metadata) (d : Dependency)
      → differs_from_document C now metadata m d ≡ false
      → (text_eq m.publisher d.publisher ≡ true)
        × (text_eq m.name d.name ≡ true)
        × (text_eq m.version d.version ≡ true)
        × (has_text C now "version" d.version metadata ≡ true)
  unfolding differs_from_document
  document-parts metadata m d h = (ground arith, ground arith, ground arith, ground arith)

  verify_release-IsRelease :
      (bytes : Bytes) (metadata : Value) (d : Dependency)
      → verify_release C now bytes metadata d ≡ ok tt
      → IsRelease d bytes metadata
  unfolding verify_release
  verify_release-IsRelease bytes metadata d h =
      let (digest, h1) =
        refuse_if-ok
          (not (has_text C now "package_sha256" (C.pki.sha256 bytes) metadata)
            || not (is_number C now (C.values.as_u64 (field C now "size" metadata)) (length bytes)))
          (invalid_component "store package digest or size mismatch") _ h in
      elim (bind-ok (publication_time C now metadata) _ h1) [
        | passed seconds e2 h2 ↦ elim (bind-ok (read_package_at C bytes seconds) _ h2) [
          | passed files e3 h3 ↦
              elim (bind-ok (facts C.pki C.values C.parse C.root files d.publisher seconds) _ h3) [
                | passed f e4 h4 ↦
                    let (same_facts, h5) =
                      refuse_if-ok (differs_from_facts C now (field C now "signature" metadata) f)
                        (invalid_component "publication signature differs from package certificate")
                        _ h4 in
                    let (serial, h6) =
                      refuse_if-ok
                        (not (
                          same_serial C now
                            (C.values.as_str
                              (field C now "serial_number" (field C now "signature" metadata)))
                            f.serial_number))
                        (invalid_component "publication serial differs from package certificate") _
                        h5 in
                    elim (bind-ok (metadata_of C files) _ h6) [
                      | passed m e7 h7 ↦
                          elim (bind-ok
                            (ok_or (lookup (chars "signature.json") files)
                              (invalid_component "invalid signature envelope"))
                            _ h7) [
                              | passed signed e8 h8 ↦
                                  elim (bind-ok
                                    (ok_or (C.parse signed)
                                      (invalid_component "invalid signature envelope"))
                                    _ h8) [
                                      | passed envelope e9 h9 ↦
                                          let (same, h10) =
                                            refuse_if-ok (differs_from_document C now metadata m d)
                                              (invalid_component
                                                "store metadata differs from signed package manifest")
                                              _ h9 in
                                          let (publisher, name, version, proof_version) =
                                            document-parts metadata m d same in
                                          record {
                                            seconds = seconds;
                                            files = files;
                                            m = m;
                                            published = publication_time-IsPublished metadata e2;
                                            genuine = read_package_at-IsGenuine C bytes seconds e3;
                                            described = e7;
                                            publisher = publisher;
                                            name = name;
                                            version = version;
                                            digest = ground arith;
                                            proof_version = proof_version;
                                          }
                                    ]
                            ]
                    ]
              ]
        ]
      ]

  -- A release that is downloaded is published by the store's signed word, its bytes are a genuine
  -- package signed by its publisher at the time of that word, and the package says of itself the
  -- publisher, the name and the version that were asked for.
  pub download_release-IsRelease :
      (answer : Text → Option Response) (d : Dependency) {bytes : Bytes} {metadata : Value}
      → download_release C now answer d ≡ ok (bytes, metadata)
      → IsRelease d bytes metadata
  unfolding download_release
  download_release-IsRelease answer d {bytes} {metadata} h =
      elim (bind-ok (valid_id C.pki.normalize_name (full_id d.publisher d.name)) _ h) [
        | passed u e1 h1 ↦
            let (version, h2) =
              refuse_if-ok (not (release_version d.version))
                (bad_request "version must be MAJOR.MINOR.PATCH") _ h1 in
            elim (bind-ok
              (store_get (release_path C now d) (8 * 1024 * 1024) (answer (release_path C now d))) _
              h2) [
                | passed text e3 h3 ↦
                    elim (bind-ok
                      (ok_or (C.parse text) (invalid_component "invalid store metadata")) _ h3) [
                        | passed found e4 h4 ↦
                            let (own, h5) =
                              refuse_if-ok (is_other_release C now found d)
                                (invalid_component
                                  "store release identity, status or download path changed")
                                _ h4 in
                            elim (bind-ok (publication_time C now found) _ h5) [
                              | passed seconds e6 h6 ↦
                                  elim (bind-ok
                                    (ok_or
                                      (size_limit C now
                                        (C.values.as_u64 (field C now "size" found)))
                                      (invalid_component "invalid store package size"))
                                    _ h6) [
                                      | passed size e7 h7 ↦
                                          elim (bind-ok
                                            (store_get (package_path C now d) size
                                              (answer (package_path C now d)))
                                            _ h7) [
                                              | passed package_bytes e8 h8 ↦
                                                  elim (bind-ok
                                                    (verify_release C now package_bytes found d) _
                                                    h8) [
                                                      | passed u2 e9 h9 ↦
                                                          let same_bytes : package_bytes ≡ bytes =
                                                            ground arith in
                                                          let same : found ≡ metadata =
                                                            ground arith in
                                                          subst (IsRelease d bytes) same (
                                                            subst (λ b. IsRelease d b found)
                                                            same_bytes
                                                            (verify_release-IsRelease package_bytes
                                                            found d e9))
                                                    ]
                                            ]
                                    ]
                            ]
                      ]
              ]
      ]
