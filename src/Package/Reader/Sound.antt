-- ===== src/Package/Reader/Sound.antt =====
-- src/package/format.rs, `read_package_at`: what a package that is read is known to be.
use pishoo.Base.{
  ℕ, false, not, ◌&&◌, none, some, List, [], ◌∷◌, chars, text_eq, ◌≡◌, subst, inl, inr, ok, ◌>>=◌,
  bind-ok, passed, refuse_if-ok, ok_or, ok_or-ok, Result-cases, arith,
}
use pishoo.Failure.{Fallible, invalid_component}
use pishoo.Values.{ℤ, lookup}
use pishoo.Package.Names.{is_standard_author}
use pishoo.Package.Archive.Checks.{Bytes}
use pishoo.Package.Archive.{Files, waz_read}
use pishoo.Package.Metadata.{Metadata}
use pishoo.Package.Metadata.Dependencies.{IsMetadata}
use pishoo.Package.Metadata.Sound.{package_metadata-IsMetadata}
use pishoo.Package.Signing.{certificates}
use pishoo.Package.Signing.Chain.{verify_chain_with_root}
use pishoo.Package.Signing.Trust.{IsTrusted, verify_chain_with_root-IsTrusted}
use pishoo.Package.Component.{OpenApi, validate_openapi, validate_lib}
use pishoo.Package.Component.Documents.{top_documents, validate_lib-top_documents}
use pishoo.Package.Contents.{read_sections, verify_signature}
use pishoo.Package.Contents.Sections.{all_documents, read_sections-single}
use pishoo.Package.Contents.Signed.{IsSigned, verify_signature-IsSigned}
use pishoo.Package.Reader.{
  Crates, backend_of, package_openapi, metadata_of, check_backend, check_document, check_if,
  as_invalid, validate_contents, read_package_at,
}

module _ {Value : Type 0} (C : Crates Value) where
  -- The document of a package is the one OpenAPI section of its backend, at any depth, and it stands
  -- outside the modules and components that are nested in the backend.
  pub package_openapi-single :
      (files : Files) {document : Bytes}
      → package_openapi C files ≡ ok document
      → (backend : Bytes) × (lookup (chars "backend.wasm") files ≡ some backend)
        × (all_documents (C.payloads backend) ≡ document ∷ [])
        × (top_documents 0 (C.payloads backend) ≡ document ∷ [])
  unfolding package_openapi
  package_openapi-single files {document} h =
      elim (bind-ok (ok_or (backend_of C files) (invalid_component "package has no backend")) _ h) [
        | passed backend e1 h1 ↦
            elim (bind-ok
              (read_sections (record { document = none; depth = 0 }) (C.payloads backend)) _ h1) [
                | passed reading e2 h2 ↦
                    let (every, top) = read_sections-single (C.payloads backend) e2 (
                      ok_or-ok reading.document (invalid_component "missing embedded OpenAPI")
                        h2) in
                    (
                      backend,
                      ok_or-ok (backend_of C files) (invalid_component "package has no backend") e1,
                      every,
                      top,
                    )
              ]
      ]

  -- The two readers of a component agree: where both accept a backend, the document that the package
  -- is checked by is the one that the Lib is served by.
  pub package_openapi-validate_lib :
      (files : Files) (backend : Bytes) (verify : Bytes → ℕ → Bytes → Bytes → Fallible (Unit {0}))
      {document : Bytes} {api : OpenApi}
      → lookup (chars "backend.wasm") files ≡ some backend
      → package_openapi C files ≡ ok document
      → validate_lib C.parse_openapi C.payloads verify backend ≡ ok api
      → validate_openapi C.parse_openapi document ≡ ok api
  package_openapi-validate_lib files backend verify {document} {api} there opens accepts =
      let (found, held, every, top) = package_openapi-single files opens in
      let (other, tops, valid) =
        validate_lib-top_documents C.parse_openapi C.payloads verify backend accepts in
      let same_backend : found ≡ backend = ground arith in
      let tops_of : top_documents 0 (C.payloads backend) ≡ document ∷ [] =
        subst (λ b. top_documents 0 (C.payloads b) ≡ document ∷ []) same_backend top in
      let same : other ≡ document = ground arith in
      subst (λ d. validate_openapi C.parse_openapi d ≡ ok api) same valid

  -- A package that is read: its metadata is that of its files, and its files are signed by a key that a
  -- trusted chain gives to the publisher which they name.
  pub record IsGenuine (seconds : ℤ) (bytes : Bytes) (files : Files) : Type 0 where
    pub m : Metadata
    pub chain : List Bytes
    pub archive : waz_read C.from_utf8 C.open_zip bytes ≡ ok files
    pub described : metadata_of C files ≡ ok m
    pub metadata : IsMetadata C.values C.pki.normalize_name C.parse C.parse_url files m
    pub not_native : text_eq m.name (chars "std") ≡ false
    pub not_frontend :
        (text_eq m.name (chars "app") && m.has_lib && not (is_standard_author m.publisher)) ≡ false
    pub trusted : IsTrusted C.pki chain m.publisher seconds C.root
    pub signed : IsSigned C.values C.pki C.utf8 files m.publisher chain

  validate_contents-parts :
      (files : Files) {m : Metadata}
      → validate_contents C files ≡ ok m
      → (metadata_of C files ≡ ok m)
        × (text_eq m.name (chars "std") ≡ false)
        × ((text_eq m.name (chars "app") && m.has_lib && not (is_standard_author m.publisher))
            ≡ false)
  unfolding validate_contents
  validate_contents-parts files {m} h = elim (bind-ok (metadata_of C files) _ h) [
    | passed found e1 h1 ↦
        let (native, h2) =
          refuse_if-ok (text_eq found.name (chars "std"))
            (invalid_component "package name conflicts with the native std namespace") _ h1 in
        let (frontend, h3) =
          refuse_if-ok
            (text_eq found.name (chars "app")
              && found.has_lib
              && not (is_standard_author found.publisher))
            (invalid_component "ordinary Lib name conflicts with the frontend app namespace") _
            h2 in
        elim (bind-ok (check_if C (backend_of C files) (check_backend C)) _ h3) [
          | passed u e4 h4 ↦
              elim (bind-ok
                (check_if C (backend_of C files)
                  (λ backend. package_openapi C files >>= λ raw. check_document C found raw))
                _ h4) [
                  | passed u2 e5 h5 ↦
                      let same : found ≡ m = ground arith in
                      subst
                        (λ x.
                          (metadata_of C files ≡ ok x)
                          × (text_eq x.name (chars "std") ≡ false)
                          × ((text_eq x.name (chars "app")
                                && x.has_lib
                                && not (is_standard_author x.publisher))
                              ≡ false))
                        same (e1, native, frontend)
                ]
        ]
  ]

  archive-ok :
      (bytes : Bytes) {files : Files}
      → as_invalid C (waz_read C.from_utf8 C.open_zip bytes) ≡ ok files
      → waz_read C.from_utf8 C.open_zip bytes ≡ ok files
  archive-ok bytes h = elim (Result-cases (waz_read C.from_utf8 C.open_zip bytes)) [
    | inl (files, e) ↦ ground arith
    | inr (message, e) ↦ ground arith
  ]

  -- A package that is read at a time is a sound archive with sound metadata, and its files are signed
  -- with the key that a chain trusted at that time gives to the publisher whom the metadata names.
  pub read_package_at-IsGenuine :
      (bytes : Bytes) (seconds : ℤ) {files : Files}
      → read_package_at C bytes seconds ≡ ok files
      → IsGenuine seconds bytes files
  unfolding read_package_at metadata_of
  read_package_at-IsGenuine bytes seconds {files} h =
      elim (bind-ok (as_invalid C (waz_read C.from_utf8 C.open_zip bytes)) _ h) [
        | passed found e1 h1 ↦ elim (bind-ok (validate_contents C found) _ h1) [
          | passed m e2 h2 ↦ elim (bind-ok (certificates C.values C.pki C.parse found) _ h2) [
            | passed chain e3 h3 ↦
                elim (bind-ok (verify_chain_with_root C.pki chain m.publisher seconds C.root) _
                  h3) [
                    | passed u e4 h4 ↦
                        elim (bind-ok
                          (verify_signature C.values C.pki C.utf8 C.parse found m.publisher) _ h4) [
                            | passed u2 e5 h5 ↦
                                let (described, native, frontend) =
                                  validate_contents-parts found e2 in
                                let same : found ≡ files = ground arith in
                                subst (IsGenuine seconds bytes) same (record {
                                  m = m;
                                  chain = chain;
                                  archive = archive-ok bytes e1;
                                  described = described;
                                  metadata =
                                      package_metadata-IsMetadata C.values C.pki.normalize_name
                                        C.parse C.parse_url found described;
                                  not_native = native;
                                  not_frontend = frontend;
                                  trusted =
                                      verify_chain_with_root-IsTrusted C.pki chain m.publisher
                                        seconds C.root e4;
                                  signed =
                                      verify_signature-IsSigned C.values C.pki C.utf8 C.parse found
                                        m.publisher e3 e5;
                                })
                          ]
                  ]
          ]
        ]
      ]
