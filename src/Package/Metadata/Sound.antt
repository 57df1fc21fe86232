-- ===== src/Package/Metadata/Sound.antt =====
-- src/package/format.rs, `package_metadata`: what a document that was read is known to hold.
use pishoo.Base.{
  ◌≤◌, Bool, true, false, not, ◌&&◌, ◌||◌, Option, some, List, [], Text, chars, any, length, leb,
  leb→le, is_some, ◌≡◌, refl, ◌∙◌, subst, inl, inr, ok, bind-ok, passed, ok_or, refuse_if-ok,
  ok_or-ok, All, Bool-cases, Option-cases, arith,
}
use pishoo.Failure.{invalid_component}
use pishoo.Values.{Values, get, at}
use pishoo.Package.Names.{valid_id, release_version}
use pishoo.Package.Archive.Checks.{Bytes}
use pishoo.Package.Archive.{Files, contains_file}
use pishoo.Package.Store.{Dependency, full_id}
use pishoo.Package.Metadata.{
  Metadata, Url, Identity, read_identity, list_dependencies, describe, package_fields, in_public,
  text, has_unknown, is_normal, is_valid_id, read_manifest, bounded_array, wrong_runtime,
  read_repository, package_metadata,
}
use pishoo.Package.Metadata.Dependencies.{
  AreDistinct, IsAllowed, IsMetadata, is_valid_id-ok, read_dependencies-All,
}

module _ {Value : Type 0} (V : Values Value) (normalize_name : Text → Option Text)
    (parse : Bytes → Option Value) (parse_url : Text → Option Url) where
  read_identity-lawful :
      (pkg : Value) {who : Identity}
      → read_identity V normalize_name parse parse_url pkg ≡ ok who
      → (valid_id normalize_name (full_id who.publisher who.name) ≡ ok tt)
        × (release_version who.version ≡ true)
  unfolding read_identity
  read_identity-lawful pkg {who} h = elim (bind-ok (text V pkg (chars "author")) _ h) [
    | passed publisher e1 h1 ↦ elim (bind-ok (text V pkg (chars "name")) _ h1) [
      | passed name e2 h2 ↦
          let (fine, h3) =
            refuse_if-ok
              (not (is_valid_id V normalize_name parse parse_url (full_id publisher name)))
              (invalid_component "invalid full package identity") _ h2 in
          let (normal, h4) =
            refuse_if-ok (not (is_normal V normalize_name parse parse_url publisher))
              (invalid_component "author must be normalized") _ h3 in
          elim (bind-ok (text V pkg (chars "version")) _ h4) [
            | passed version e3 h5 ↦
                let (release, h6) =
                  refuse_if-ok (not (release_version version))
                    (invalid_component "version must be MAJOR.MINOR.PATCH") _ h5 in
                let found : Identity = record {
                  publisher = publisher;
                  name = name;
                  version = version;
                } in
                let same : found ≡ who = ground arith in
                subst
                  (λ w.
                    (valid_id normalize_name (full_id w.publisher w.name) ≡ ok tt)
                    × (release_version w.version ≡ true))
                  same
                  (
                    is_valid_id-ok V normalize_name parse parse_url (full_id publisher name)
                        (ground arith),
                    ground arith,
                  )
          ]
    ]
  ]

  bounded_array-length :
      (value : Value) {values : List Value}
      → bounded_array V normalize_name parse parse_url value ≡ some values
      → length values ≤ 100
  unfolding bounded_array
  bounded_array-length value {values} h = elim (Option-cases (V.as_array value)) [
    | inl nothing ↦ ground arith
    | inr (vs, e) ↦ elim (Bool-cases (leb (length vs) 100)) [
      | inl fits ↦
          let same : vs ≡ values = ground arith in
          subst (λ x. length x ≤ 100) same (leb→le (length vs) 100 fits)
      | inr over ↦ ground arith
    ]
  ]

  list_dependencies-All :
      (id : Text) (manifest : Value) {ds : List Dependency}
      → list_dependencies V normalize_name parse parse_url id manifest ≡ ok ds
      → All (IsAllowed V normalize_name parse parse_url id) ds × AreDistinct ds × (length ds ≤ 100)
  unfolding list_dependencies
  list_dependencies-All id manifest {ds} h =
      elim (bind-ok
        (ok_or
          (bounded_array V normalize_name parse parse_url (at V (chars "dependencies") manifest))
          (invalid_component "dependencies requires an explicit array with at most 100 packages"))
        _ h) [
          | passed values e h1 ↦
              let (a, b, c) =
                read_dependencies-All V normalize_name parse parse_url id [] values h1 tt tt in
              let few =
                bounded_array-length (at V (chars "dependencies") manifest) (ok_or-ok _ _ e) in
              (a, b, omega arith)
        ]

  -- The fields of the document that do not come from the texts.
  describe-same :
      (pkg : Value) (who : Identity) (ds : List Dependency) (has_lib has_app : Bool) {m : Metadata}
      → describe V normalize_name parse parse_url pkg who ds has_lib has_app ≡ ok m
      → (m.publisher ≡ who.publisher)
        × (m.name ≡ who.name)
        × (m.version ≡ who.version)
        × (m.dependencies ≡ ds)
        × (m.has_lib ≡ has_lib)
        × (m.has_app ≡ has_app)
  unfolding describe
  describe-same pkg who ds has_lib has_app {m} h = elim (bind-ok (text V pkg (chars "title")) _ h) [
    | passed title e1 h1 ↦ elim (bind-ok (text V pkg (chars "description")) _ h1) [
      | passed description e2 h2 ↦ elim (bind-ok (text V pkg (chars "license")) _ h2) [
        | passed license e3 h3 ↦ elim (bind-ok (text V pkg (chars "release-notes")) _ h3) [
          | passed changelog e4 h4 ↦
              elim (bind-ok (read_repository V normalize_name parse parse_url pkg) _ h4) [
                | passed repository e5 h5 ↦ (
                  ground arith,
                  ground arith,
                  ground arith,
                  ground arith,
                  ground arith,
                  ground arith,
                )
              ]
        ]
      ]
    ]
  ]

  runtime-parts :
      (files : Files) (manifest : Value) (has_lib has_app : Bool)
      → wrong_runtime V normalize_name parse parse_url files manifest has_lib has_app ≡ false
      → (has_lib ≡ contains_file (chars "backend.wasm") files)
        × (has_app ≡ any in_public files)
        × ((has_app && not (contains_file (chars "public/index.html") files)) ≡ false)
        × ((has_lib || has_app) ≡ true)
  unfolding wrong_runtime
  runtime-parts files manifest true true h = (ground arith, ground arith, ground arith, refl)
  runtime-parts files manifest true false h = (ground arith, ground arith, ground arith, refl)
  runtime-parts files manifest false true h = (ground arith, ground arith, ground arith, refl)
  runtime-parts files manifest false false h =
      (ground arith, ground arith, ground arith, ground arith)

  described-IsMetadata :
      (files : Files) (manifest : Value) (who : Identity) (ds : List Dependency) {m : Metadata}
      → read_identity V normalize_name parse parse_url (at V (chars "package") manifest) ≡ ok who
      → list_dependencies V normalize_name parse parse_url (full_id who.publisher who.name) manifest
        ≡ ok ds
      → wrong_runtime V normalize_name parse parse_url files manifest
          (is_some (get V (chars "backend") manifest))
          (is_some (get V (chars "frontend") manifest))
        ≡ false
      → describe V normalize_name parse parse_url
          (at V (chars "package") manifest)
          who
          ds
          (is_some (get V (chars "backend") manifest))
          (is_some (get V (chars "frontend") manifest))
        ≡ ok m
      → IsMetadata V normalize_name parse parse_url files m
  described-IsMetadata files manifest who ds {m} named listed agrees h =
      let has_lib = is_some (get V (chars "backend") manifest) in
      let has_app = is_some (get V (chars "frontend") manifest) in
      let (p, n, v, d, l, a) =
        describe-same (at V (chars "package") manifest) who ds has_lib has_app h in
      let (lawful, release) = read_identity-lawful (at V (chars "package") manifest) named in
      let (allowed, distinct, few) =
        list_dependencies-All (full_id who.publisher who.name) manifest listed in
      let (backend, frontend, index, runs) = runtime-parts files manifest has_lib has_app agrees in
      record {
        few = rw d few;
        lawful = rw (p, n) lawful;
        release = rw v release;
        allowed = rw (p, n, d) allowed;
        distinct = rw d distinct;
        backend = l ∙ backend;
        frontend = a ∙ frontend;
        index = rw a index;
        runs = rw (l, a) runs;
      }

  -- A document that is read has at most 100 dependencies, on different packages and none on its own,
  -- its identities and versions are lawful, and it has a backend, an app or both, as the files have.
  pub package_metadata-IsMetadata :
      (files : Files) {m : Metadata}
      → package_metadata V normalize_name parse parse_url files ≡ ok m
      → IsMetadata V normalize_name parse parse_url files m
  unfolding package_metadata
  package_metadata-IsMetadata files {m} h =
      elim (bind-ok (read_manifest V normalize_name parse parse_url files) _ h) [
        | passed manifest e1 h1 ↦
            let pkg = at V (chars "package") manifest in
            let (known, h2) =
              refuse_if-ok (has_unknown V package_fields pkg)
                (invalid_component "unknown WAZ package field") _ h1 in
            elim (bind-ok (read_identity V normalize_name parse parse_url pkg) _ h2) [
              | passed who e3 h3 ↦
                  elim (bind-ok
                    (list_dependencies V normalize_name parse parse_url
                      (full_id who.publisher who.name) manifest)
                    _ h3) [
                      | passed ds e4 h4 ↦
                          let (agrees, h5) =
                            refuse_if-ok
                              (wrong_runtime V normalize_name parse parse_url files manifest
                                (is_some (get V (chars "backend") manifest))
                                (is_some (get V (chars "frontend") manifest)))
                              (invalid_component
                                "WAZ manifest runtime paths disagree with package files")
                              _ h4 in
                          described-IsMetadata files manifest who ds e3 e4 agrees h5
                    ]
            ]
      ]
