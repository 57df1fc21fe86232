-- ===== src/Package/Metadata.antt =====
-- src/package/format.rs, `package_metadata`: what the manifest of a package says. The document that
-- the code builds as JSON is a record here. The parsers of JSON and of URLs and `normalize_name`
-- are other crates'.
pub mod Dependencies
pub mod Sound
use pishoo.Base.{
  ℕ, ◌*◌, Bool, true, false, not, ◌&&◌, ◌||◌, Option, none, some, List, [], ◌∷◌, ◌++◌, Text, chars,
  text_eq, find, any, all, filter, length, leb, ltb, ◌==◌, if◌then◌else◌, is_nil, is_some, is_none,
  trim, starts_with, contains_char, is_whitespace, eq_ignore_ascii_case, String, Result, ok, err,
  ◌>>=◌, ◌>>◌, refuse_if, ok_or,
}
use pishoo.Failure.{Error, Fallible, invalid_component}
use pishoo.Values.{Values, lookup, has_only, get, at, is_text}
use pishoo.Package.Names.{valid_id, release_version}
use pishoo.Package.Archive.Checks.{Bytes, take, drop}
use pishoo.Package.Archive.{Files, contains_file}
use pishoo.Package.Store.{Dependency, full_id, dependency_id}

-- The document: `entry` is "/" where there is an app.
pub record Metadata : Type 0 where
  pub publisher : Text
  pub name : Text
  pub version : Text
  pub title : Text
  pub description : Text
  pub license : Text
  pub changelog : Text
  pub dependencies : List Dependency
  pub has_lib : Bool
  pub has_app : Bool
  pub repository : Option Text

pub record Identity : Type 0 where
  pub publisher : Text
  pub name : Text
  pub version : Text

pub record Url : Type 0 where
  pub scheme : Text
  pub host : Option Text
  pub username : Text
  pub password : Option Text

abbrev pub invalid : {A : Type 0} → String → Fallible A
invalid m = err (invalid_component m)

abbrev pub is_blank : Text → Bool
is_blank s = is_nil (trim s)

unfoldable pub in_public : Text × Bytes → Bool
unfolding starts_with
in_public f = starts_with (chars "public/") f.0

-- `raw[8..].split(['/', '?', '#']).next()`
unfoldable pub authority : Text → Text
authority [] = []
authority (c ∷ s) =
    let rest = authority s in if c == b'/' || c == b'?' || c == b'#' then [] else c ∷ rest

unfoldable pub bad_repository : Text → Url → Bool
unfolding text_eq eq_ignore_ascii_case take drop authority contains_char
bad_repository raw url =
    not (text_eq url.scheme (chars "https"))
    || is_none url.host
    || not (eq_ignore_ascii_case (take 8 raw) (chars "https://"))
    || is_nil (authority (drop 8 raw))
    || not (is_nil url.username)
    || is_some url.password
    || contains_char b'@' (authority (drop 8 raw))
    || any is_whitespace raw

unfoldable pub contains_dependency : Text → List Dependency → Bool
contains_dependency id ds = any (λ d. text_eq (dependency_id d) id) ds

abbrev pub manifest_fields : List Text
manifest_fields =
    chars "format"
    ∷ chars "package"
    ∷ chars "dependencies"
    ∷ chars "backend"
    ∷ chars "frontend"
    ∷ []

abbrev pub package_fields : List Text
package_fields =
    chars "author"
    ∷ chars "name"
    ∷ chars "version"
    ∷ chars "title"
    ∷ chars "description"
    ∷ chars "license"
    ∷ chars "release-notes"
    ∷ chars "repository"
    ∷ []

module _ {Value : Type 0} (V : Values Value) where
  abbrev pub filled : String → Option Text → Fallible Text
  filled message none = invalid message
  filled message (some s) = if is_blank s then invalid message else ok s

  abbrev pub as_text : Option Value → Option Text
  as_text none = none
  as_text (some v) = V.as_str v

  unfoldable pub text : Value → Text → Fallible Text
  unfolding get trim
  text value key = filled "missing or empty field" (as_text (get V key value))

  -- `value.as_object().is_none_or(|o| o.keys().any(...))`
  unfoldable pub has_unknown : List Text → Value → Bool
  unfolding has_only
  has_unknown keys value = elim (V.as_object value) [
    | none ↦ true
    | some fields ↦ not (has_only keys fields)
  ]

  -- `value.as_object().is_none_or(|o| o.len() != size)`
  unfoldable pub has_not_size : ℕ → Value → Bool
  has_not_size size value = elim (V.as_object value) [
    | none ↦ true
    | some fields ↦ not (length fields == size)
  ]

  module _ (normalize_name : Text → Option Text) (parse : Bytes → Option Value)
      (parse_url : Text → Option Url) where
    abbrev pub is_normal : Text → Bool
    is_normal author = elim (normalize_name author) [ none ↦ false | some n ↦ text_eq n author ]

    abbrev pub is_valid_id : Text → Bool
    is_valid_id id = elim (valid_id normalize_name id) [ ok u ↦ true | err e ↦ false ]

    -- The guard on a dependency of the package `id`, those before it being `before`.
    unfoldable pub refused_dependency : Text → List Dependency → Value → Dependency → Bool
    unfolding valid_id release_version text_eq contains_dependency has_not_size
    refused_dependency id before value d =
        has_not_size 3 value
        || not (is_valid_id (dependency_id d))
        || not (is_normal d.publisher)
        || not (release_version d.version)
        || contains_dependency (dependency_id d) before
        || text_eq (dependency_id d) id

    unfoldable pub read_dependency : Text → List Dependency → Value → Fallible Dependency
    unfolding text refused_dependency
    read_dependency id before value = text value (chars "author") >>= λ author.
        text value (chars "name") >>= λ name. text value (chars "version") >>= λ version.
        refuse_if
          (refused_dependency id before value
            (record { publisher = author; name = name; version = version }))
          (invalid_component "invalid, duplicate or self package dependency")
        >> ok (record { publisher = author; name = name; version = version })

    unfoldable pub read_dependencies :
        Text → List Dependency → List Value → Fallible (List Dependency)
    unfolding read_dependency
    read_dependencies id before [] = ok before
    read_dependencies id before (value ∷ values) =
        read_dependency id before value >>= λ d. read_dependencies id (before ++ d ∷ []) values

    abbrev pub is_field : Text → Text → Value → Bool
    is_field key t value = is_text V t (at V key value)

    -- The guard on the backend and the frontend.
    unfoldable pub wrong_runtime : Files → Value → Bool → Bool → Bool
    unfolding contains_file text_eq at is_text in_public
    wrong_runtime files manifest has_lib has_app =
        (has_lib && not (is_field (chars "backend") (chars "backend.wasm") manifest))
        || (has_app && not (is_field (chars "frontend") (chars "public") manifest))
        || (if has_lib
            then not (contains_file (chars "backend.wasm") files)
            else contains_file (chars "backend.wasm") files)
        || (if has_app then not (any in_public files) else any in_public files)
        || (has_app && not (contains_file (chars "public/index.html") files))
        || (not has_lib && not has_app)

    unfoldable pub read_repository : Value → Fallible (Option Text)
    unfolding get trim bad_repository
    read_repository pkg = elim (get V (chars "repository") pkg) [
      | none ↦ ok none
      | some value ↦ filled "repository must be a nonempty HTTPS URL" (V.as_str value) >>= λ raw.
          ok_or (parse_url raw) (invalid_component "invalid repository URL") >>= λ url.
          refuse_if (bad_repository raw url) (
            invalid_component "repository must be an HTTPS URL with a host and without credentials")
          >> ok (some raw)
    ]

    -- `files.get(name)`
    abbrev pub file : Text → Files → Option Bytes
    file name files = lookup name files

    unfoldable pub read_manifest : Files → Fallible Value
    unfolding lookup has_unknown at is_text
    read_manifest files =
        ok_or (file (chars "manifest.json") files) (invalid_component "missing manifest.json")
        >>= λ bytes.
            ok_or (parse bytes) (invalid_component "invalid package manifest") >>= λ manifest.
            refuse_if
              (not (is_field (chars "format") (chars "waz/1") manifest)
                || has_unknown manifest_fields manifest)
              (invalid_component "unsupported WAZ manifest format or field")
            >> ok manifest

    unfoldable pub bounded_array : Value → Option (List Value)
    bounded_array value = elim (V.as_array value) [
      | none ↦ none
      | some values ↦ if leb (length values) 100 then some values else none
    ]

    unfoldable pub read_identity : Value → Fallible Identity
    unfolding text valid_id text_eq release_version
    read_identity pkg = text pkg (chars "author") >>= λ publisher.
        text pkg (chars "name") >>= λ name.
        refuse_if (not (is_valid_id (full_id publisher name)))
          (invalid_component "invalid full package identity")
        >> refuse_if (not (is_normal publisher)) (invalid_component "author must be normalized")
        >> text pkg (chars "version")
        >>= λ version.
            refuse_if (not (release_version version))
              (invalid_component "version must be MAJOR.MINOR.PATCH")
            >> ok (record { publisher = publisher; name = name; version = version })

    unfoldable pub list_dependencies : Text → Value → Fallible (List Dependency)
    unfolding at bounded_array read_dependencies
    list_dependencies id manifest =
        ok_or (bounded_array (at V (chars "dependencies") manifest))
          (invalid_component "dependencies requires an explicit array with at most 100 packages")
        >>= λ values. read_dependencies id [] values

    -- What is left once the runtime has been checked.
    unfoldable pub describe : Value → Identity → List Dependency → Bool → Bool → Fallible Metadata
    unfolding text read_repository
    describe pkg who ds has_lib has_app = text pkg (chars "title") >>= λ title.
        text pkg (chars "description") >>= λ description. text pkg (chars "license") >>= λ license.
        text pkg (chars "release-notes") >>= λ changelog. read_repository pkg >>= λ repository.
        ok (record {
          publisher = who.publisher;
          name = who.name;
          version = who.version;
          title = title;
          description = description;
          license = license;
          changelog = changelog;
          dependencies = ds;
          has_lib = has_lib;
          has_app = has_app;
          repository = repository;
        })

    abbrev pub has_backend : Value → Bool
    has_backend manifest = is_some (get V (chars "backend") manifest)

    abbrev pub has_frontend : Value → Bool
    has_frontend manifest = is_some (get V (chars "frontend") manifest)

    unfoldable pub package_metadata : Files → Fallible Metadata
    unfolding read_manifest has_unknown get at read_identity list_dependencies wrong_runtime
        describe
    package_metadata files = read_manifest files >>= λ manifest.
        refuse_if (has_unknown package_fields (at V (chars "package") manifest))
          (invalid_component "unknown WAZ package field")
        >> read_identity (at V (chars "package") manifest)
        >>= λ who. list_dependencies (full_id who.publisher who.name) manifest >>= λ ds.
            refuse_if (wrong_runtime files manifest (has_backend manifest) (has_frontend manifest))
              (invalid_component "WAZ manifest runtime paths disagree with package files")
            >> describe (at V (chars "package") manifest) who ds (has_backend manifest)
                (has_frontend manifest)
