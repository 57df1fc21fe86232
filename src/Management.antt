-- ===== src/Management.antt =====
-- src/package.rs, `pkg_management_request`: the checks of a request and the command that it comes
-- to. The catalog, the installation from the store and the parsers are parameters; the JSON of
-- the answers is not modelled.
pub mod Removal
pub mod Admission
mod Tests
use pishoo.Base.{
  ℕ, String, Bool, true, false, not, ◌&&◌, ◌||◌, Option, none, some, List, [], ◌∷◌, ◌++◌, Text,
  chars, text_eq, split, split_once, contains_char, any, all, length, is_some, is_none,
  if◌then◌else◌, Result, ok, err, ◌>>=◌, ◌>>◌, refuse_if, ok_or, ◌==◌, leb,
}
use pishoo.Base.{strip_prefix}
use pishoo.Failure.{Error, Fallible, bad_request, invalid_component, io_invalid_input, status}
use pishoo.Package.Names.{valid_id}
use pishoo.Setup.Requests.{Json, value_at}
use pishoo.Setup.Owner.{
  Caller, Owner, Body, bytes, too_long, unreadable, check_owner, supported, is_json,
}

pub record ManagementRequest (Subject Bytes : Type 0) : Type 0 where
  pub visitor : Option (Caller Subject)
  pub method : Text
  pub path : Text
  pub query : Option Text
  pub versions : List (Option Text)
  pub expected_id : Option Text
  pub content_type : Option Text
  pub has_trailer : Bool
  -- The body under a limit, or that it did not arrive in time.
  pub body : ℕ → Fallible (Body Bytes)

pub data Command : Type 0 where
  -- author, name and version
  install : Text → Text → Text → Command
  catalog : Option Text → Command
  -- The name, and the id that the caller expects to remove.
  remove : Text → Option Text → Command

pub data Decision : Type 0 where
  answered : ℕ → Decision
  command : Command → Decision

abbrev pub is_install : Text → Bool
is_install path = text_eq path (chars "/std/sys/pkg/install")

-- `path.ends_with("/list")`
unfoldable pub ends_list : Text → Bool
ends_list [] = false
ends_list (c ∷ s) = let rest = ends_list s in text_eq (c ∷ s) (chars "/list") || rest

abbrev pub is_get : Text → Bool
is_get method = text_eq method (chars "GET")

abbrev pub is_delete : Text → Bool
is_delete method = text_eq method (chars "DELETE")

unfoldable pub allows : Bool → Bool → Text → Bool
unfolding text_eq
allows installing listing method =
    (installing && text_eq method (chars "POST"))
    || (not installing && (listing && is_get method))
    || (not installing && (not listing && (is_get method || is_delete method)))

abbrev pub is_name_key : Text → Bool
is_name_key key = text_eq key (chars "name")

module _ (decode : Text → Option Text) where
  -- The loop over the parts of the query.
  unfoldable pub query_name : Bool → Option Text → List Text → Fallible (Option Text)
  query_name listing id [] = ok id
  query_name listing id (item ∷ items) = elim (split_once b'=' item) [
    | none ↦ err (bad_request "expected name query parameter")
    | some (key, value) ↦ elim (not (is_name_key key) || is_some id || listing) [
      | true ↦ err (bad_request "unsupported query parameters")
      | false ↦ elim (decode value) [
        | none ↦ err (bad_request "invalid package name encoding")
        | some name ↦ query_name listing (some name) items
      ]
    ]
  ]

  unfoldable pub named : Bool → Option Text → Fallible (Option Text)
  unfolding query_name
  named listing none = ok none
  named listing (some query) = query_name listing none (split b'&' query)

module _ (normalize_name : Text → Option Text) where
  -- A name in a request is a package's name without its author.
  unfoldable pub short_name : Text → Fallible (Unit {0})
  unfolding valid_id
  short_name id =
      valid_id normalize_name id
      >> refuse_if (contains_char b'/' id) (bad_request "name must be a local package short name")

  abbrev pub check_name : Option Text → Fallible (Unit {0})
  check_name none = ok tt
  check_name (some id) = short_name id

  module _ {Value : Type 0} (json : Json Value) where
    abbrev pub is_field : Text × Value → Bool
    is_field row =
        text_eq row.0 (chars "author")
        || text_eq row.0 (chars "name")
        || text_eq row.0 (chars "version")

    abbrev pub text_field : Text → List (Text × Value) → Fallible Text
    text_field key fields = elim (value_at key fields) [
      | none ↦ err (bad_request "missing field")
      | some v ↦ ok_or (json.as_str v) (bad_request "missing field")
    ]

    unfoldable pub read_install : Value → Fallible Command
    unfolding short_name value_at
    read_install input = elim (json.as_object input) [
      | none ↦ err (bad_request "installation requires only author, name and version")
      | some fields ↦
          refuse_if (not (length fields == 3) || not (all is_field fields))
            (bad_request "installation requires only author, name and version")
          >> text_field (chars "name") fields
          >>= λ name. short_name name >> text_field (chars "author") fields >>= λ author.
              text_field (chars "version") fields >>= λ version. ok (install author name version)
    ]

module _ {Bytes Value : Type 0} (normalize_name : Text → Option Text) (json : Json Value)
    (parse_json : Bytes → Option Value) where
  -- The command of a request, once its body is read.
  unfoldable pub read_command :
      Bool → Text → Option Text → Option Text → Body Bytes → Fallible Decision
  unfolding read_install
  read_command installing method id expected too_long =
      ok (answered (if installing then 413 else 400))
  read_command installing method id expected unreadable =
      err (bad_request "failed to read management request body")
  read_command true method id expected (bytes b) =
      ok_or (parse_json b) (bad_request "invalid store installation JSON") >>= λ input.
      read_install normalize_name json input >>= λ c. ok (command c)
  read_command false method id expected (bytes b) =
      if is_get method then ok (command (catalog id)) else elim id [
        | none ↦ err (bad_request "missing name query parameter")
        | some name ↦ ok (command (remove name expected))
      ]

  abbrev pub limit_of : Bool → ℕ
  limit_of true = 4096
  limit_of false = 0

  module _ {Subject : Type 0} (decode : Text → Option Text) where
    unfoldable pub read_request : ManagementRequest Subject Bytes → Fallible Decision
    unfolding ends_list named read_command
    read_request request =
        let installing = is_install request.path in
        let listing = ends_list request.path in
        refuse_if (installing && is_some request.query)
          (bad_request "install does not accept query parameters")
        >> named decode listing request.query
        >>= λ id.
            check_name normalize_name id
            >> refuse_if (not installing && (not listing && is_none id))
                (bad_request "missing name query parameter")
            >> refuse_if
                (is_some request.expected_id && (not (is_delete request.method) || is_none id))
                (bad_request "Expected-Package-Id is supported only for package removal")
            >> (if installing && not (is_json request.content_type)
                then ok (answered 415)
                else (refuse_if request.has_trailer
                      (bad_request "Lib management trailers are unsupported")
                    >> request.body (limit_of installing)
                    >>= λ body. read_command installing request.method id request.expected_id body))

    unfoldable pub manage :
        (Subject → Subject → Bool)
        → Owner Subject
        → ManagementRequest Subject Bytes
        → Fallible Decision
    unfolding read_request allows supported check_owner
    manage same owner request =
        check_owner same owner request.visitor >> supported request.versions >>= λ version.
        if not version
        then ok (answered 505)
        else if not (allows (is_install request.path) (ends_list request.path) request.method)
        then ok (answered 405)
        else read_request request

-- The status that `pkg_management_router` answers an error with.
unfoldable pub management_status : Error → ℕ
management_status (invalid_component m) = 400
management_status io_invalid_input = 409
management_status e = status e
