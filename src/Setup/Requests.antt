-- ===== src/Setup/Requests.antt =====
-- src/setup.rs, `config_database`: reading and changing the configuration. The JSON values of
-- serde_json, the parser of query strings and the work on files around the database are
-- parameters; a panic of the code is the error that awaiting its task gives.
use pishoo.Base.{
  Bool, true, false, not, ◌&&◌, ◌||◌, Option, none, some, List, [], ◌∷◌, Text, chars, text_eq, find,
  filter, length, is_some, if◌then◌else◌, ok, err, ◌>>=◌, ◌>>◌, refuse_if, ok_or, ◌==◌,
}
use pishoo.Failure.{Fallible, bad_request, invalid_config, method_not_allowed, task}
use pishoo.Routes.{ProxyLocation}
use pishoo.Setup.{Addresses, parse_proxies}

pub data Method : Type 0 where
  get patch delete other : Method

-- What `initialize_config`, `open_config` and `inherit_config_files` come to for the files of the
-- identity. The database of the model is the one that is there once they are done.
pub record Files : Type 0 where
  pub initialize : Fallible (Unit {0})
  pub opening : Fallible (Unit {0})
  pub inherit : Fallible (Unit {0})

pub record Json (Value : Type 0) : Type 0 where
  pub as_object : Value → Option (List (Text × Value))
  pub as_str : Value → Option Text

pub data Settings : Type 0 where
  nothing : Settings
  listening : Text → Settings
  mounts : List (Text × Text) → Settings

abbrev pub has_key : {V : Type 0} → Text → Text × V → Bool
has_key key row = text_eq row.0 key

unfoldable pub value_at : {V : Type 0} → Text → List (Text × V) → Option V
value_at key fields = elim (find (has_key key) fields) [ none ↦ none | some (k, v) ↦ some v ]

abbrev pub as_bad_request : {A : Type 0} → Fallible A → Fallible A
as_bad_request (ok a) = ok a
as_bad_request (err (invalid_config m)) = err (bad_request m)
as_bad_request (err e) = err (bad_request "invalid proxy")

-- `Vec::remove(0)`
abbrev pub remove_first : {A : Type 0} → List A → Fallible A
remove_first [] = err task
remove_first (a ∷ rest) = ok a

unfoldable pub parse_one : Addresses → Text → Text → Fallible ProxyLocation
parse_one addresses location upstream =
    as_bad_request (parse_proxies addresses ((location, upstream) ∷ [])) >>= remove_first

abbrev pub is_listen : Text → Bool
is_listen path = text_eq path (chars "/std/sys/listen")

abbrev pub is_mount : Text → Bool
is_mount path = text_eq path (chars "/std/sys/mount")

abbrev pub is_delete : Method → Bool
is_delete delete = true
is_delete _ = false

abbrev pub is_once : Text → List (Text × Text) → Bool
is_once key params = length (filter (has_key key) params) == 1

abbrev pub is_rule : List (Text × Text) → Bool
is_rule params =
    length params == 2 && is_once (chars "location") params && is_once (chars "proxy_pass") params

module _ (addresses : Addresses) (parse_query : Text → List (Text × Text)) where
  unfoldable pub parse_rule : Text → Fallible ProxyLocation
  parse_rule query =
      let params = parse_query query in
      refuse_if (not (is_rule params))
        (bad_request "unmount requires exactly location and proxy_pass")
      >> ok_or (value_at (chars "location") params) task
      >>= λ location. ok_or (value_at (chars "proxy_pass") params) task >>= λ upstream.
          parse_one addresses location upstream

  -- The rule that a DELETE names in its query.
  unfoldable pub deletion_of : Method → Text → Option Text → Fallible (Option ProxyLocation)
  unfolding parse_rule
  deletion_of method path (some query) =
      refuse_if (not (is_mount path) || not (is_delete method))
        (bad_request "unsupported query parameters")
      >> parse_rule query
      >>= λ rule. ok (some rule)
  deletion_of method path none =
      refuse_if (is_mount path && is_delete method)
        (bad_request "unmount requires location and proxy_pass")
      >> ok none

abbrev pub is_mode : Text → Bool
is_mode v =
    text_eq v (chars "internal")
    || text_eq v (chars "external")
    || text_eq v (chars "all")
    || text_eq v (chars "off")

abbrev pub is_mode_or : Option Text → Bool
is_mode_or none = false
is_mode_or (some v) = is_mode v

module _ {Value : Type 0} (json : Json Value) where
  unfoldable pub validate_listen_patch : Value → Fallible (Unit {0})
  validate_listen_patch payload = elim (json.as_object payload) [
    | some ((key, value) ∷ []) ↦
        refuse_if (not (text_eq key (chars "listen") && is_mode_or (json.as_str value)))
          (bad_request "invalid listen field")
    | _ ↦ err (bad_request "listen PATCH requires exactly one listen field")
  ]

  abbrev pub text_at : Text → List (Text × Value) → Option Text
  text_at key fields = elim (value_at key fields) [ none ↦ none | some v ↦ json.as_str v ]

  -- `parse_proxy_json` on the array of one element that its callers build.
  unfoldable pub parse_proxy_json : Addresses → Value → Fallible ProxyLocation
  unfolding parse_one value_at
  parse_proxy_json addresses payload = elim (json.as_object payload) [
    | none ↦ err (bad_request "invalid proxy fields")
    | some fields ↦
        refuse_if (not (length fields == 2)) (bad_request "invalid proxy fields")
        >> ok_or (text_at (chars "location") fields) (bad_request "proxy location must be a string")
        >>= λ location.
            ok_or (text_at (chars "proxy_pass") fields) (bad_request "proxy_pass must be a string")
            >>= λ upstream. parse_one addresses location upstream
  ]

  -- `payload["listen"].as_str()`
  unfoldable pub listen_of : Option Value → Option Text
  unfolding value_at
  listen_of none = none
  listen_of (some payload) = elim (json.as_object payload) [
    | none ↦ none
    | some fields ↦ text_at (chars "listen") fields
  ]

  -- The rule that a PATCH of the mounts sets; none for the other changes.
  unfoldable pub planned :
      Addresses → Method → Text → Option Value → Fallible (Option ProxyLocation)
  unfolding validate_listen_patch parse_proxy_json
  planned addresses patch path payload =
      ok_or payload (bad_request "missing configuration") >>= λ value.
      if is_listen path
      then validate_listen_patch value >> ok none
      else parse_proxy_json addresses value >>= λ rule. ok (some rule)
  planned addresses delete path payload = refuse_if (is_some payload) method_not_allowed >> ok none
  planned addresses get path payload = err method_not_allowed
  planned addresses other path payload = err method_not_allowed
