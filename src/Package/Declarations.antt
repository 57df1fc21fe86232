-- ===== src/Package/Declarations.antt =====
-- src/package/format.rs, `validate_declarations`: the operations and the access groups that the
-- OpenAPI document of a package declares. The maps from a group to its operations, of which none is
-- empty, are the lists of their pairs. The parsers of grantees and effects are another crate's.
pub mod Grouping
pub mod Ids
pub mod Annotated
pub mod Declared
pub mod Membership
mod Tests
use pishoo.Base.{
  ℕ, Bool, true, false, not, ◌&&◌, ◌||◌, Option, none, some, List, [], ◌∷◌, ◌++◌, String, Text,
  chars, text_eq, any, all, length, ◌==◌, if◌then◌else◌, is_some, is_none, starts_with,
  strip_prefix, Result, ok, err, ◌>>=◌, ◌>>◌, refuse_if, ok_or,
}
use pishoo.Failure.{Error, Fallible, invalid_component}
use pishoo.Values.{Values, lookup, has_only, get, at, is_true}
use pishoo.Package.Names.{valid_name}
use pishoo.Package.Metadata.{text, has_not_size, filled}

-- `path == prefix || path.strip_prefix(prefix).is_some_and(|tail| tail.starts_with('/'))`
unfoldable pub is_under : Text → Text → Bool
unfolding text_eq strip_prefix starts_with
is_under prefix path =
    text_eq path prefix
    || elim (strip_prefix prefix path) [ none ↦ false | some tail ↦ starts_with (chars "/") tail ]

abbrev pub methods : List Text
methods =
    chars "get"
    ∷ chars "head"
    ∷ chars "post"
    ∷ chars "put"
    ∷ chars "patch"
    ∷ chars "delete"
    ∷ chars "options"
    ∷ chars "trace"
    ∷ []

unfoldable pub is_among : Text → List Text → Bool
unfolding text_eq
is_among t ts = any (text_eq t) ts

abbrev pub same_pair : Text × Text → Text × Text → Bool
same_pair (a, b) (c, d) = text_eq a c && text_eq b d

-- Equality of maps, by their pairs.
unfoldable pub same_pairs : List (Text × Text) → List (Text × Text) → Bool
unfolding text_eq
same_pairs ps qs = all (λ p. any (same_pair p) qs) ps && all (λ q. any (same_pair q) ps) qs

-- The operations so far, and the annotations of operations with groups.
pub record Operations : Type 0 where
  pub ids : List Text
  pub annotated : List (Text × Text)

pub record Groups : Type 0 where
  pub declared : List (Text × Text)
  pub members : List Text
  pub app_group : Bool

module _ {Value : Type 0} (V : Values Value) where
  -- `value.as_object().is_some_and(|o| o.keys().any(...))`
  unfoldable pub has_foreign : List Text → Value → Bool
  unfolding has_only
  has_foreign keys value = elim (V.as_object value) [
    | none ↦ false
    | some fields ↦ not (has_only keys fields)
  ]

  -- The declaration, which may stand in one of two places only.
  abbrev pub one_of : String → Option Value → Option Value → Fallible (Option Value)
  one_of message (some a) (some b) = err (invalid_component message)
  one_of message (some a) none = ok (some a)
  one_of message none legacy = ok legacy

  abbrev pub as_name : Value → Option Text
  as_name value = elim (V.as_str value) [
    | none ↦ none
    | some s ↦ if valid_name s then some s else none
  ]

  unfoldable pub annotate : Text → Option Value → Operations → Fallible Operations
  unfolding valid_name
  annotate id none ops = ok ops
  annotate id (some group) ops =
      ok_or (as_name group) (invalid_component "invalid access-group") >>= λ name.
      ok (record ops { annotated = (name, id) ∷ ops.annotated })

  module _ (parse_grantee parse_effect : Text → Bool) where
    unfoldable pub check_rule : List Text → Value → Fallible (List Text)
    unfolding has_not_size text is_among
    check_rule grantees rule =
        refuse_if (has_not_size V 2 rule)
          (invalid_component "initial-access requires only grantee and effect")
        >> text V rule (chars "grantee")
        >>= λ grantee.
            refuse_if (not (parse_grantee grantee)) (invalid_component "invalid grantee")
            >> text V rule (chars "effect")
            >>= λ effect.
                refuse_if (not (parse_effect effect)) (invalid_component "invalid effect")
                >> refuse_if (is_among grantee grantees)
                    (invalid_component "duplicate initial-access grantee")
                >> ok (grantee ∷ grantees)

    unfoldable pub check_rules : List Text → List Value → Fallible (List Text)
    unfolding check_rule
    check_rules grantees [] = ok grantees
    check_rules grantees (rule ∷ rules) =
        check_rule grantees rule >>= λ next. check_rules next rules

    unfoldable pub check_initial : Option Value → Fallible (Unit {0})
    unfolding check_rules is_among
    check_initial none = ok tt
    check_initial (some initial) =
        ok_or (V.as_array initial) (invalid_component "initial-access must be an array")
        >>= λ rules. check_rules [] rules >>= λ grantees.
            refuse_if
              (is_among (chars "*?") grantees
                && (is_among (chars "**") grantees || is_among (chars "?") grantees))
              (invalid_component "conflicting wildcard grantees")

    -- One operation, `extension` being its `x-pishoo`.
    unfoldable pub read_operation : Operations → Value → Fallible Operations
    unfolding text is_among at has_foreign get annotate check_initial
    read_operation ops operation =
        let extension = at V (chars "x-pishoo") operation in
        text V operation (chars "operationId") >>= λ id.
        text V operation (chars "summary") >>= λ summary.
        refuse_if (is_among id ops.ids) (invalid_component "duplicate operationId")
        >> refuse_if (has_foreign (chars "access-group" ∷ chars "initial-access" ∷ []) extension)
            (invalid_component "template operations are unsupported")
        >> one_of "duplicate access-group declarations" (get V (chars "x-access-group") operation)
            (get V (chars "access-group") extension)
        >>= λ group. annotate id group (record ops { ids = id ∷ ops.ids }) >>= λ next.
            check_initial (get V (chars "initial-access") extension) >> ok next

    abbrev pub read_if : Operations → Option Value → Fallible Operations
    read_if ops none = ok ops
    read_if ops (some operation) = read_operation ops operation

    unfoldable pub read_methods : List Text → Operations → Value → Fallible Operations
    unfolding get read_operation
    read_methods [] ops item = ok ops
    read_methods (method ∷ rest) ops item =
        read_if ops (get V method item) >>= λ next. read_methods rest next item

    unfoldable pub read_paths : Operations → List (Text × Value) → Fallible Operations
    unfolding is_under read_methods
    read_paths ops [] = ok ops
    read_paths ops ((path, item) ∷ paths) =
        refuse_if (is_under (chars "/api") path || is_under (chars "/app") path)
          (invalid_component "business API cannot contain host mounting prefixes")
        >> read_methods methods ops item
        >>= λ next. read_paths next paths

  unfoldable pub check_title : Value → Fallible (Unit {0})
  unfolding at lookup text
  check_title group = elim (V.as_object (at V (chars "title") group)) [
    | none ↦ text V group (chars "title") >>= λ title. ok tt
    | some titles ↦
        refuse_if
          (not (length titles == 2)
            || is_none (lookup (chars "en") titles)
            || is_none (lookup (chars "zh-CN") titles))
          (invalid_component "localized group title requires en and zh-CN")
        >> text V (at V (chars "title") group) (chars "en")
        >>= λ en. text V (at V (chars "title") group) (chars "zh-CN") >>= λ zh. ok tt
  ]

  abbrev pub not_boolean : Option Value → Bool
  not_boolean none = false
  not_boolean (some v) = is_none (V.as_bool v)

  unfoldable pub read_app : Value → Groups → Fallible Groups
  unfolding get at is_true
  read_app group groups =
      refuse_if (not_boolean (get V (chars "app") group))
        (invalid_component "group app must be a boolean")
      >> refuse_if (is_true V (at V (chars "app") group) && groups.app_group)
          (invalid_component "app entry belongs to multiple groups")
      >> ok (record groups { app_group = is_true V (at V (chars "app") group) || groups.app_group })

  abbrev pub known_operation : List Text → Value → Option Text
  known_operation operations value = elim (V.as_str value) [
    | none ↦ none
    | some id ↦ if is_among id operations then some id else none
  ]

  unfoldable pub read_members : List Text → Text → Groups → List Value → Fallible Groups
  unfolding is_among
  read_members operations name groups [] = ok groups
  read_members operations name groups (value ∷ values) =
      ok_or (known_operation operations value) (invalid_component "unknown group operation")
      >>= λ id.
          refuse_if (is_among id groups.members)
            (invalid_component "overlapping or duplicate group operation")
          >> read_members operations name
              (record groups {
                declared = (name, id) ∷ groups.declared;
                members = id ∷ groups.members;
              })
              values

  abbrev pub filled_array : Option (List Value) → Option (List Value)
  filled_array none = none
  filled_array (some []) = none
  filled_array (some (v ∷ vs)) = some (v ∷ vs)

  unfoldable pub read_group : List Text → Groups → Text × Value → Fallible Groups
  unfolding valid_name check_title read_app at read_members
  read_group operations groups (name, group) =
      refuse_if (not (valid_name name)) (invalid_component "invalid group name")
      >> check_title group
      >> read_app group groups
      >>= λ next.
          ok_or (filled_array (V.as_array (at V (chars "operations") group)))
            (invalid_component "group must contain operations")
          >>= λ ids. read_members operations name next ids

  unfoldable pub read_groups : List Text → Groups → List (Text × Value) → Fallible Groups
  unfolding read_group
  read_groups operations groups [] = ok groups
  read_groups operations groups (row ∷ rows) =
      read_group operations groups row >>= λ next. read_groups operations next rows

  abbrev pub no_groups : Groups
  no_groups = record { declared = []; members = []; app_group = false }

  unfoldable pub read_declared : List Text → Option Value → Fallible Groups
  unfolding read_groups
  read_declared operations none = ok no_groups
  read_declared operations (some value) =
      ok_or (V.as_object value) (invalid_component "access-groups must be an object") >>= λ rows.
      read_groups operations no_groups rows

  module _ (parse_grantee parse_effect : Text → Bool) where
    unfoldable pub validate_declarations : Value → Fallible (Unit {0})
    unfolding text at get has_foreign read_paths read_declared same_pairs
    validate_declarations document =
        let extension = at V (chars "x-pishoo") document in
        text V (at V (chars "info") document) (chars "title") >>= λ title.
        refuse_if (is_some (get V (chars "templates") extension))
          (invalid_component "external templates are not part of store v1")
        >> refuse_if (has_foreign (chars "access-groups" ∷ []) extension)
            (invalid_component "OpenAPI cannot declare package metadata")
        >> one_of "duplicate access-groups declarations" (get V (chars "x-access-groups") document)
            (get V (chars "access-groups") extension)
        >>= λ groups.
            ok_or (V.as_object (at V (chars "paths") document))
              (invalid_component "paths must be an object")
            >>= λ paths.
                read_paths parse_grantee parse_effect (record { ids = []; annotated = [] }) paths
                >>= λ operations. read_declared operations.ids groups >>= λ declared.
                    refuse_if (not (same_pairs declared.declared operations.annotated))
                      (invalid_component "access-groups disagree with operation annotations")
