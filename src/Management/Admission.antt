-- ===== src/Management/Admission.antt =====
-- src/package.rs, `pkg_management_request`: who can give which command.
use pishoo.Base.{
  Bool, true, false, not, ◌&&◌, ◌||◌, Option, Text, chars, text_eq, all, length, is_some, is_none,
  ok, ◌==◌, ◌≡◌, inl, inr, refl, subst, Bool-cases, Result-cases, Option-cases, arith,
}
use pishoo.Setup.Requests.{Json}
use pishoo.Setup.Owner.{
  Owner, Body, bytes, too_long, unreadable, IsOwner, check_owner, check_owner-some, supported,
  is_json,
}
use pishoo.Management.{
  ManagementRequest, Command, install, catalog, remove, command, is_install, ends_list, is_get,
  is_delete, allows, named, short_name, check_name, is_field, text_field, read_install,
  read_command, limit_of, read_request, manage,
}

post_of_allows :
    (listing : Bool) (method : Text)
    → allows true listing method ≡ true
    → text_eq method (chars "POST") ≡ true
unfolding allows
post_of_allows listing method h = ground arith

delete_of_allows :
    (listing : Bool) (method : Text)
    → allows false listing method ≡ true
    → is_get method ≡ false
    → is_delete method ≡ true
unfolding allows
delete_of_allows true method h other = ground arith
delete_of_allows false method h other = ground arith

module _ (normalize_name : Text → Option Text) {Value : Type 0} (json : Json Value) where
  read_install-short_name :
      (input : Value) {c : Command}
      → read_install normalize_name json input ≡ ok c
      → (author : Text) × (name : Text) × (version : Text) × (c ≡ install author name version)
        × (short_name normalize_name name ≡ ok tt)
  unfolding read_install
  read_install-short_name input {c} h = elim (Option-cases (json.as_object input)) [
    | inl other ↦ ground arith
    | inr (fields, e) ↦
        elim (Bool-cases
          (not (length fields == 3) || not (all (is_field normalize_name json) fields))) [
            | inl refused ↦ ground arith
            | inr fine ↦
                elim (Result-cases (text_field normalize_name json (chars "name") fields)) [
                  | inr (e2, fails) ↦ ground arith
                  | inl (name, e2) ↦ elim (Result-cases (short_name normalize_name name)) [
                    | inr (e3, fails) ↦ ground arith
                    | inl (u, short) ↦
                        elim (Result-cases
                          (text_field normalize_name json (chars "author") fields)) [
                            | inr (e4, fails) ↦ ground arith
                            | inl (author, e4) ↦
                                elim (Result-cases
                                  (text_field normalize_name json (chars "version") fields)) [
                                    | inr (e5, fails) ↦ ground arith
                                    | inl (version, e5) ↦
                                        (author, name, version, ground arith, short)
                                  ]
                          ]
                  ]
                ]
          ]
  ]

module _ {Subject Bytes : Type 0} (normalize_name : Text → Option Text) where
  -- What a command says of the request that gave it.
  abbrev pub IsCommandOf : ManagementRequest Subject Bytes → Command → Type 0
  IsCommandOf request (install author name version) =
      (is_install request.path ≡ true)
      × (text_eq request.method (chars "POST") ≡ true)
      × (short_name normalize_name name ≡ ok tt)
  IsCommandOf request (catalog id) = is_get request.method ≡ true
  IsCommandOf request (remove name expected) =
      (is_install request.path ≡ false)
      × (is_delete request.method ≡ true)
      × (short_name normalize_name name ≡ ok tt)
      × (expected ≡ request.expected_id)

module _ {Subject Bytes Value : Type 0} (normalize_name : Text → Option Text) (json : Json Value)
    (parse_json : Bytes → Option Value) where
  read_command-IsCommandOf :
      (request : ManagementRequest Subject Bytes) (listing installing : Bool) (id : Option Text)
      (body : Body Bytes) {c : Command}
      → is_install request.path ≡ installing
      → allows installing listing request.method ≡ true
      → check_name normalize_name id ≡ ok tt
      → read_command normalize_name json parse_json installing request.method id request.expected_id
          body
        ≡ ok (command c)
      → IsCommandOf normalize_name request c
  unfolding read_command
  read_command-IsCommandOf request listing installing id too_long place allowed short h =
      ground arith
  read_command-IsCommandOf request listing installing id unreadable place allowed short h =
      ground arith
  read_command-IsCommandOf request listing true id (bytes b) {c} place allowed short h =
      elim (Option-cases (parse_json b)) [
        | inl bad ↦ ground arith
        | inr (input, e) ↦ elim (Result-cases (read_install normalize_name json input)) [
          | inr (e2, fails) ↦ ground arith
          | inl (c2, e2) ↦
              let (author, name, version, form, named_short) =
                read_install-short_name normalize_name json input e2 in
              let same : install author name version ≡ c = ground arith in
              subst (IsCommandOf normalize_name request) same
                (place, post_of_allows listing request.method allowed, named_short)
        ]
      ]
  read_command-IsCommandOf request listing false id (bytes b) {c} place allowed short h =
      elim (Bool-cases (is_get request.method)) [
        | inl reads ↦
            let same : catalog id ≡ c = ground arith in
            subst (IsCommandOf normalize_name request) same reads
        | inr other ↦ elim (Option-cases id) [
          | inl missing ↦ ground arith
          | inr (name, e) ↦
              let same : remove name request.expected_id ≡ c = ground arith in
              let named_short : short_name normalize_name name ≡ ok tt =
                subst (λ i. check_name normalize_name i ≡ ok tt) e short in
              subst (IsCommandOf normalize_name request) same
                (place, delete_of_allows listing request.method allowed other, named_short, refl)
        ]
      ]

  module _ (decode : Text → Option Text) where
    read_request-IsCommandOf :
        (request : ManagementRequest Subject Bytes) {c : Command}
        → allows (is_install request.path) (ends_list request.path) request.method ≡ true
        → read_request normalize_name json parse_json decode request ≡ ok (command c)
        → IsCommandOf normalize_name request c
    unfolding read_request
    read_request-IsCommandOf request {c} allowed h =
        let installing = is_install request.path in
        let listing = ends_list request.path in
        elim (Bool-cases (installing && is_some request.query)) [
          | inl bad ↦ ground arith
          | inr q ↦ elim (Result-cases (named decode listing request.query)) [
            | inr (e, fails) ↦ ground arith
            | inl (id, e) ↦ elim (Result-cases (check_name normalize_name id)) [
              | inr (e2, fails) ↦ ground arith
              | inl (u, short) ↦ elim (Bool-cases (not installing && (not listing && is_none id))) [
                | inl missing ↦ ground arith
                | inr m ↦
                    elim (Bool-cases (
                      is_some request.expected_id
                      && (not (is_delete request.method) || is_none id))) [
                        | inl odd ↦ ground arith
                        | inr x ↦
                            elim (Bool-cases (installing && not (is_json request.content_type))) [
                              | inl media ↦ ground arith
                              | inr json_body ↦ elim (Bool-cases request.has_trailer) [
                                | inl trailers ↦ ground arith
                                | inr none_there ↦
                                    elim (Result-cases (
                                      request.body
                                        (limit_of normalize_name json parse_json installing))) [
                                          | inr (e3, fails) ↦ ground arith
                                          | inl (body, e3) ↦
                                              read_command-IsCommandOf request listing installing id
                                                body {c = c} refl allowed short (ground arith)
                                        ]
                              ]
                            ]
                      ]
              ]
            ]
          ]
        ]

    -- A command is given only by the identity's own request. An installation is a POST of a
    -- package by its short name, a removal a DELETE of one with the id that the request expects,
    -- and the catalog is read by GET.
    pub manage-IsCommandOf :
        (same : Subject → Subject → Bool) (owner : Owner Subject)
        (request : ManagementRequest Subject Bytes) {c : Command}
        → manage normalize_name json parse_json decode same owner request ≡ ok (command c)
        → IsOwner same owner request.visitor × IsCommandOf normalize_name request c
    unfolding manage
    manage-IsCommandOf same owner request {c} h =
        elim (Result-cases (check_owner same owner request.visitor)) [
          | inr (e, fails) ↦ ground arith
          | inl (u, e) ↦ elim (Result-cases (supported request.versions)) [
            | inr (e2, fails) ↦ ground arith
            | inl (version, e2) ↦ elim (Bool-cases version) [
              | inr unsupported ↦ ground arith
              | inl fine ↦
                  elim (Bool-cases
                    (allows (is_install request.path) (ends_list request.path) request.method)) [
                      | inr other ↦ ground arith
                      | inl allowed ↦ (
                        check_owner-some same owner request.visitor e,
                        read_request-IsCommandOf request {c = c} allowed (ground arith),
                      )
                    ]
            ]
          ]
        ]
